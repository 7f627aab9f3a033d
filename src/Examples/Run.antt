-- ===== src/Examples/Run.antt =====
-- The steps of run on the program with a cycle: 3 calls 1, 1 and 2 call each other, and 2 calls the heap
-- function 0.
use semalloc.Common.{
  ℕ, ◌+◌, ◌≡◌, sym, ◌∙◌, ◌==◌, true, false, Option, none, some, List, [], ◌∷◌, if◌then◌else◌, refl,
  has, insert, has-insert, ap, subst, arith, Bool-cases, inl, inr,
}
use semalloc.Frontend.Weights.Layout.{AllDistinct}
use semalloc.Frontend.Marking.{Marks}
use semalloc.Frontend.Cycles.{
  GraphLibrary, Looped, mark_loop_functions, graph_edges, find_cycles, instr_is_in_a_loop,
}
use semalloc.Frontend.Cycles.Linked.{IsLinked}
use semalloc.Frontend.Cycles.Whole.{instr_is_in_a_loop-IsLinked}
use semalloc.Frontend.Graph.{Paths}
use semalloc.Frontend.Run.{Program, flip_program, do_initialization, Analysed, run}
use semalloc.Frontend.Run.Edges.{in_edges}
use semalloc.Frontend.Run.Checked.{IsAccepted}
use semalloc.Frontend.Run.Returns.{IsProgram, cycle_of, run-IsAccepted}
use semalloc.Examples.Cycles.{paths, function_map, flipped, paths-IsFlipped}

abbrev pub nodes : List (ℕ × ℕ) → List ℕ
nodes [] = []
nodes ((a, b) ∷ es) = insert a (insert b (nodes es))

AllDistinct-insert : (f : ℕ) (xs : List ℕ) → AllDistinct xs → AllDistinct (insert f xs)
AllDistinct-insert f xs d = elim (Bool-cases (has f xs)) [
  | inl old ↦ subst (λ k. AllDistinct (if k then xs else f ∷ xs)) (sym old) d
  | inr new ↦ subst (λ k. AllDistinct (if k then xs else f ∷ xs)) (sym new) (new, d)
]

pub nodes-AllDistinct : (es : List (ℕ × ℕ)) → AllDistinct (nodes es)
nodes-AllDistinct [] = tt
nodes-AllDistinct ((a, b) ∷ es) =
    AllDistinct-insert a (insert b (nodes es))
      (AllDistinct-insert b (nodes es) (nodes-AllDistinct es))

pub nodes-ends : (es : List (ℕ × ℕ)) (f : ℕ) → has f (nodes es) ≡ true → in_edges f es ≡ true
nodes-ends [] f h = cc
nodes-ends ((a, b) ∷ es) f h =
    ground
      (arith, h, has-insert f a (insert b (nodes es)), has-insert f b (nodes es), nodes-ends es f)

-- 1 and 2 are one component.
abbrev pub library : GraphLibrary
library = record {
  node_set = nodes;
  no_of_components = λ _. 4;
  scc_map = λ _ f. if f == 2 then 1 else f;
}

abbrev program : Program
program = record {
  paths = paths;
  function_map = function_map;
  functions = 0 ∷ 1 ∷ 2 ∷ 3 ∷ [];
  heap_functions = 0 ∷ [];
  in_loop = λ _. false;
  library = library;
  intra_name = λ i. 9 + i;
}

program-IsProgram : IsProgram program
program-IsProgram = record {
  keyed = λ f p h. ground arith;
  once = λ f. ground arith;
  callee_in = λ f p h. ground arith;
  caller_in = λ f p h. ground arith;
  distinct = (refl, (refl, (refl, (refl, tt))));
  library = record { distinct = nodes-AllDistinct; ends = nodes-ends };
  fresh = λ f i h e. ground (arith, h, e);
}

abbrev pub marked : Option Marks → List ℕ
marked none = []
marked (some m) = m.function_mark_set

do_initialization-program : marked (do_initialization program) ≡ 0 ∷ 1 ∷ 3 ∷ 2 ∷ []
unfolding do_initialization
do_initialization-program = refl

program-cycle :
    (cycle_of program (0 ∷ 1 ∷ 3 ∷ 2 ∷ []) 1 ≡ some 9)
    × (cycle_of program (0 ∷ 1 ∷ 3 ∷ 2 ∷ []) 3 ≡ none)
unfolding find_cycles mark_loop_functions flip_program
program-cycle = (refl, refl)

abbrev accepted : Option Analysed → List ℕ
accepted none = []
accepted (some a) = a.relevant_all

run-program : accepted (run program) ≡ 0 ∷ 3 ∷ 9 ∷ []
unfolding run
run-program = refl

one_cycle : (f n : ℕ) → cycle_of program (0 ∷ 1 ∷ 3 ∷ 2 ∷ []) f ≡ some n → n ≡ 9
unfolding find_cycles mark_loop_functions flip_program
one_cycle f n e = ground (arith, e)

run-IsAccepted_example : (a : Analysed) × (run program ≡ some a) × IsAccepted a
run-IsAccepted_example = run-IsAccepted program program-IsProgram λ m f p n k e c outer inner.
    let set : m.function_mark_set ≡ 0 ∷ 1 ∷ 3 ∷ 2 ∷ [] =
      sym (ap marked e) ∙ do_initialization-program in
    let cycle = λ (h : ℕ). ap (λ s. cycle_of program s h) set in
    one_cycle (paths p).caller n (sym (cycle (paths p).caller) ∙ outer)
    ∙ sym (one_cycle (paths p).callee k (sym (cycle (paths p).callee) ∙ inner))

abbrev marked_functions : List ℕ
marked_functions = 0 ∷ 1 ∷ 3 ∷ 2 ∷ []

abbrev marked_calls : Paths
marked_calls = (mark_loop_functions (λ _. false) function_map marked_functions (paths, [])).0

node_names :
    nodes (graph_edges marked_calls flipped marked_functions marked_functions) ≡ 3 ∷ 0 ∷ 2 ∷ 1 ∷ []
unfolding graph_edges mark_loop_functions
node_names = refl

one_name :
    (f n : ℕ)
    → (find_cycles library (λ i. 9 + i) marked_calls flipped marked_functions []).flipped_intra f
      ≡ some n
    → n ≡ 9
unfolding find_cycles mark_loop_functions
one_name f n e = ground (arith, e)

instr_is_in_a_loop-IsLinked_example :
    (s : Looped) × (instr_is_in_a_loop
        (λ _. false)
        library
        (λ i. 9 + i)
        paths
        function_map
        flipped
        marked_functions
      ≡ some s)
    × IsLinked s.paths s.maps.function_map s.maps.flipped s.cycles.flipped_intra
unfolding mark_loop_functions
instr_is_in_a_loop-IsLinked_example =
    instr_is_in_a_loop-IsLinked (λ _. false) library (λ i. 9 + i) paths function_map flipped
      marked_functions paths-IsFlipped
      (nodes-AllDistinct (graph_edges marked_calls flipped marked_functions marked_functions))
      (λ f i h. ground (arith, sym (ap (has f) node_names) ∙ h))
      (λ f p n k c outer inner.
        one_name (paths p).caller n outer ∙ sym (one_name (paths p).callee k inner))
