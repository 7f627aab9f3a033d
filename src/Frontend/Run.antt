-- ===== src/Frontend/Run.antt =====
-- The steps of InstrumentIRPass::run of frontend/src/InstrumentIR.cc from doInitialization to
-- ConstructFinalCFG, one after the other.
pub mod Domain
pub mod Edges
pub mod Checked
pub mod Returns
use semalloc.Common.{ℕ, ◌+◌, Bool, true, false, Option, none, some, List, [], ◌∷◌, ◌++◌}
use semalloc.Frontend.Graph.{Paths, Calls, FinalCfg, flip_function_map, construct_final_cfg}
use semalloc.Frontend.Traverse.Ends.{total}
use semalloc.Frontend.Marking.{Marks, mark_heap_functions, mark_only_relevant_functions}
use semalloc.Frontend.LoopMarking.{LoopMarks, mark_loop_relevant_functions}
use semalloc.Frontend.Cycles.{GraphLibrary, Looped, instr_is_in_a_loop}

-- What the pass starts from: the calls, FunctionMap, its keys, and what LLVM and CXXGraph answer.
pub record Program : Type 0 where
  pub paths : Paths
  pub function_map : Calls
  pub functions : List ℕ
  pub heap_functions : List ℕ
  pub in_loop : ℕ → Bool
  pub library : GraphLibrary
  pub intra_name : ℕ → ℕ

unfoldable pub flip_program : Program → Calls
unfolding flip_function_map
flip_program g = flip_function_map g.paths g.function_map g.functions (λ _. [])

-- The fuel of a traversal: twice the number of calls.
unfoldable pub do_initialization : Program → Option Marks
unfolding mark_heap_functions mark_only_relevant_functions flip_program
do_initialization g =
    let fuel = total g.function_map g.functions + total g.function_map g.functions in
    mark_only_relevant_functions g.paths g.function_map fuel (flip_program g) (
      mark_heap_functions g.paths g.function_map g.heap_functions
        (record { function_mark_set = []; is_relevant = λ _. false; calls_hmf = λ _. false }))

unfoldable pub find_loops : Program → Marks → Option Looped
unfolding instr_is_in_a_loop flip_program
find_loops g m =
    instr_is_in_a_loop g.in_loop g.library g.intra_name g.paths g.function_map (flip_program g)
      m.function_mark_set

abbrev pub names_of : List (ℕ × List ℕ) → List ℕ
names_of [] = []
names_of ((name, members) ∷ cycles) = name ∷ names_of cycles

-- The functions and the cycles.
abbrev pub all_names : Program → Looped → List ℕ
all_names g s = names_of s.cycles.intra ++ g.functions

unfoldable pub mark_loops : Program → Marks → Looped → Option LoopMarks
unfolding mark_loop_relevant_functions
mark_loops g m s =
    let calls = total s.maps.function_map (all_names g s) in
    let called = total s.maps.flipped (all_names g s) in
    mark_loop_relevant_functions s.paths s.maps.function_map s.maps.flipped
      (calls + calls + (called + called)) m.function_mark_set s.maps.loop_set s.cycles.flipped_intra
      m.is_relevant

pub record Analysed : Type 0 where
  pub paths : Paths
  pub cfg : FinalCfg
  pub relevant_all : List ℕ
  pub flipped_intra : ℕ → Option ℕ

unfoldable pub run : Program → Option Analysed
unfolding do_initialization find_loops mark_loops construct_final_cfg
run g = elim (do_initialization g) [
  | none ↦ none
  | some m ↦ elim (find_loops g m) [
    | none ↦ none
    | some s ↦ elim (mark_loops g m s) [
      | none ↦ none
      | some l ↦
          let (cfg, paths) =
            construct_final_cfg s.paths s.maps.function_map s.maps.flipped l.relevant_all in
          some (record {
            paths = paths;
            cfg = cfg;
            relevant_all = l.relevant_all;
            flipped_intra = s.cycles.flipped_intra;
          })
    ]
  ]
]
