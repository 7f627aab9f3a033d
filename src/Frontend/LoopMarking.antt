-- ===== src/Frontend/LoopMarking.antt =====
-- MarkLoopRelevantFunctions of frontend/src/InstrumentIR.cc: of the marked functions, those that lead
-- to a function with a loop or that it leads to, with one name for the functions of a call cycle.
pub mod Relevant
pub mod Cycles
use semalloc.Common.{
  ℕ, Bool, true, Option, none, some, List, [], ◌∷◌, has, insert, without, if◌then◌else◌,
}
use semalloc.Frontend.Graph.{Paths, Calls}
use semalloc.Frontend.Traverse.{Traversal, traverse}
use semalloc.Frontend.Marking.{insert_all}

-- The marked functions at the other end of calls.
unfoldable pub queue_marked : (ℕ → ℕ) → (mark_set : List ℕ) → List ℕ → List ℕ
queue_marked next mark_set [] = []
queue_marked next mark_set (p ∷ ps) =
    let rest = queue_marked next mark_set ps in
    if has (next p) mark_set then next p ∷ rest else rest

module _ (paths : Paths) (function_map flipped : Calls) (fuel : ℕ) (mark_set : List ℕ) where
  -- All parent functions of a function with a loop.
  unfoldable pub mark_loop_parents : ℕ → Traversal → Option Traversal
  unfolding traverse queue_marked
  mark_loop_parents entry t =
      let caller = λ (p : ℕ). (paths p).caller in
      traverse caller function_map (λ f. has f mark_set) fuel
        (record t { queue = queue_marked caller mark_set (function_map entry) })

  -- All children functions.
  unfoldable pub mark_loop_children : ℕ → Traversal → Option Traversal
  unfolding traverse queue_marked
  mark_loop_children entry t =
      let callee = λ (p : ℕ). (paths p).callee in
      traverse callee flipped (λ f. has f mark_set) fuel
        (record t { queue = queue_marked callee mark_set (flipped entry) })

  -- The functions visited for one function with a loop stay visited for the next ones.
  unfoldable pub mark_loop_entries : List ℕ → Traversal → Option Traversal
  unfolding mark_loop_parents mark_loop_children
  mark_loop_entries [] t = some t
  mark_loop_entries (f ∷ fs) t =
      elim (mark_loop_parents f (record t { visited = insert f t.visited })) [
        | none ↦ none
        | some u ↦ elim (mark_loop_children f u) [ none ↦ none | some v ↦ mark_loop_entries fs v ]
      ]

-- The names of the cycles of some of the functions, and these functions.
unfoldable pub cycle_names : (ℕ → Option ℕ) → List ℕ → List ℕ
cycle_names flipped_intra [] = []
cycle_names flipped_intra (f ∷ fs) =
    let rest = cycle_names flipped_intra fs in
    elim (flipped_intra f) [ none ↦ rest | some name ↦ insert name rest ]

unfoldable pub cycle_members : (ℕ → Option ℕ) → List ℕ → List ℕ
cycle_members flipped_intra [] = []
cycle_members flipped_intra (f ∷ fs) =
    let rest = cycle_members flipped_intra fs in
    elim (flipped_intra f) [ none ↦ rest | some name ↦ f ∷ rest ]

unfoldable pub erase_all : List ℕ → List ℕ → List ℕ
erase_all [] set = set
erase_all (f ∷ fs) set = erase_all fs (without f set)

-- The names of the cycles come in for their functions.
unfoldable pub replace_cycles : (ℕ → Option ℕ) → List ℕ → List ℕ
unfolding cycle_names cycle_members erase_all insert_all
replace_cycles flipped_intra set =
    erase_all (cycle_members flipped_intra set) (insert_all (cycle_names flipped_intra set) set)

pub record LoopMarks : Type 0 where
  pub relevant_all : List ℕ
  pub is_relevant : ℕ → Bool

unfoldable pub mark_loop_relevant_functions :
    Paths
    → (function_map flipped : Calls) → (fuel : ℕ) → (mark_set loop_set : List ℕ) → (ℕ → Option ℕ)
    → (ℕ → Bool)
    → Option LoopMarks
unfolding mark_loop_entries replace_cycles
mark_loop_relevant_functions paths function_map flipped fuel mark_set loop_set flipped_intra
      is_relevant =
    elim (mark_loop_entries paths function_map flipped fuel mark_set loop_set
      (record { visited = []; final_set = loop_set; is_relevant = is_relevant; queue = [] })) [
        | none ↦ none
        | some t ↦ some (record {
          relevant_all = replace_cycles flipped_intra t.final_set;
          is_relevant = t.is_relevant;
        })
      ]
