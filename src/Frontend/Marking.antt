-- ===== src/Frontend/Marking.antt =====
-- doInitialization of frontend/src/InstrumentIR.cc, which marks the functions that call a heap
-- function, and MarkOnlyRelevantFunctions, which goes on to their callers. A std::set is the list of
-- its elements, which a loop visits in the order of the list.
pub mod Callers
pub mod Complete
pub mod Relevant
pub mod Sound
use semalloc.Common.{
  ℕ, Bool, true, Option, none, some, List, [], ◌∷◌, map, has, insert, if◌then◌else◌, update,
}
use semalloc.Frontend.Graph.{Paths, Calls}
use semalloc.Frontend.Traverse.{Traversal, mark_relevant, traverse}

-- FunctionMarkSet, and isRelevant and callsHMF of each call.
pub record Marks : Type 0 where
  pub function_mark_set : List ℕ
  pub is_relevant : ℕ → Bool
  pub calls_hmf : ℕ → Bool

unfoldable pub mark_call : Paths → ℕ → Marks → Marks
mark_call paths p m = record {
  function_mark_set = insert (paths p).caller m.function_mark_set;
  is_relevant = update m.is_relevant p true;
  calls_hmf = update m.calls_hmf p true;
}

unfoldable pub mark_callers : Paths → List ℕ → Marks → Marks
unfolding mark_call
mark_callers paths [] m = m
mark_callers paths (p ∷ ps) m = mark_callers paths ps (mark_call paths p m)

-- For each heap function; one that is not called has no calls.
unfoldable pub mark_heap_functions : Paths → Calls → List ℕ → Marks → Marks
unfolding mark_callers
mark_heap_functions paths function_map [] m = m
mark_heap_functions paths function_map (f ∷ fs) m =
    mark_heap_functions paths function_map fs (mark_callers paths (function_map f) m)

unfoldable pub insert_all : List ℕ → List ℕ → List ℕ
insert_all [] set = set
insert_all (f ∷ fs) set = insert_all fs (insert f set)

module _ (paths : Paths) (function_map : Calls) (fuel : ℕ) where
  -- All calls of a function are relevant, and so are all that lead to it.
  unfoldable pub mark_parents : ℕ → Traversal → Option Traversal
  unfolding traverse mark_relevant
  mark_parents entry t =
      let caller = λ (p : ℕ). (paths p).caller in
      traverse caller function_map (λ _. true) fuel
        (record t {
          is_relevant = mark_relevant (function_map entry) t.is_relevant;
          queue = map caller (function_map entry);
        })

  -- The loop over the calls that one function makes: those of heap functions count.
  unfoldable pub mark_entry : (ℕ → Bool) → ℕ → List ℕ → Traversal → Option Traversal
  unfolding mark_parents
  mark_entry calls_hmf entry [] t = some t
  mark_entry calls_hmf entry (p ∷ ps) t =
      let rest = mark_entry calls_hmf entry ps t in
      let u = record t { final_set = insert (paths p).callee t.final_set } in
      if calls_hmf p
      then (if has entry t.visited then some u else elim (mark_parents entry u) [
        | none ↦ none
        | some v ↦ mark_entry calls_hmf entry ps v
      ])
      else rest

  unfoldable pub mark_entries :
      (flipped : Calls) → (ℕ → Bool) → List ℕ → Traversal → Option Traversal
  unfolding mark_entry
  mark_entries flipped calls_hmf [] t = some t
  mark_entries flipped calls_hmf (f ∷ fs) t = elim (mark_entry calls_hmf f (flipped f) t) [
    | none ↦ none
    | some u ↦ mark_entries flipped calls_hmf fs u
  ]

  unfoldable pub mark_only_relevant_functions : Calls → Marks → Option Marks
  unfolding mark_entries insert_all
  mark_only_relevant_functions flipped m =
      elim (mark_entries flipped m.calls_hmf m.function_mark_set (record {
        visited = [];
        final_set = m.function_mark_set;
        is_relevant = m.is_relevant;
        queue = [];
      })) [
        | none ↦ none
        | some t ↦ some (record m {
          function_mark_set = insert_all t.final_set m.function_mark_set;
          is_relevant = t.is_relevant;
        })
      ]
