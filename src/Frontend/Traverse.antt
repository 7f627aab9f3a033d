-- ===== src/Frontend/Traverse.antt =====
-- The traversal of the call graph that MarkOnlyRelevantFunctions and MarkLoopRelevantFunctions of
-- frontend/src/InstrumentIR.cc write out three times: to the callers of a function, or to its callees.
pub mod Ends
pub mod Closed
pub mod Sound
use semalloc.Common.{
  ℕ, zero, suc, Bool, true, Option, none, some, List, [], ◌∷◌, has, insert, if◌then◌else◌, update,
}
use semalloc.Frontend.Graph.{Calls, push_back}

-- GlobalVisited, the set of marked functions, isRelevant of each call, and CandidateQueue.
pub record Traversal : Type 0 where
  pub visited : List ℕ
  pub final_set : List ℕ
  pub is_relevant : ℕ → Bool
  pub queue : List ℕ

unfoldable pub mark_relevant : List ℕ → (ℕ → Bool) → ℕ → Bool
mark_relevant [] relevant = relevant
mark_relevant (p ∷ ps) relevant = mark_relevant ps (update relevant p true)

unfoldable pub push_unvisited : (ℕ → ℕ) → List ℕ → List ℕ → List ℕ → List ℕ
push_unvisited next visited [] queue = queue
push_unvisited next visited (p ∷ ps) queue =
    push_unvisited next visited ps
      (if has (next p) visited then queue else push_back queue (next p))

module _ (next : ℕ → ℕ) (calls : Calls) (keep : ℕ → Bool) where
  -- A function that was not visited before; `keep` says whether it is marked.
  unfoldable pub visit : ℕ → Traversal → Traversal
  unfolding mark_relevant push_unvisited
  visit f t = record {
    visited = f ∷ t.visited;
    final_set = if keep f then insert f t.final_set else t.final_set;
    is_relevant = mark_relevant (calls f) t.is_relevant;
    queue = push_unvisited next (f ∷ t.visited) (calls f) t.queue;
  }

  -- One round of the while loop, after the front of the queue is popped.
  unfoldable pub round : ℕ → Traversal → Traversal
  unfolding visit
  round f t = if has f t.visited then t else visit f t

  -- `while (!CandidateQueue.empty())`; `none` is the end of the fuel.
  unfoldable pub traverse : ℕ → Traversal → Option Traversal
  unfolding round
  traverse zero t = elim t.queue [ [] ↦ some t | f ∷ fs ↦ none ]
  traverse (suc n) t = elim t.queue [
    | [] ↦ some t
    | f ∷ fs ↦ traverse n (round f (record t { queue = fs }))
  ]
