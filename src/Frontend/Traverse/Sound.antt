-- ===== src/Frontend/Traverse/Sound.antt =====
-- A traversal marks nothing but what its calls lead to: whatever predicate holds of the queue and is
-- closed under the calls holds of the functions it visits and marks.
use semalloc.Common.{
  ℕ, ◌≡◌, Bool, true, some, List, [], ◌∷◌, arith, inl, inr, has, has-insert, if◌then◌else◌,
  Bool-cases, eq-cases, ap, ◌∙◌, subst,
}
use semalloc.Frontend.Graph.{Calls, push_back}
use semalloc.Frontend.Graph.Agreement.{has-push_back}
use semalloc.Frontend.Traverse.{Traversal, push_unvisited, visit, round, traverse}
use semalloc.Frontend.Traverse.Closed.{loop_rule}

-- The functions that calls lead to, from the one at the start, which is one of them.
pub data Walk (next : ℕ → ℕ) (calls : Calls) (e : ℕ) : ℕ → Type 0 where
  self : Walk next calls e e
  onward :
      {f : ℕ} → (p : ℕ) → Walk next calls e f → has p (calls f) ≡ true → Walk next calls e (next p)

module _ (next : ℕ → ℕ) (calls : Calls) (keep : ℕ → Bool) (Ok : ℕ → Type 0)
    (step : (f p : ℕ) → Ok f → has p (calls f) ≡ true → Ok (next p)) where
  pub record IsSound (Final : ℕ → Type 0) (t : Traversal) : Type 0 where
    pub queued : (f : ℕ) → has f t.queue ≡ true → Ok f
    pub final : (f : ℕ) → has f t.final_set ≡ true → Final f

  push_unvisited-Ok :
      (visited ps queue : List ℕ)
      → ((f : ℕ) → has f queue ≡ true → Ok f)
      → ((p : ℕ) → has p ps ≡ true → Ok (next p))
      → (f : ℕ) → has f (push_unvisited next visited ps queue) ≡ true
      → Ok f
  unfolding push_unvisited
  push_unvisited-Ok visited [] queue old new f h = old f h
  push_unvisited-Ok visited (p ∷ ps) queue old new f h =
      push_unvisited-Ok visited ps
        (if has (next p) visited then queue else push_back queue (next p))
        (λ g here. elim (Bool-cases (has (next p) visited)) [
          | inl seen ↦ old g (ground (arith, seen))
          | inr fresh ↦ elim (eq-cases (next p) g) [
            | inl e ↦ subst Ok e (new p (ground arith))
            | inr ne ↦ old g (ground (arith, fresh, has-push_back g queue (next p)))
          ]
        ])
        (λ q here. new q (ground arith)) f h

  module _ (Final : ℕ → Type 0) (mark : (f : ℕ) → Ok f → keep f ≡ true → Final f) where
    round-IsSound :
        (t : Traversal) (f : ℕ) (rest : List ℕ)
        → t.queue ≡ f ∷ rest
        → IsSound Final t
        → IsSound Final (round next calls keep f (record t { queue = rest }))
    unfolding round visit
    round-IsSound t f rest e inv =
        let front : Ok f = inv.queued f (ap (has f) e ∙ ground arith) in
        let back = λ (g : ℕ) (h : has g rest ≡ true). inv.queued g (ap (has g) e ∙ ground arith) in
        elim (Bool-cases (has f t.visited)) [
          | inl old ↦ rw (old, round) (record { queued = back; final = inv.final })
          | inr new ↦
              rw (new, round)
                (record {
                  queued =
                      push_unvisited-Ok (f ∷ t.visited) (calls f) rest back
                        (λ p c. step f p front c);
                  final = λ g h. elim (Bool-cases (keep f)) [
                    | inl k ↦ elim (eq-cases f g) [
                      | inl s ↦ subst Final s (mark f front k)
                      | inr ne ↦ inv.final g (ground (arith, k, has-insert g f t.final_set))
                    ]
                    | inr k ↦ inv.final g (ground (arith, k))
                  ];
                })
        ]

    pub traverse-IsSound :
        (fuel : ℕ) (t u : Traversal)
        → IsSound Final t
        → traverse next calls keep fuel t ≡ some u
        → IsSound Final u
    traverse-IsSound fuel t u inv h =
        (loop_rule next calls keep (IsSound Final) round-IsSound fuel t u inv h).0
