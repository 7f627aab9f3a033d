-- ===== src/Frontend/Traverse/Closed.antt =====
-- What a traversal has done when its queue is empty: every function that was queued is visited, and
-- the visited functions are closed under their calls.
use semalloc.Common.{
  ℕ, zero, suc, ◌≡◌, refl, Bool, true, ◌||◌, some, List, [], ◌∷◌, arith, inl, inr, has, has-insert,
  update, Bool-cases, eq-cases, List-cases, ap, ◌∙◌,
}
use semalloc.Frontend.Graph.{Calls, push_back}
use semalloc.Frontend.Graph.Agreement.{has-push_back}
use semalloc.Frontend.Traverse.{Traversal, mark_relevant, push_unvisited, visit, round, traverse}

pub mark_relevant-has :
    (ps : List ℕ) (relevant : ℕ → Bool) (p : ℕ)
    → mark_relevant ps relevant p ≡ (has p ps || relevant p)
unfolding mark_relevant
mark_relevant-has [] relevant p = refl
mark_relevant-has (q ∷ qs) relevant p =
    ground (arith, mark_relevant-has qs (update relevant q true) p)

-- The queue keeps what it has, and gets the other end of each call unless that is visited.
push_unvisited_keeps :
    (next : ℕ → ℕ) (visited ps queue : List ℕ) (f : ℕ)
    → has f queue ≡ true
    → has f (push_unvisited next visited ps queue) ≡ true
unfolding push_unvisited
push_unvisited_keeps next visited [] queue f h = h
push_unvisited_keeps next visited (p ∷ ps) queue f h = ground (
  arith,
  push_unvisited_keeps next visited ps queue f,
  push_unvisited_keeps next visited ps (push_back queue (next p)) f,
  has-push_back f queue (next p),
)

push_unvisited-has :
    (next : ℕ → ℕ) (visited ps queue : List ℕ) (p : ℕ)
    → has p ps ≡ true
    → (has (next p) visited || has (next p) (push_unvisited next visited ps queue)) ≡ true
unfolding push_unvisited
push_unvisited-has next visited [] queue p h = cc
push_unvisited-has next visited (q ∷ qs) queue p h = elim (eq-cases q p) [
  | inl e ↦ rw (← e) (
      ground (
        arith,
        push_unvisited_keeps next visited qs (push_back queue (next q)) (next q),
        has-push_back (next q) queue (next q),
      ))
  | inr ne ↦ ground (
    arith,
    push_unvisited-has next visited qs queue p,
    push_unvisited-has next visited qs (push_back queue (next q)) p,
  )
]

module _ {ℓ} (next : ℕ → ℕ) (calls : Calls) (keep : ℕ → Bool) where
  -- An invariant that one round keeps holds at the end, where the queue is empty.
  pub loop_rule :
      (P : Traversal → Type ℓ)
      → ((t : Traversal) (f : ℕ) (rest : List ℕ)
          → t.queue ≡ f ∷ rest
          → P t
          → P (round next calls keep f (record t { queue = rest })))
      → (fuel : ℕ) (t u : Traversal) → P t
      → traverse next calls keep fuel t ≡ some u
      → P u × (u.queue ≡ [])
  unfolding traverse
  loop_rule P step zero t u p h = ground arith
  loop_rule P step (suc fuel) t u p h = elim (List-cases t.queue) [
    | inl empty ↦ ground arith
    | inr (f, rest, e) ↦
        loop_rule P step fuel (round next calls keep f (record t { queue = rest })) u
          (step t f rest e p) (rw (e, traverse) at h)
  ]

module _ (next : ℕ → ℕ) (calls : Calls) (keep : ℕ → Bool) where
  pub record IsClosed (t : Traversal) : Type 0 where
    pub marked : (f : ℕ) → has f t.visited ≡ true → keep f ≡ true → has f t.final_set ≡ true
    pub relevant :
        (f p : ℕ) → has f t.visited ≡ true → has p (calls f) ≡ true → t.is_relevant p ≡ true
    pub closed :
        (f p : ℕ)
        → has f t.visited ≡ true
        → has p (calls f) ≡ true
        → (has (next p) t.visited || has (next p) t.queue) ≡ true

  -- What a traversal never takes back.
  pub record Grows (s t : Traversal) : Type 0 where
    pub seen :
        (f : ℕ)
        → (has f s.visited || has f s.queue) ≡ true
        → (has f t.visited || has f t.queue) ≡ true
    pub kept : (f : ℕ) → has f s.final_set ≡ true → has f t.final_set ≡ true
    pub still : (p : ℕ) → s.is_relevant p ≡ true → t.is_relevant p ≡ true

  visit-IsClosed :
      (t : Traversal) (f : ℕ) (rest : List ℕ)
      → t.queue ≡ f ∷ rest
      → IsClosed t
      → IsClosed (visit next calls keep f (record t { queue = rest }))
  unfolding visit
  visit-IsClosed t f rest e inv = record {
    marked = λ g v k. elim (eq-cases f g) [
      | inl s ↦ ground (arith, has-insert g f t.final_set, ap keep s)
      | inr ne ↦ ground (arith, inv.marked g, has-insert g f t.final_set)
    ];
    relevant = λ g p v c. elim (eq-cases f g) [
      | inl s ↦
          ground (arith, mark_relevant-has (calls f) t.is_relevant p, ap (λ k. has p (calls k)) s)
      | inr ne ↦ ground (arith, mark_relevant-has (calls f) t.is_relevant p, inv.relevant g p)
    ];
    closed = λ g p v c. elim (eq-cases f g) [
      | inl s ↦
          push_unvisited-has next (f ∷ t.visited) (calls f) rest p (ap (λ k. has p (calls k)) s ∙ c)
      | inr ne ↦ ground (
        arith,
        inv.closed g p,
        ap (has (next p)) e,
        push_unvisited_keeps next (f ∷ t.visited) (calls f) rest (next p),
      )
    ];
  }

  pub round-IsClosed :
      (t : Traversal) (f : ℕ) (rest : List ℕ)
      → t.queue ≡ f ∷ rest
      → IsClosed t
      → IsClosed (round next calls keep f (record t { queue = rest }))
  unfolding round
  round-IsClosed t f rest e inv = elim (Bool-cases (has f t.visited)) [
    | inl old ↦
        rw (old, round)
          (record {
            marked = inv.marked;
            relevant = inv.relevant;
            closed = λ g p v c. elim (eq-cases f (next p)) [
              | inl s ↦ ground (arith, old, ap (λ k. has k t.visited) s)
              | inr ne ↦ ground (arith, inv.closed g p, ap (has (next p)) e)
            ];
          })
    | inr new ↦ rw (new, round) (visit-IsClosed t f rest e inv)
  ]

  pub round-Grows :
      (t : Traversal) (f : ℕ) (rest : List ℕ)
      → t.queue ≡ f ∷ rest
      → Grows t (round next calls keep f (record t { queue = rest }))
  unfolding round visit
  round-Grows t f rest e = elim (Bool-cases (has f t.visited)) [
    | inl old ↦
        rw (old, round)
          (record {
            seen = λ g v. elim (eq-cases f g) [
              | inl s ↦ ground (arith, old, ap (λ k. has k t.visited) s)
              | inr ne ↦ ground (arith, ap (has g) e)
            ];
            kept = λ g k. k;
            still = λ p k. k;
          })
    | inr new ↦
        rw (new, round)
          (record {
            seen = λ g v.
                ground
                  (arith, ap (has g) e, push_unvisited_keeps next (f ∷ t.visited) (calls f) rest g);
            kept = λ g k. ground (arith, has-insert g f t.final_set);
            still = λ p k. ground (arith, mark_relevant-has (calls f) t.is_relevant p);
          })
  ]

  pub Grows-trans : {r s t : Traversal} → Grows r s → Grows s t → Grows r t
  Grows-trans a b = record {
    seen = λ f h. b.seen f (a.seen f h);
    kept = λ f h. b.kept f (a.kept f h);
    still = λ p h. b.still p (a.still p h);
  }

  -- After the loop the queue is empty, so what was queued is visited.
  pub traverse-IsClosed :
      (fuel : ℕ) (t u : Traversal)
      → IsClosed t
      → traverse next calls keep fuel t ≡ some u
      → IsClosed u × Grows t u × (u.queue ≡ [])
  traverse-IsClosed fuel t u inv h =
      let ((closed, grows), empty) =
        loop_rule next calls keep (λ s. IsClosed s × Grows t s)
          (λ s f rest e (c, g).
            (round-IsClosed s f rest e c, Grows-trans g (round-Grows s f rest e)))
          fuel t u (inv, record { seen = λ f k. k; kept = λ f k. k; still = λ p k. k }) h in
      (closed, grows, empty)
