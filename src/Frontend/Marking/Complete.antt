-- ===== src/Frontend/Marking/Complete.antt =====
-- Every function above a call of a heap function is visited by MarkOnlyRelevantFunctions.
use semalloc.Common.{
  ℕ, ◌≡◌, refl, ◌∙◌, subst, Bool, true, some, List, [], ◌∷◌, map, arith, inl, inr, ap, has, insert,
  has-insert, Bool-cases, Option-cases, eq-cases, ◌⊎◌,
}
use semalloc.Frontend.Graph.{Paths, Calls}
use semalloc.Frontend.Traverse.{Traversal, mark_relevant}
use semalloc.Frontend.Traverse.Sound.{self, onward}
use semalloc.Frontend.Traverse.Closed.{
  IsClosed, Grows, Grows-trans, mark_relevant-has, traverse-IsClosed,
}
use semalloc.Frontend.Marking.{mark_parents, mark_entry, mark_entries}
use semalloc.Frontend.Marking.Relevant.{made_by, Above, has-map}

module _ (paths : Paths) (function_map : Calls) (fuel : ℕ) where
  abbrev next : ℕ → ℕ
  next = made_by paths

  abbrev Closed : Traversal → Type 0
  Closed = IsClosed next function_map (λ _. true)

  abbrev Before : Traversal → Traversal → Type 0
  Before = Grows next function_map (λ _. true)

  -- The calls of a function are relevant, and their callers are visited.
  pub record IsExpanded (u : Traversal) (e : ℕ) : Type 0 where
    pub seen : (p : ℕ) → has p (function_map e) ≡ true → has (next p) u.visited ≡ true
    pub relevant : (p : ℕ) → has p (function_map e) ≡ true → u.is_relevant p ≡ true

  -- Between two entries the queue is empty.
  pub record IsSettled (s u : Traversal) : Type 0 where
    pub closed : Closed u
    pub grows : Before s u
    pub empty : u.queue ≡ []

  visited_kept :
      (s u : Traversal) → IsSettled s u → (f : ℕ) → has f s.visited ≡ true → has f u.visited ≡ true
  visited_kept s u h f v = ground (arith, h.grows.seen f (ground (arith, v)), ap (has f) h.empty)

  IsExpanded-kept : (s u : Traversal) (e : ℕ) → IsSettled s u → IsExpanded s e → IsExpanded u e
  IsExpanded-kept s u e h x = record {
    seen = λ p c. visited_kept s u h (next p) (x.seen p c);
    relevant = λ p c. h.grows.still p (x.relevant p c);
  }

  IsSettled-refl : (t : Traversal) → Closed t → t.queue ≡ [] → IsSettled t t
  IsSettled-refl t closed empty = record {
    closed = closed;
    grows = record { seen = λ f k. k; kept = λ f k. k; still = λ p k. k };
    empty = empty;
  }

  IsSettled-trans : (r s u : Traversal) → IsSettled r s → IsSettled s u → IsSettled r u
  IsSettled-trans r s u a b = record {
    closed = b.closed;
    grows = Grows-trans next function_map (λ _. true) a.grows b.grows;
    empty = b.empty;
  }

  mark_parents-IsSettled :
      (e : ℕ) (t u : Traversal)
      → Closed t
      → t.queue ≡ []
      → mark_parents paths function_map fuel e t ≡ some u
      → IsSettled t u × IsExpanded u e
  unfolding mark_parents
  mark_parents-IsSettled e t u closed empty h =
      let relevant = mark_relevant-has (function_map e) t.is_relevant in
      let start = record t {
        is_relevant = mark_relevant (function_map e) t.is_relevant;
        queue = map next (function_map e);
      } in
      let (closed', grows, empty') =
        traverse-IsClosed next function_map (λ _. true) fuel start u
          (record {
            marked = closed.marked;
            relevant = λ f p v c. ground (arith, relevant p, closed.relevant f p);
            closed = λ f p v c. ground (arith, closed.closed f p, ap (has (next p)) empty);
          })
          h in
      (
        record {
          closed = closed';
          grows = record {
            seen = λ f v. grows.seen f (ground (arith, v, ap (has f) empty));
            kept = grows.kept;
            still = λ p r. grows.still p (ground (arith, relevant p));
          };
          empty = empty';
        },
        record {
          seen = λ p c. ground (
            arith,
            grows.seen (next p),
            has-map next (function_map e) p c,
            ap (has (next p)) empty',
          );
          relevant = λ p c. grows.still p (ground (arith, relevant p));
        },
      )

  IsSettled-insert :
      (f : ℕ) (t : Traversal)
      → Closed t
      → t.queue ≡ []
      → IsSettled t (record t { final_set = insert f t.final_set })
  IsSettled-insert f t closed empty = record {
    closed = record {
      marked = λ g v k. ground (arith, has-insert g f t.final_set, closed.marked g v);
      relevant = closed.relevant;
      closed = closed.closed;
    };
    grows = record {
      seen = λ g v. v;
      kept = λ g k. ground (arith, has-insert g f t.final_set);
      still = λ p r. r;
    };
    empty = empty;
  }

  mark_entry-IsSettled :
      (hmf : ℕ → Bool) (e : ℕ) (ps : List ℕ) (t u : Traversal)
      → Closed t
      → t.queue ≡ []
      → mark_entry paths function_map fuel hmf e ps t ≡ some u
      → IsSettled t u × ((p : ℕ) → has p ps ≡ true → hmf p ≡ true → IsExpanded u e)
  unfolding mark_entry
  mark_entry-IsSettled hmf e [] t u closed empty h =
      let same : t ≡ u = ground arith in
      (subst (λ v. IsSettled t v) same (IsSettled-refl t closed empty), λ p c y. cc)
  mark_entry-IsSettled hmf e (p ∷ ps) t u closed empty h = elim (Bool-cases (hmf p)) [
    | inr not_heap ↦
        let (settled, expanded) =
          mark_entry-IsSettled hmf e ps t u closed empty (rw (not_heap, mark_entry) at h) in
        (settled, λ q c y. expanded q (ground (arith, not_heap, y, ap hmf)) y)
    | inl heap ↦
        let v = record t { final_set = insert (paths p).callee t.final_set } in
        let first = IsSettled-insert (paths p).callee t closed empty in
        elim (Bool-cases (has e t.visited)) [
          | inl old ↦
              let returned : some v ≡ some u = rw (heap, old, mark_entry) at h in
              let same : v ≡ u = ground arith in
              (
                subst (λ w. IsSettled t w) same first,
                λ q c y.
                    subst (λ w. IsExpanded w e) same
                      (record {
                        seen = λ k c'.
                            ground (arith, closed.closed e k old c', ap (has (next k)) empty);
                        relevant = λ k c'. closed.relevant e k old c';
                      }),
              )
          | inr new ↦ elim (Option-cases (mark_parents paths function_map fuel e v)) [
            | inl stuck ↦ absurd (ground (arith, (rw (heap, new, stuck, mark_entry) at h)))
            | inr (w, r) ↦
                let (second, expanded) = mark_parents-IsSettled e v w first.closed first.empty r in
                let (third, _) =
                  mark_entry-IsSettled hmf e ps w u second.closed second.empty
                    (rw (heap, new, r, mark_entry) at h) in
                (
                  IsSettled-trans t v u first (IsSettled-trans v w u second third),
                  λ q c y. IsExpanded-kept w u e third expanded,
                )
          ]
        ]
  ]

  -- After all entries, each one with a call of a heap function is expanded.
  pub mark_entries-IsSettled :
      (flipped : Calls) (hmf : ℕ → Bool) (es : List ℕ) (t u : Traversal)
      → Closed t
      → t.queue ≡ []
      → mark_entries paths function_map fuel flipped hmf es t ≡ some u
      → IsSettled t u
        × ((e p : ℕ) → has e es ≡ true → has p (flipped e) ≡ true → hmf p ≡ true → IsExpanded u e)
  unfolding mark_entries
  mark_entries-IsSettled flipped hmf [] t u closed empty h =
      let same : t ≡ u = ground arith in
      (subst (λ v. IsSettled t v) same (IsSettled-refl t closed empty), λ e p m c y. cc)
  mark_entries-IsSettled flipped hmf (e ∷ es) t u closed empty h =
      elim (Option-cases (mark_entry paths function_map fuel hmf e (flipped e) t)) [
        | inl stuck ↦ absurd (ground (arith, (rw (stuck, mark_entries) at h)))
        | inr (v, r) ↦
            let (first, expanded) = mark_entry-IsSettled hmf e (flipped e) t v closed empty r in
            let (second, rest) =
              mark_entries-IsSettled flipped hmf es v u first.closed first.empty
                (rw (r, mark_entries) at h) in
            (
              IsSettled-trans t v u first second,
              λ g p m c y. elim (eq-cases e g) [
                | inl s ↦
                    subst (λ k. IsExpanded u k) s
                      (IsExpanded-kept v u e second
                        (expanded p (ap (λ k. has p (flipped k)) s ∙ c) y))
                | inr ne ↦ rest g p (ground arith) c y
              ],
            )
      ]

  -- What is above an expanded function is visited.
  pub Above-visited :
      (u : Traversal) (e : ℕ)
      → Closed u
      → u.queue ≡ []
      → IsExpanded u e
      → {f : ℕ} → Above paths function_map e f
      → (e ≡ f) ⊎ (has f u.visited ≡ true)
  Above-visited u e closed empty x self = inl refl
  Above-visited u e closed empty x (onward {f} p path made) =
      elim (Above-visited u e closed empty x path) [
        | inl same ↦ inr (x.seen p (ap (λ k. has p (function_map k)) same ∙ made))
        | inr v ↦ inr (ground (arith, closed.closed f p v made, ap (has (next p)) empty))
      ]
