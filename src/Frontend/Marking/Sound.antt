-- ===== src/Frontend/Marking/Sound.antt =====
-- MarkOnlyRelevantFunctions marks the callers of the heap functions and what is above them, and
-- nothing else but the heap functions themselves.
use semalloc.Common.{
  ℕ, ◌+◌, ◌≤◌, ◌≡◌, refl, sym, ◌∙◌, subst, true, ◌||◌, some, List, [], ◌∷◌, arith, inl, inr, ap,
  has, insert, has-insert, Bool-cases, Option-cases, eq-cases,
}
use semalloc.Frontend.Graph.{Paths, Calls}
use semalloc.Frontend.Traverse.{Traversal}
use semalloc.Frontend.Traverse.Ends.{total, IsDomain}
use semalloc.Frontend.Traverse.Sound.{self, onward}
use semalloc.Frontend.Traverse.Sound.{traverse-IsSound}
use semalloc.Frontend.Marking.{
  Marks, mark_parents, mark_entry, mark_entries, insert_all, mark_only_relevant_functions,
}
use semalloc.Frontend.Marking.Relevant.{
  made_by, Above, HeapCall, Allowed, map-has, has-insert_all, mark_entries_total,
}
use semalloc.Frontend.Marking.Complete.{mark_entries-IsSettled, Above-visited}

module _ (paths : Paths) (function_map flipped : Calls) (fuel : ℕ) (m : Marks) where
  abbrev Marked : ℕ → Type 0
  Marked = Allowed paths function_map flipped m

  AllMarked : Traversal → Type 0
  AllMarked t = (f : ℕ) → has f t.final_set ≡ true → Marked f

  AllMarked-insert :
      (f : ℕ) (t : Traversal)
      → Marked f
      → AllMarked t
      → AllMarked (record t { final_set = insert f t.final_set })
  unfolding AllMarked
  AllMarked-insert f t ok old g h = elim (eq-cases f g) [
    | inl same ↦ subst Marked same ok
    | inr ne ↦ old g (ground (arith, has-insert g f t.final_set))
  ]

  mark_parents-AllMarked :
      (e p : ℕ) (t u : Traversal)
      → HeapCall flipped m e p
      → AllMarked t
      → mark_parents paths function_map fuel e t ≡ some u
      → AllMarked u
  unfolding mark_parents AllMarked
  mark_parents-AllMarked e p t u call old h =
      (traverse-IsSound (made_by paths) function_map (λ _. true) (Above paths function_map e)
        (λ f q path made. onward q path made) Marked (λ f path _. inr (inr (e, p, call, path))) fuel
        _ u
        (record {
          queued = λ f here.
              let (q, made, same) = map-has (made_by paths) (function_map e) f here in
              subst (Above paths function_map e) same (onward q self made);
          final = old;
        })
        h).final

  mark_entry-AllMarked :
      (e : ℕ) (ps : List ℕ) (t u : Traversal)
      → has e m.function_mark_set ≡ true
      → ((p : ℕ) → has p ps ≡ true → has p (flipped e) ≡ true)
      → AllMarked t
      → mark_entry paths function_map fuel m.calls_hmf e ps t ≡ some u
      → AllMarked u
  unfolding mark_entry
  mark_entry-AllMarked e [] t u marked own old h = subst AllMarked (ground arith) old
  mark_entry-AllMarked e (p ∷ ps) t u marked own old h = elim (Bool-cases (m.calls_hmf p)) [
    | inr not_heap ↦
        mark_entry-AllMarked e ps t u marked (λ q c. own q (ground arith)) old
          (rw (not_heap, mark_entry) at h)
    | inl heap ↦
        let v = record t { final_set = insert (paths p).callee t.final_set } in
        let call : HeapCall flipped m e p = record {
          marked = marked;
          made = own p (ground arith);
          heap = heap;
        } in
        let first = AllMarked-insert (paths p).callee t (inr (inl (e, p, call, refl))) old in
        elim (Bool-cases (has e t.visited)) [
          | inl seen ↦
              let returned : some v ≡ some u = rw (heap, seen, mark_entry) at h in
              let same : v ≡ u = ground arith in subst AllMarked same first
          | inr new ↦ elim (Option-cases (mark_parents paths function_map fuel e v)) [
            | inl stuck ↦ absurd (ground (arith, (rw (heap, new, stuck, mark_entry) at h)))
            | inr (w, r) ↦
                mark_entry-AllMarked e ps w u marked (λ q c. own q (ground arith))
                  (mark_parents-AllMarked e p v w call first r) (rw (heap, new, r, mark_entry) at h)
          ]
        ]
  ]

  mark_entries-AllMarked :
      (es : List ℕ) (t u : Traversal)
      → ((e : ℕ) → has e es ≡ true → has e m.function_mark_set ≡ true)
      → AllMarked t
      → mark_entries paths function_map fuel flipped m.calls_hmf es t ≡ some u
      → AllMarked u
  unfolding mark_entries
  mark_entries-AllMarked [] t u marked old h = subst AllMarked (ground arith) old
  mark_entries-AllMarked (e ∷ es) t u marked old h =
      elim (Option-cases (mark_entry paths function_map fuel m.calls_hmf e (flipped e) t)) [
        | inl stuck ↦ absurd (ground (arith, (rw (stuck, mark_entries) at h)))
        | inr (v, r) ↦
            mark_entries-AllMarked es v u (λ g c. marked g (ground arith))
              (mark_entry-AllMarked e (flipped e) t v (marked e (ground arith)) (λ p c. c) old r)
              (rw (r, mark_entries) at h)
      ]

module _ (paths : Paths) (function_map flipped : Calls) (fs : List ℕ) (fuel : ℕ) (m : Marks) where
  -- What MarkOnlyRelevantFunctions leaves behind.
  pub record IsMarked (m' : Marks) : Type 0 where
    pub sound : (f : ℕ) → has f m'.function_mark_set ≡ true → Allowed paths function_map flipped m f
    pub complete :
        (e p f : ℕ)
        → HeapCall flipped m e p
        → Above paths function_map e f
        → has f m'.function_mark_set ≡ true
    pub relevant :
        (e p f q : ℕ)
        → HeapCall flipped m e p
        → Above paths function_map e f
        → has q (function_map f) ≡ true
        → m'.is_relevant q ≡ true

  -- Let every function with calls be one of `fs`, and the fuel twice the number of their calls. Then
  -- MarkOnlyRelevantFunctions returns. Each marked function was marked before, is a heap function that
  -- a marked function calls, or leads by calls to a marked function that calls a heap function; all of
  -- the last kind are marked, and so is each call to one of them.
  pub mark_only_relevant_functions-IsMarked :
      IsDomain function_map fs
      → total function_map fs + total function_map fs ≤ fuel
      → (m' : Marks) × (mark_only_relevant_functions paths function_map fuel flipped m ≡ some m')
        × IsMarked m'
  unfolding mark_only_relevant_functions AllMarked
  mark_only_relevant_functions-IsMarked dom enough =
      let start : Traversal = record {
        visited = [];
        final_set = m.function_mark_set;
        is_relevant = m.is_relevant;
        queue = [];
      } in
      let (u, returns) =
        mark_entries_total paths function_map flipped fs dom fuel enough m.calls_hmf
          m.function_mark_set start in
      let (settled, expanded) =
        mark_entries-IsSettled paths function_map fuel flipped m.calls_hmf m.function_mark_set start
          u (record { marked = λ f v k. cc; relevant = λ f p v c. cc; closed = λ f p v c. cc }) refl
          returns in
      let all =
        mark_entries-AllMarked paths function_map flipped fuel m m.function_mark_set start u
          (λ e c. c) (λ f c. inl c) returns in
      let members = has-insert_all u.final_set m.function_mark_set in
      let found =
        λ (e p f : ℕ) (call : HeapCall flipped m e p) (path : Above paths function_map e f).
          Above-visited paths function_map fuel u e settled.closed settled.empty
            (expanded e p call.marked call.made call.heap) path in
      (
        record m {
          function_mark_set = insert_all u.final_set m.function_mark_set;
          is_relevant = u.is_relevant;
        },
        rw (returns, mark_only_relevant_functions) refl,
        record {
          sound = λ f h. elim (Bool-cases (has f m.function_mark_set)) [
            | inl old ↦ inl old
            | inr new ↦ all f (ground (arith, members f, h, new))
          ];
          complete = λ e p f call path. elim (found e p f call path) [
            | inl same ↦
                members f
                ∙ ap (λ k. has f u.final_set || has k m.function_mark_set) (sym same)
                ∙ ground (arith, call.marked)
            | inr v ↦ ground (arith, members f, settled.closed.marked f v refl)
          ];
          relevant = λ e p f q call path made. elim (found e p f call path) [
            | inl same ↦
                (expanded e p call.marked call.made call.heap).relevant q
                  (ap (λ k. has q (function_map k)) same ∙ made)
            | inr v ↦ settled.closed.relevant f q v made
          ];
        },
      )
