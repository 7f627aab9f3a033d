-- ===== src/Manager/Release/DoubleFree.antt =====
-- What freeing leaves behind, and how the second free of a pointer ends.
use semalloc.Common.{
  ℕ, zero, suc, ◌≡◌, ◌≢◌, refl, ◌∙◌, ap, update, update_self, ==_iff, Bool, true, false, arith, inl,
  inr, ◌==◌, ==_ne, sub64, Bool-cases,
}
use semalloc.Config.{header_size}
use semalloc.Header.{is_allocation, is_regular, set_free}
use semalloc.Header.Control.{is_allocation-set_free}
use semalloc.Machine.{Os, exits, Exit, exit, ◌>>◌}
use semalloc.Machine.Ensures.{Ensures, Ensures-bind, Ensures-last, Ensures-if, Ensures-mono}
use semalloc.Manager.{State, MemoryManager, load, store, load_bibop, store_bibop}
use semalloc.Manager.Release.{
  mark_free, free_by_kind, madvise, handle_free_list, free_regular_memory, release_listed,
  set_free_list,
}

mark_free-mark :
    (p : ℕ) (s : State)
    → Ensures
        (λ _ s'. (is_allocation (s'.heap.memory p) ≡ false) × (s'.manager ≡ s.manager))
        (mark_free p s)
unfolding mark_free load store
mark_free-mark p s = elim (Bool-cases (p == 0)) [
  | inl e ↦ rw e tt
  | inr e ↦ rw (e, e) (marked, refl)
]
  where
    marked : is_allocation (update s.heap.memory p (set_free (s.heap.memory p)) p) ≡ false
    marked =
        ap is_allocation (update_self s.heap.memory p (set_free (s.heap.memory p)))
        ∙ is_allocation-set_free (s.heap.memory p)

load-same : (p : ℕ) (s : State) → Ensures (λ _ s'. s' ≡ s) (load p s)
unfolding load
load-same p s = ground arith

-- Freeing an object changes nothing of the manager itself.
free_by_kind-manager :
    (os : Os) (r : Bool) (b p : ℕ) (s : State)
    → Ensures (λ _ s'. s'.manager ≡ s.manager) (free_by_kind os r b p s)
unfolding free_by_kind load load_bibop store_bibop madvise
free_by_kind-manager os r b p s = ground arith

handle_free_list-empty :
    (os : Os) (fuel : ℕ) (s : State)
    → Ensures (λ _ s'. s'.manager.free_list ≡ 0) (handle_free_list os fuel s)
unfolding handle_free_list
handle_free_list-empty os zero s = tt
handle_free_list-empty os (suc fuel) s = elim (Bool-cases (s.manager.free_list == 0)) [
  | inl e ↦ rw e ((==_iff _ 0).0 e)
  | inr e ↦ rw e (
      Ensures-last Empty (load s.manager.free_list s) _ λ c t.
        Ensures-last Empty (set_free_list c.word t) _ λ _ u.
          Ensures-last Empty (release_listed os s.manager.free_list u) _
            λ _ v. handle_free_list-empty os fuel v)
]
  where
    Empty : Unit {0} → State → Type 0
    Empty _ s' = s'.manager.free_list ≡ 0

-- What is left of a pointer that was freed: nothing waits on the list, and its header is marked free.
pub record Freed (p : ℕ) (s : State) : Type 0 where
  pub listed : s.manager.free_list ≡ 0
  pub marked : is_allocation (s.heap.memory (sub64 p header_size)) ≡ false

free_regular-Freed :
    (os : Os) (fuel p : ℕ) (s : State)
    → p ≢ 0
    → Ensures (λ _. Freed p) (free_regular_memory os fuel p s)
unfolding free_regular_memory
free_regular-Freed os fuel p s ne =
    Ensures-bind (λ _ t. t.manager.free_list ≡ 0) (λ _. Freed p) (handle_free_list os fuel s) _
      (handle_free_list-empty os fuel s)
      λ _ t empty. rw (==_ne p 0 ne) (
        Ensures-bind (λ _ u. u ≡ t) (λ _. Freed p) (load header t) _ (load-same header t)
          λ h u same.
            Ensures-if (λ _. Freed p) (is_allocation h)
              (free_by_kind os (is_regular h) h.word (sub64 header h.memalign_offset)
                >> mark_free header)
              (exit Exit.double_free) u
              (λ _.
                Ensures-bind (λ _ v. v.manager ≡ u.manager) (λ _. Freed p)
                  (free_by_kind os (is_regular h) h.word (sub64 header h.memalign_offset) u) _
                  (free_by_kind-manager os (is_regular h) h.word (sub64 header h.memalign_offset) u)
                  λ _ v kept.
                    Ensures-mono _ (λ _. Freed p) (mark_free header v) (mark_free-mark header v)
                      λ _ w m. record {
                        listed =
                            ap MemoryManager.free_list (m.1 ∙ kept ∙ ap State.manager same) ∙ empty;
                        marked = m.0;
                      })
              (λ _. tt))
  where
    header : ℕ
    header = sub64 p header_size

-- The header says that the object is free: freeing it ends the process.
pub free_Freed :
    (os : Os) (fuel p : ℕ) (s : State)
    → p ≢ 0
    → sub64 p header_size ≢ 0
    → Freed p s
    → free_regular_memory os (suc fuel) p s ≡ exits Exit.double_free
unfolding free_regular_memory
free_Freed os fuel p s ne ne' f =
    let e : (s.manager.free_list == 0) ≡ true = ground (arith, f.listed) in
    rw (e, ==_ne p 0 ne, ==_ne (sub64 p header_size) 0 ne', f.marked)

-- Whenever freeing a regular pointer succeeds, in any state, freeing it again at once ends the
-- process with the message about a double free.
pub free_twice :
    (os : Os) (fuel fuel' p : ℕ) (s : State)
    → p ≢ 0
    → sub64 p header_size ≢ 0
    → Ensures
        (λ _ s'. free_regular_memory os (suc fuel') p s' ≡ exits Exit.double_free)
        (free_regular_memory os fuel p s)
free_twice os fuel fuel' p s ne ne' =
    Ensures-mono (λ _. Freed p)
      (λ _ s'. free_regular_memory os (suc fuel') p s' ≡ exits Exit.double_free)
      (free_regular_memory os fuel p s) (free_regular-Freed os fuel p s ne)
      λ _ t f. free_Freed os fuel' p t ne ne' f
