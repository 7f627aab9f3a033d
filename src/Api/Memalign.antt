-- ===== src/Api/Memalign.antt =====
-- The header that css_memalign writes for an aligned address inside an object.
use semalloc.Common.{
  ℕ, suc, ◌%◌, ◌^◌, ◌≡◌, ◌≢◌, refl, ◌∙◌, ap, not, update, update_self, update_ne, true, inl, inr,
  ◌==◌, sub64, Bool-cases,
}
use semalloc.Config.{header_size}
use semalloc.Header.{Cell, is_allocation, set_allocation, set_free}
use semalloc.Header.Control.{is_allocation-set_allocation}
use semalloc.Machine.{Memory, Os, exits, Exit}
use semalloc.Machine.Ensures.{Ensures, Ensures-mono}
use semalloc.Manager.{State, MemoryManager, load, store}
use semalloc.Manager.Release.{free_regular_memory}
use semalloc.Manager.Release.DoubleFree.{free_Freed}
use semalloc.Api.{write_aligned_header}

module _ (id addr new_addr : ℕ) (s : State) where
  abbrev old : Cell
  old = s.heap.memory (sub64 addr header_size)

  abbrev new : Cell
  new = s.heap.memory (sub64 new_addr header_size)

  -- The allocation bit of the new header is the opposite of the old one.
  write_aligned_header-flips :
      sub64 addr header_size ≢ sub64 new_addr header_size
      → Ensures
          (λ _ s'.
            (is_allocation (s'.heap.memory (sub64 new_addr header_size)) ≡ not (is_allocation old))
            × (s'.manager ≡ s.manager))
          (write_aligned_header id addr new_addr s)
  unfolding write_aligned_header load store is_allocation
  write_aligned_header-flips apart = elim (Bool-cases (sub64 addr header_size == 0)) [
    | inl e ↦ rw e tt
    | inr e ↦ elim (Bool-cases (sub64 new_addr header_size == 0)) [
      | inl e' ↦ rw (e, e') tt
      | inr e' ↦
          rw (e, e', e', e, e) (after_both ∙ is_allocation-set_allocation written ∙ copied, refl)
    ]
  ]
    where
      written : Cell
      written = record new {
        thread_id = id;
        word = old.word;
        memalign_offset = sub64 new_addr addr % 2 ^ 32;
        control_byte = old.control_byte;
      }

      first : Memory
      first = update s.heap.memory (sub64 new_addr header_size) (set_allocation written)

      after_both :
          is_allocation (
            update first
              (sub64 addr header_size)
              (set_free (first (sub64 addr header_size)))
              (sub64 new_addr header_size))
          ≡ is_allocation (set_allocation written)
      after_both = ap is_allocation (
          update_ne first (sub64 addr header_size) (sub64 new_addr header_size)
            (set_free (first (sub64 addr header_size))) apart
          ∙ update_self s.heap.memory (sub64 new_addr header_size) (set_allocation written))

      copied : not (is_allocation written) ≡ not (is_allocation old)
      copied = refl

-- An allocated object that css_memalign moves to an aligned address inside it cannot be freed: its
-- new header is marked free, and freeing the pointer ends the process as a double free.
pub memalign_free :
    (os : Os) (fuel id addr new_addr : ℕ) (s : State)
    → s.manager.free_list ≡ 0
    → is_allocation (s.heap.memory (sub64 addr header_size)) ≡ true
    → new_addr ≢ 0
    → sub64 new_addr header_size ≢ 0
    → sub64 addr header_size ≢ sub64 new_addr header_size
    → Ensures
        (λ _ s'. free_regular_memory os (suc fuel) new_addr s' ≡ exits Exit.double_free)
        (write_aligned_header id addr new_addr s)
memalign_free os fuel id addr new_addr s empty taken pos pos' apart =
    Ensures-mono _ (λ _ s'. free_regular_memory os (suc fuel) new_addr s' ≡ exits Exit.double_free)
      (write_aligned_header id addr new_addr s)
      (write_aligned_header-flips id addr new_addr s apart)
      λ _ t m.
        free_Freed os fuel new_addr t pos pos'
          (record { listed = ap MemoryManager.free_list m.1 ∙ empty; marked = m.0 ∙ ap not taken })
