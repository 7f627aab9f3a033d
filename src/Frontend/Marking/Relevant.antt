-- ===== src/Frontend/Marking/Relevant.antt =====
-- MarkOnlyRelevantFunctions returns, and marks the functions from which a call of a heap function is
-- reached.
use semalloc.Common.{
  suc, ℕ, ◌+◌, ◌≤◌, ◌≡◌, refl, Bool, true, ◌||◌, some, List, [], ◌∷◌, map, arith, inl, inr, ap, has,
  insert, has-insert, length, Bool-cases, eq-cases, ◌⊎◌,
}
use semalloc.Frontend.Graph.{Paths, Calls}
use semalloc.Frontend.Traverse.{Traversal}
use semalloc.Frontend.Traverse.Ends.{total, IsDomain, traverse_returns}
use semalloc.Frontend.Traverse.Sound.{Walk}
use semalloc.Frontend.Marking.{Marks, mark_parents, mark_entry, mark_entries, insert_all}

abbrev pub made_by : Paths → ℕ → ℕ
made_by paths p = (paths p).caller

-- The functions from which calls lead to a function, itself included.
abbrev pub Above : Paths → Calls → ℕ → ℕ → Type 0
Above paths = Walk (made_by paths)

-- A marked function makes a call of a heap function.
pub record HeapCall (flipped : Calls) (m : Marks) (e p : ℕ) : Type 0 where
  pub marked : has e m.function_mark_set ≡ true
  pub made : has p (flipped e) ≡ true
  pub heap : m.calls_hmf p ≡ true

-- Marked before, a heap function that is called, or a function above a call of a heap function.
abbrev pub Allowed : Paths → (function_map flipped : Calls) → Marks → ℕ → Type 0
Allowed paths function_map flipped m f =
    (has f m.function_mark_set ≡ true)
    ⊎ ((e p : ℕ) × HeapCall flipped m e p × ((paths p).callee ≡ f))
    ⊎ ((e p : ℕ) × HeapCall flipped m e p × Above paths function_map e f)

length-map : (next : ℕ → ℕ) (ps : List ℕ) → length (map next ps) ≡ length ps
length-map next [] = refl
length-map next (p ∷ ps) = ap suc (length-map next ps)

pub has-map :
    (next : ℕ → ℕ) (ps : List ℕ) (p : ℕ) → has p ps ≡ true → has (next p) (map next ps) ≡ true
has-map next [] p h = cc
has-map next (q ∷ qs) p h = elim (eq-cases q p) [
  | inl e ↦ ground (arith, ap next e)
  | inr ne ↦ ground (arith, has-map next qs p)
]

pub map-has :
    (next : ℕ → ℕ) (ps : List ℕ) (f : ℕ)
    → has f (map next ps) ≡ true
    → (p : ℕ) × (has p ps ≡ true) × (next p ≡ f)
map-has next [] f h = cc
map-has next (q ∷ qs) f h = elim (eq-cases (next q) f) [
  | inl e ↦ (q, ground arith, e)
  | inr ne ↦ let (p, here, e) = map-has next qs f (ground arith) in (p, ground (arith, here), e)
]

pub length-total :
    (calls : Calls) (fs : List ℕ) (f : ℕ) → IsDomain calls fs → length (calls f) ≤ total calls fs
length-total calls fs f dom = elim (Bool-cases (has f fs)) [
  | inl here ↦ member fs here
  | inr out ↦ omega (arith, ap length (dom f out))
]
  where
    member : (gs : List ℕ) → has f gs ≡ true → length (calls f) ≤ total calls gs
    member [] h = cc
    member (g ∷ gs) h = elim (eq-cases g f) [
      | inl e ↦ omega (arith, ap (λ k. length (calls k)) e)
      | inr ne ↦ omega (arith, member gs (ground arith))
    ]

pub has-insert_all : (fs set : List ℕ) (f : ℕ) → has f (insert_all fs set) ≡ (has f fs || has f set)
unfolding insert_all
has-insert_all [] set f = refl
has-insert_all (g ∷ gs) set f =
    ground (arith, has-insert_all gs (insert g set) f, has-insert f g set)

module _ (paths : Paths) (function_map flipped : Calls) (fs : List ℕ)
    (dom : IsDomain function_map fs) (fuel : ℕ)
    (enough : total function_map fs + total function_map fs ≤ fuel) where
  mark_parents_total :
      (e : ℕ) (t : Traversal)
      → (u : Traversal) × (mark_parents paths function_map fuel e t ≡ some u)
  unfolding mark_parents
  mark_parents_total e t =
      traverse_returns (made_by paths) function_map (λ _. true) fs dom fuel _
        (omega
          (arith, length-map (made_by paths) (function_map e), length-total function_map fs e dom))

  mark_entry_total :
      (hmf : ℕ → Bool) (e : ℕ) (ps : List ℕ) (t : Traversal)
      → (u : Traversal) × (mark_entry paths function_map fuel hmf e ps t ≡ some u)
  unfolding mark_entry
  mark_entry_total hmf e [] t = (t, refl)
  mark_entry_total hmf e (p ∷ ps) t = elim (Bool-cases (hmf p)) [
    | inr not_heap ↦ let (u, r) = mark_entry_total hmf e ps t in (u, rw (not_heap, mark_entry) r)
    | inl heap ↦ elim (Bool-cases (has e t.visited)) [
      | inl old ↦ (
        record t { final_set = insert (paths p).callee t.final_set },
        rw (heap, old, mark_entry) refl,
      )
      | inr new ↦
          let (v, r) =
            mark_parents_total e (record t { final_set = insert (paths p).callee t.final_set }) in
          let (u, s) = mark_entry_total hmf e ps v in (u, rw (heap, new, r, mark_entry) s)
    ]
  ]

  pub mark_entries_total :
      (hmf : ℕ → Bool) (es : List ℕ) (t : Traversal)
      → (u : Traversal) × (mark_entries paths function_map fuel flipped hmf es t ≡ some u)
  unfolding mark_entries
  mark_entries_total hmf [] t = (t, refl)
  mark_entries_total hmf (e ∷ es) t =
      let (v, r) = mark_entry_total hmf e (flipped e) t in
      let (u, s) = mark_entries_total hmf es v in (u, rw (r, mark_entries) s)
