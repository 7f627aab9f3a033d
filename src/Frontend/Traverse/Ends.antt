-- ===== src/Frontend/Traverse/Ends.antt =====
-- The while loop ends: the fuel that its callers give is enough.
use semalloc.Common.{
  ℕ, zero, suc, ◌+◌, ◌≤◌, ◌≡◌, refl, Bool, true, false, some, List, [], ◌∷◌, arith, inl, inr,
  length, has, if◌then◌else◌, Bool-cases, eq-cases, List-cases, ap,
}
use semalloc.Frontend.Graph.{Calls, push_back}
use semalloc.Frontend.Traverse.{Traversal, push_unvisited, visit, round, traverse}

pub length-push_back : (ps : List ℕ) (p : ℕ) → length (push_back ps p) ≡ suc (length ps)
length-push_back [] p = refl
length-push_back (q ∷ qs) p = ap suc (length-push_back qs p)

length-push_unvisited :
    (next : ℕ → ℕ) (visited ps queue : List ℕ)
    → length (push_unvisited next visited ps queue) ≤ length queue + length ps
unfolding push_unvisited
length-push_unvisited next visited [] queue = omega arith
length-push_unvisited next visited (p ∷ ps) queue = ground (
  arith,
  length-push_unvisited next visited ps queue,
  length-push_unvisited next visited ps (push_back queue (next p)),
  length-push_back queue (next p),
)

-- The calls of all functions in a list.
abbrev pub total : Calls → List ℕ → ℕ
total calls [] = 0
total calls (f ∷ fs) = length (calls f) + total calls fs

-- The calls of the functions that are not visited yet.
abbrev pub unseen : Calls → List ℕ → List ℕ → ℕ
unseen calls visited [] = 0
unseen calls visited (f ∷ fs) =
    (if has f visited then 0 else length (calls f)) + unseen calls visited fs

-- The functions of a list are all that have calls.
abbrev pub IsDomain : Calls → List ℕ → Type 0
IsDomain calls fs = (f : ℕ) → has f fs ≡ false → calls f ≡ []

module _ (calls : Calls) where
  pub unseen-le : (visited fs : List ℕ) → unseen calls visited fs ≤ total calls fs
  unseen-le visited [] = omega arith
  unseen-le visited (f ∷ fs) = ground (arith, unseen-le visited fs)

  unseen_mono :
      (f : ℕ) (visited fs : List ℕ) → unseen calls (f ∷ visited) fs ≤ unseen calls visited fs
  unseen_mono f visited [] = omega arith
  unseen_mono f visited (g ∷ gs) = ground (arith, unseen_mono f visited gs)

  unseen_visit :
      (f : ℕ) (visited fs : List ℕ)
      → has f visited ≡ false
      → has f fs ≡ true
      → unseen calls (f ∷ visited) fs + length (calls f) ≤ unseen calls visited fs
  unseen_visit f visited [] new here = cc
  unseen_visit f visited (g ∷ gs) new here = elim (eq-cases g f) [
    | inl e ↦ ground (
      arith,
      unseen_mono f visited gs,
      new,
      ap (λ k. has k visited) e,
      ap (λ k. length (calls k)) e,
    )
    | inr ne ↦ ground (arith, unseen_visit f visited gs)
  ]

module _ (next : ℕ → ℕ) (calls : Calls) (keep : ℕ → Bool) (fs : List ℕ)
    (dom : IsDomain calls fs) where
  pub unseen-visit :
      (f : ℕ) (visited : List ℕ)
      → has f visited ≡ false
      → unseen calls (f ∷ visited) fs + length (calls f) ≤ unseen calls visited fs
  unseen-visit f visited new = elim (Bool-cases (has f fs)) [
    | inl here ↦ unseen_visit calls f visited fs new here
    | inr out ↦ omega (arith, unseen_mono calls f visited fs, ap length (dom f out))
  ]

  abbrev work : Traversal → ℕ
  work t = unseen calls t.visited fs + length t.queue

  work-round :
      (f : ℕ) (rest : List ℕ) (t : Traversal)
      → t.queue ≡ f ∷ rest
      → suc (work (round next calls keep f (record t { queue = rest }))) ≤ work t
  unfolding round visit
  work-round f rest t e = elim (Bool-cases (has f t.visited)) [
    | inl old ↦ ground (arith, old, ap length e)
    | inr new ↦ ground (
      arith,
      new,
      ap length e,
      unseen-visit f t.visited new,
      length-push_unvisited next (f ∷ t.visited) (calls f) rest,
    )
  ]

  traverse_ends :
      (fuel : ℕ) (t : Traversal)
      → work t ≤ fuel
      → (u : Traversal) × (traverse next calls keep fuel t ≡ some u)
  unfolding traverse
  traverse_ends zero t h = elim (List-cases t.queue) [
    | inl empty ↦ (t, simp (empty, traverse))
    | inr (f, rest, e) ↦ absurd (omega (arith, ap length e))
  ]
  traverse_ends (suc fuel) t h = elim (List-cases t.queue) [
    | inl empty ↦ (t, simp (empty, traverse))
    | inr (f, rest, e) ↦
        let (u, ends) =
          traverse_ends fuel (round next calls keep f (record t { queue = rest }))
            (omega (arith, work-round f rest t e)) in
        (u, rw (e, traverse) ends)
  ]

  -- The fuel is the length of the queue and the number of calls in the graph.
  pub traverse_returns :
      (fuel : ℕ) (t : Traversal)
      → length t.queue + total calls fs ≤ fuel
      → (u : Traversal) × (traverse next calls keep fuel t ≡ some u)
  traverse_returns fuel t h = traverse_ends fuel t (omega (arith, unseen-le calls t.visited fs))
