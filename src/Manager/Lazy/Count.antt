-- ===== src/Manager/Lazy/Count.antt =====
-- The table of tryPutToLazyPool as a map from sites to the times that they were seen, up to two.
use mathlib.Core.Option
use semalloc.Common.{
  ℕ, ◌+◌, ◌%◌, ◌<◌, ◌≡◌, ◌⊎◌, sym, ◌∙◌, ◌≢◌, Bool, true, false, Option, none, some, arith, inl, inr,
  ltb, ◌==◌, if◌then◌else◌, update, Bool-cases, Option-cases,
}
use semalloc.Config.{hash, lazy_n, lazy_occur}
use semalloc.Probe.{
  find, IsTable, probe_round, probe-map, find_stop, find_own, find_other, store-IsTable,
}
use semalloc.Manager.Lazy.{LazyTable, lazy_round, put_lazy}

abbrev pub keys : LazyTable → ℕ → ℕ
keys t j = (t j).csi

abbrev pub slot_of : LazyTable → ℕ → Option ℕ
slot_of t = find 0 lazy_n hash (keys t)

-- How often the table has seen the site.
unfoldable pub seen : LazyTable → ℕ → ℕ
seen t c = elim (slot_of t c) [
  | none ↦ 0
  | some j ↦ if (t j).csi == c then (t j).occur_count else 0
]

abbrev pub IsLazy : LazyTable → Type 0
IsLazy t = IsTable 0 lazy_n hash (keys t)

-- What the code does at the slot where the probe stops.
unfoldable pub act : LazyTable → ℕ → ℕ → Bool × LazyTable
act t c j =
    if (t j).csi == c
    then (if ltb (t j).occur_count lazy_occur
        then (true, update t j (record (t j) { occur_count = (t j).occur_count + 1 }))
        else (false, t))
    else (true, update t j (record { csi = c; occur_count = 1 }))

pub round-act :
    (t : LazyTable) (c i : ℕ)
    → lazy_round t c i ≡ Option.map (act t c) (probe_round 0 lazy_n (hash c) c (keys t) i)
unfolding lazy_round probe_round act
round-act t c i =
    let j = (i + hash c) % lazy_n in
    elim (Bool-cases ((t j).csi == c)) [
      | inl own ↦ elim (Bool-cases (ltb (t j).occur_count lazy_occur)) [
        | inl few ↦ rw (own, few, own)
        | inr many ↦ rw (own, many, own)
      ]
      | inr other ↦ elim (Bool-cases ((t j).csi == 0)) [
        | inl vacant ↦ rw (other, vacant, other)
        | inr full ↦ rw (other, full)
      ]
    ]

pub put-act : (t : LazyTable) (c : ℕ) → put_lazy t c ≡ Option.map (act t c) (slot_of t c)
unfolding put_lazy
put-act t c = probe-map (act t c) 0 lazy_n (hash c) c (keys t) (lazy_round t c) (round-act t c)

-- What `seen` reads off the slot where the probe stops.
pub seen_at :
    (t : LazyTable) (c j : ℕ)
    → slot_of t c ≡ some j
    → seen t c ≡ (if (t j).csi == c then (t j).occur_count else 0)
unfolding seen
seen_at t c j e = rw (e, seen)

-- A site that is stored is seen as often as its slot says.
seen_stored :
    (t : LazyTable) (j : ℕ)
    → IsLazy t
    → j < lazy_n
    → (t j).csi ≢ 0
    → seen t (t j).csi ≡ (t j).occur_count
seen_stored t j v lt full = seen_at t (t j).csi j (v.found j lt full) ∙ ground arith

-- The site is in the slot that its probe finds, or it is in no slot and was never seen.
pub data Seen (t : LazyTable) (k : ℕ) : Type 0 where
  stored :
      (i : ℕ)
      → i < lazy_n
      → slot_of t k ≡ some i
      → keys t i ≡ k
      → seen t k ≡ (t i).occur_count
      → Seen t k
  absent : seen t k ≡ 0 → ((i : ℕ) → i < lazy_n → keys t i ≢ k) → Seen t k

pub Seen-cases : (t : LazyTable) (k : ℕ) → IsLazy t → k ≢ 0 → Seen t k
unfolding seen
Seen-cases t k v full = elim (Option-cases (slot_of t k)) [
  | inl e ↦ absent (rw (e, seen)) (λ i lt at. not_at i lt at λ f. cc)
  | inr (i, e) ↦
      let (lt, kind) = find_stop 0 lazy_n hash (keys t) k i (omega arith) e in
      elim kind [
        | inl at ↦ stored i lt e at (seen_at t k i e ∙ ground arith)
        | inr (other, vacant) ↦
            absent (seen_at t k i e ∙ ground arith)
              (λ i' lt' at. not_at i' lt' at λ f. ground arith)
      ]
]
  where
    not_at : (i : ℕ) → i < lazy_n → keys t i ≡ k → (slot_of t k ≡ some i → ⊥) → ⊥
    not_at i lt at no' = no' (rw at at (v.found i lt (rw at full)))

-- One write at the slot where the probe for `c` stops.
module _ (t : LazyTable) (c j n : ℕ) (v : IsLazy t) (c_full : c ≢ 0)
    (stop : slot_of t c ≡ some j) where
  abbrev pub written : LazyTable
  written = update t j (record { csi = c; occur_count = n })

  key_here : keys written j ≡ c
  key_here = ground arith

  key_rest : (i : ℕ) → i ≢ j → keys written i ≡ keys t i
  key_rest i ne = ground arith

  pub written-IsLazy : IsLazy written
  written-IsLazy =
      store-IsTable 0 lazy_n hash (keys t) (keys written) c j (omega arith) c_full stop key_here
        key_rest v

  pub seen-written : seen written c ≡ n
  seen-written =
      seen_at written c j (
        find_own 0 lazy_n hash (keys t) (keys written) c j (omega arith) c_full stop key_here
          key_rest)
      ∙ ground arith

  pub seen_other : (k : ℕ) → k ≢ 0 → k ≢ c → seen written k ≡ seen t k
  seen_other k full ne = go (Seen-cases t k v full) (Seen-cases written k written-IsLazy full)
    where
      j_lt : (j < lazy_n) × ((keys t j ≡ c) ⊎ ((keys t j ≢ c) × (keys t j ≡ 0)))
      j_lt = find_stop 0 lazy_n hash (keys t) c j (omega arith) stop

      go : Seen t k → Seen written k → seen written k ≡ seen t k
      go (stored i lt e at n_eq) _ =
          seen_at written k i (
            find_other 0 lazy_n hash (keys t) (keys written) c j (omega arith) c_full stop key_here
              key_rest k i full at e)
          ∙ ground (arith, j_lt.1)
      go (absent none' no') (absent none'' no'') = none'' ∙ sym none'
      go (absent none' no') (stored i lt e at n_eq) = absurd (no' i lt (ground (arith, key_rest i)))
