-- ===== src/Manager/Lazy/History.antt =====
-- Any run of calls of tryPutToLazyPool, against a specification without a table.
use semalloc.Common.{
  ℕ, suc, ◌+◌, ◌≤◌, ◌<◌, ◌≡◌, ◌≢◌, refl, Bool, false, Option, none, some, List, [], ◌∷◌, arith, inl,
  inr, ltb, ◌==◌, has, length, missing, if◌then◌else◌, Option-cases, eq-cases,
}
use semalloc.Config.{lazy_n, lazy_occur}
use semalloc.Manager.Lazy.{LazyTable, put_lazy}
use semalloc.Manager.Lazy.Count.{IsLazy, keys, seen, stored, absent, Seen-cases}
use semalloc.Manager.Lazy.Step.{Put, put_lazy-Put, put_lazy_total, put_lazy-keys}

-- The answers to a sequence of calls, and the table after them; `none` if one exits.
unfoldable pub put_all : LazyTable → List ℕ → Option (List Bool × LazyTable)
put_all t [] = some ([], t)
put_all t (c ∷ cs) = elim (put_lazy t c) [
  | none ↦ none
  | some (b, t') ↦ elim (put_all t' cs) [ none ↦ none | some (bs, t'') ↦ some (b ∷ bs, t'') ]
]

abbrev pub occurrences : ℕ → List ℕ → ℕ
occurrences c [] = 0
occurrences c (x ∷ xs) = if x == c then suc (occurrences c xs) else occurrences c xs

-- A call is lazy when its site occurs less than twice among the calls before it.
unfoldable pub lazy_answers : List ℕ → List ℕ → List Bool
lazy_answers before [] = []
lazy_answers before (c ∷ cs) = ltb (occurrences c before) lazy_occur ∷ lazy_answers (c ∷ before) cs

abbrev pub fresh_table : LazyTable
fresh_table _ = record { csi = 0; occur_count = 0 }

abbrev pub AllSites : List ℕ → Type 0
AllSites [] = Unit {0}
AllSites (c ∷ cs) = (c ≢ 0) × AllSites cs

-- The table has seen every site as often as it occurs, up to two.
record Recalls (before : List ℕ) (t : LazyTable) : Type 0 where
  valid : IsLazy t
  recalled :
      (k : ℕ)
      → k ≢ 0
      → seen t k ≡ (if ltb (occurrences k before) 2 then occurrences k before else 2)

-- One call recalls one occurrence more.
recall :
    (before : List ℕ) (t : LazyTable) (c : ℕ) (b : Bool) (t' : LazyTable)
    → Recalls before t
    → c ≢ 0
    → Put t c b t'
    → Recalls (c ∷ before) t'
recall before t c b t' r full p = record {
  valid = p.valid;
  recalled = λ k k_full. elim (eq-cases c k) [
    | inl e ↦ rw (← e) (ground (arith, r.recalled c full))
    | inr ne ↦ ground (arith, r.recalled k k_full, p.others k k_full)
  ];
}

put_all-answers :
    (cs before : List ℕ) (t t' : LazyTable) (bs : List Bool)
    → Recalls before t
    → AllSites cs
    → put_all t cs ≡ some (bs, t')
    → bs ≡ lazy_answers before cs
unfolding put_all lazy_answers
put_all-answers [] before t t' bs r a e = cc
put_all-answers (c ∷ cs) before t t' bs r a e = elim (Option-cases (put_lazy t c)) [
  | inl none' ↦ absurd (ground arith)
  | inr ((b, t₁), one) ↦
      let p = put_lazy-Put t c b t₁ r.valid a.0 one in
      elim (Option-cases (put_all t₁ cs)) [
        | inl none' ↦ absurd (ground arith)
        | inr ((bs', t₂), more) ↦
            let ih =
              put_all-answers cs (c ∷ before) t₁ t₂ bs' (recall before t c b t₁ r a.0 p) a.1 more in
            ground (arith, p.answer, r.recalled c a.0)
      ]
]

put_all_total :
    (cs used : List ℕ) (t : LazyTable)
    → ((j : ℕ) → j < lazy_n → has j used ≡ false → keys t j ≡ 0)
    → length used + length cs ≤ lazy_n
    → (r : List Bool × LazyTable) × (put_all t cs ≡ some r)
unfolding put_all
put_all_total [] used t free room = (([], t), refl)
put_all_total (c ∷ cs) used t free room =
    let (j, lt, out) = missing lazy_n used (omega arith) in
    let ((b, t₁), one) = put_lazy_total t c j lt (free j lt out) in
    let (k, same) = put_lazy-keys t c b t₁ one in
    let ((bs, t₂), more) =
      put_all_total cs (k ∷ used) t₁ (λ i i_lt i_out. ground (arith, same i, free i))
        (omega arith) in
    ((b ∷ bs, t₂), rw (one, put_all, more))

fresh-Recalls : Recalls [] fresh_table
fresh-Recalls = record {
  valid = fresh;
  recalled = λ k full. elim (Seen-cases fresh_table k fresh full) [
    | stored i lt e at n ↦ absurd (ground arith)
    | absent none' no' ↦ none'
  ];
}
  where
    fresh : IsLazy fresh_table
    fresh = record { found = λ j lt full. absurd (full refl) }

-- From a fresh table, any sequence of at most 2 ^ 22 calls for non-zero sites runs to its end, and a
-- call answers true exactly when its site occurs less than twice among the calls before it.
pub put_all-lazy_answers :
    (cs : List ℕ)
    → AllSites cs
    → length cs ≤ lazy_n
    → (t : LazyTable) × (put_all fresh_table cs ≡ some (lazy_answers [] cs, t))
put_all-lazy_answers cs a room =
    let ((bs, t), e) = put_all_total cs [] fresh_table (λ j _ _. refl) (omega arith) in
    (t, rw (← put_all-answers cs [] fresh_table t bs fresh-Recalls a e) e)
