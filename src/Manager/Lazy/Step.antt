-- ===== src/Manager/Lazy/Step.antt =====
-- One call of tryPutToLazyPool.
use mathlib.Core.Option
use semalloc.Common.{
  ℕ, ◌+◌, ◌<◌, ◌≡◌, ◌≢◌, refl, ap, sym, subst, ◌∙◌, Bool, some, arith, inl, inr, ltb, ◌==◌, ==_iff,
  if◌then◌else◌, Bool-cases, Option-cases,
}
use semalloc.Config.{hash, lazy_n, lazy_occur}
use semalloc.Probe.{find_total}
use semalloc.Manager.Lazy.{LazyTable, put_lazy}
use semalloc.Manager.Lazy.Count.{
  IsLazy, keys, slot_of, seen, seen_at, act, put-act, written-IsLazy, seen-written, seen_other,
}

-- One call for a site: the answer is whether the site was seen less than twice, and the table counts
-- the call if so; the other sites keep their counts.
pub record Put (t : LazyTable) (c : ℕ) (b : Bool) (t' : LazyTable) : Type 0 where
  pub answer : b ≡ ltb (seen t c) lazy_occur
  pub counted : seen t' c ≡ (if b then seen t c + 1 else seen t c)
  pub others : (k : ℕ) → k ≢ 0 → k ≢ c → seen t' k ≡ seen t k
  pub valid : IsLazy t'

act-Put :
    (t : LazyTable) (c j : ℕ)
    → IsLazy t
    → c ≢ 0
    → slot_of t c ≡ some j
    → Put t c (act t c j).0 (act t c j).1
unfolding act
act-Put t c j v full e = elim (Bool-cases ((t j).csi == c)) [
  | inl own ↦
      let at : (t j).csi ≡ c = (==_iff _ c).0 own in
      let n : seen t c ≡ (t j).occur_count = seen_at t c j e ∙ ground arith in
      elim (Bool-cases (ltb (t j).occur_count lazy_occur)) [
        | inl few ↦
            rw (own, few, at)
              (record {
                answer = ground arith;
                counted = seen-written t c j ((t j).occur_count + 1) v full e ∙ ground arith;
                others = seen_other t c j ((t j).occur_count + 1) v full e;
                valid = written-IsLazy t c j ((t j).occur_count + 1) v full e;
              })
        | inr many ↦
            rw (own, many)
              (record { answer = ground arith; counted = refl; others = λ k _ _. refl; valid = v })
      ]
  | inr other ↦
      let n : seen t c ≡ 0 = seen_at t c j e ∙ ground arith in
      rw other (record {
        answer = ground arith;
        counted = seen-written t c j 1 v full e ∙ ground arith;
        others = seen_other t c j 1 v full e;
        valid = written-IsLazy t c j 1 v full e;
      })
]

-- A call for a non-zero site on a well-formed table, when it returns, answers whether the site was
-- seen less than twice and counts the call if so; the other non-zero sites keep their counts, and the
-- table stays well formed.
pub put_lazy-Put :
    (t : LazyTable) (c : ℕ) (b : Bool) (t' : LazyTable)
    → IsLazy t
    → c ≢ 0
    → put_lazy t c ≡ some (b, t')
    → Put t c b t'
put_lazy-Put t c b t' v full e = elim (Option-cases (slot_of t c)) [
  | inl e' ↦ absurd (cc (e, put-act t c, ap (Option.map (act t c)) e'))
  | inr (j, e') ↦
      let got : act t c j ≡ (b, t') = cc (e, put-act t c, ap (Option.map (act t c)) e') in
      subst (λ r. Put t c r.0 r.1) got (act-Put t c j v full e')
]

-- While a slot of the table is free the call returns.
pub put_lazy_total :
    (t : LazyTable) (c j : ℕ)
    → j < lazy_n
    → keys t j ≡ 0
    → (r : Bool × LazyTable) × (put_lazy t c ≡ some r)
put_lazy_total t c j lt vacant =
    let (i, e) = find_total 0 lazy_n hash (keys t) c j lt vacant in
    (act t c i, put-act t c ∙ ap (Option.map (act t c)) e)

-- A call changes the key of one slot at most.
pub put_lazy-keys :
    (t : LazyTable) (c : ℕ) (b : Bool) (t' : LazyTable)
    → put_lazy t c ≡ some (b, t')
    → (j : ℕ) × ((i : ℕ) → i ≢ j → keys t' i ≡ keys t i)
unfolding act
put_lazy-keys t c b t' e = elim (Option-cases (slot_of t c)) [
  | inl e' ↦ absurd (cc (e, put-act t c, ap (Option.map (act t c)) e'))
  | inr (j, e') ↦
      let got : act t c j ≡ (b, t') = cc (e, put-act t c, ap (Option.map (act t c)) e') in
      (j, λ i ne. ap (λ (r : Bool × LazyTable). keys r.1 i) (sym got) ∙ ground arith)
]
