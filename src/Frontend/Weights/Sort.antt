-- ===== src/Frontend/Weights/Sort.antt =====
-- The topological sort of ComputeEdgeWeight: what comes out is a topological order.
use semalloc.Common.{
  ℕ, zero, suc, ◌+◌, ◌^◌, ◌≤◌, ◌<◌, ◌≡◌, ◌≢◌, refl, sym, ◌∙◌, ap, true, false, ◌||◌, none, some,
  List, [], ◌∷◌, arith, inl, inr, subst, ◌==◌, ==_iff, ==_ne, if◌then◌else◌, has, length, update,
  update_self, update_ne, sub64, eq-cases, Bool-cases, Option-cases,
}
use semalloc.Frontend.Weights.{
  CallGraph, Sorted, sorted, cyclic, cons_sorted, eliminate, next_function, decrease, decrease_all,
  sort_rounds, topological_order,
}
use semalloc.Frontend.Weights.Layout.{AllDistinct, Ordered}

has-eliminate_ne : (h f : ℕ) (fs : List ℕ) → h ≢ f → has f (eliminate h fs) ≡ has f fs
unfolding eliminate
has-eliminate_ne h f [] ne = refl
has-eliminate_ne h f (g ∷ gs) ne = ground (arith, has-eliminate_ne h f gs ne)

has-eliminate_self : (h : ℕ) (fs : List ℕ) → has h (eliminate h fs) ≡ false
unfolding eliminate
has-eliminate_self h [] = refl
has-eliminate_self h (g ∷ gs) = ground (arith, has-eliminate_self h gs)

length-eliminate_le : (h : ℕ) (fs : List ℕ) → length (eliminate h fs) ≤ length fs
unfolding eliminate
length-eliminate_le h [] = omega arith
length-eliminate_le h (g ∷ gs) = ground (arith, length-eliminate_le h gs)

length-eliminate : (h : ℕ) (fs : List ℕ) → has h fs ≡ true → length (eliminate h fs) < length fs
unfolding eliminate
length-eliminate h [] here = absurd (ground arith)
length-eliminate h (g ∷ gs) here = ground (arith, length-eliminate h gs, length-eliminate_le h gs)

AllDistinct-eliminate : (h : ℕ) (fs : List ℕ) → AllDistinct fs → AllDistinct (eliminate h fs)
unfolding eliminate
AllDistinct-eliminate h [] d = tt
AllDistinct-eliminate h (g ∷ gs) d = elim (eq-cases g h) [
  | inl e ↦ rw ((==_iff g h).1 e) (AllDistinct-eliminate h gs d.1)
  | inr ne ↦
      rw (==_ne g h ne)
        (has-eliminate_ne h g gs (λ e. ne (sym e)) ∙ d.0, AllDistinct-eliminate h gs d.1)
]

-- The function that is chosen is left, and its count is zero; if there is none, no count is.
next_function-some :
    (count : ℕ → ℕ) (fs : List ℕ) (f : ℕ)
    → next_function count fs ≡ some f
    → (has f fs ≡ true) × (count f ≡ 0)
unfolding next_function
next_function-some count [] f e = absurd (ground arith)
next_function-some count (g ∷ gs) f e = ground (arith, next_function-some count gs f)

next_function-none :
    (count : ℕ → ℕ) (fs : List ℕ) (f : ℕ)
    → next_function count fs ≡ none
    → has f fs ≡ true
    → count f ≢ 0
unfolding next_function
next_function-none count [] f e here = absurd (ground arith)
next_function-none count (g ∷ gs) f e here = elim (eq-cases g f) [
  | inl s ↦ λ z. ground (arith, ap count s)
  | inr ne ↦ next_function-none count gs f (ground arith) (ground arith)
]

eliminate_kept :
    (h f : ℕ) (fs : List ℕ) → has f (eliminate h fs) ≡ true → (h ≢ f) × (has f fs ≡ true)
eliminate_kept h f fs here = elim (eq-cases h f) [
  | inl e ↦ absurd (ground (arith, has-eliminate_self h fs, ap (λ k. has k (eliminate h fs)) e))
  | inr ne ↦ (ne, sym (has-eliminate_ne h f fs ne) ∙ here)
]

module _ (g : CallGraph) where
  -- The calls of a list to functions that are left.
  abbrev pub calls_left : List ℕ → List ℕ → ℕ
  calls_left left [] = 0
  calls_left left (p ∷ ps) =
      if has (g.callee p) left then suc (calls_left left ps) else calls_left left ps

  abbrev calls_of : ℕ → List ℕ → ℕ
  calls_of f [] = 0
  calls_of f (p ∷ ps) = if g.callee p == f then suc (calls_of f ps) else calls_of f ps

  decrease_by :
      (f : ℕ) (ps : List ℕ) (n : ℕ)
      → calls_of f ps ≤ n
      → n < 2 ^ 64
      → decrease g f ps n + calls_of f ps ≡ n
  unfolding decrease
  decrease_by f [] n le small = omega arith
  decrease_by f (p ∷ ps) n le small = elim (eq-cases (g.callee p) f) [
    | inl e ↦
        let first : suc (calls_of f ps) ≤ n = ground arith in
        let rest = decrease_by f ps (sub64 n 1) (omega (arith, first)) (omega (arith, first)) in
        rw ((==_iff (g.callee p) f).1 e) (omega (arith, rest, first))
    | inr ne ↦ rw (==_ne (g.callee p) f ne) (decrease_by f ps n (ground arith) small)
  ]

  calls_left-eliminate :
      (f : ℕ) (left ps : List ℕ)
      → has f left ≡ true
      → calls_left (eliminate f left) ps + calls_of f ps ≡ calls_left left ps
  calls_left-eliminate f left [] here = refl
  calls_left-eliminate f left (p ∷ ps) here = elim (eq-cases (g.callee p) f) [
    | inl e ↦
        let out : has (g.callee p) (eliminate f left) ≡ false = rw e (has-eliminate_self f left) in
        let in' : has (g.callee p) left ≡ true = rw e here in
        rw (out, in', (==_iff (g.callee p) f).1 e)
          (omega (arith, calls_left-eliminate f left ps here))
    | inr ne ↦
        rw (has-eliminate_ne f (g.callee p) left (λ e. ne (sym e)), ==_ne (g.callee p) f ne)
          (elim (Bool-cases (has (g.callee p) left)) [
            | inl in' ↦ rw in' (omega (arith, calls_left-eliminate f left ps here))
            | inr out ↦ rw out (calls_left-eliminate f left ps here)
          ])
  ]

  calls_left_zero :
      (left ps : List ℕ) (p : ℕ)
      → calls_left left ps ≡ 0
      → has p ps ≡ true
      → has (g.callee p) left ≡ false
  calls_left_zero left [] p e here = absurd (ground arith)
  calls_left_zero left (q ∷ ps) p e here = elim (eq-cases q p) [
    | inl s ↦ ground (arith, ap g.callee s)
    | inr ne ↦ ground (arith, calls_left_zero left ps p)
  ]

  calls_left_le : (left ps : List ℕ) → calls_left left ps ≤ length ps
  calls_left_le left [] = omega arith
  calls_left_le left (p ∷ ps) = ground (arith, calls_left_le left ps)

  decrease_all-rest :
      (f : ℕ) (left : List ℕ) (count : ℕ → ℕ) (h : ℕ)
      → has h left ≡ false
      → decrease_all g f left count h ≡ count h
  unfolding decrease_all
  decrease_all-rest f [] count h out = refl
  decrease_all-rest f (k ∷ left) count h out =
      decrease_all-rest f left _ h (ground arith) ∙ update_ne count k h _ (ground arith)

  decrease_all-each :
      (f : ℕ) (left : List ℕ) (count : ℕ → ℕ) (h : ℕ)
      → AllDistinct left
      → has h left ≡ true
      → decrease_all g f left count h ≡ decrease g f (g.callees h) (count h)
  unfolding decrease_all
  decrease_all-each f [] count h d here = absurd (ground arith)
  decrease_all-each f (k ∷ left) count h d here = elim (eq-cases k h) [
    | inl e ↦
        subst
          (λ h.
            decrease_all g f left (update count k (decrease g f (g.callees k) (count k))) h
            ≡ decrease g f (g.callees h) (count h))
          e (decrease_all-rest f left _ k d.0 ∙ update_self count k _)
    | inr ne ↦
        decrease_all-each f left _ h d.1 (ground arith)
        ∙ ap (decrease g f (g.callees h)) (update_ne count k h _ ne)
  ]

  -- The functions that are left have counts of the calls that they still make to each other; their
  -- other callees are done.
  record Sorting (done left : List ℕ) (count : ℕ → ℕ) : Type 0 where
    distinct : AllDistinct left
    apart : (f : ℕ) → has f left ≡ true → has f done ≡ false
    closed :
        (f p : ℕ)
        → has f left ≡ true
        → has p (g.callees f) ≡ true
        → (has (g.callee p) done || has (g.callee p) left) ≡ true
    counted : (f : ℕ) → has f left ≡ true → count f ≡ calls_left left (g.callees f)

  eliminated-Sorting :
      (done left : List ℕ) (count : ℕ → ℕ) (h : ℕ)
      → ((f : ℕ) → length (g.callees f) < 2 ^ 64)
      → Sorting done left count
      → has h left ≡ true
      → Sorting (h ∷ done) (eliminate h left) (decrease_all g h (eliminate h left) count)
  eliminated-Sorting done left count h small v here = record {
    distinct = AllDistinct-eliminate h left v.distinct;
    apart = λ f in'. let (ne, in'') = eliminate_kept h f left in' in ground (arith, v.apart f in'');
    closed = λ f p in' q.
        let (ne, in'') = eliminate_kept h f left in' in
        elim (eq-cases h (g.callee p)) [
          | inl e ↦ ground arith
          | inr ne' ↦ ground (arith, v.closed f p in'' q, has-eliminate_ne h (g.callee p) left ne')
        ];
    counted = λ f in'.
        let (ne, in'') = eliminate_kept h f left in' in
        let sum = calls_left-eliminate h left (g.callees f) here in
        let n = v.counted f in'' in
        let by =
          decrease_by h (g.callees f) (count f) (omega (arith, sum, n))
            (omega (arith, n, calls_left_le left (g.callees f), small f)) in
        decrease_all-each h (eliminate h left) count f (AllDistinct-eliminate h left v.distinct) in'
        ∙ omega (arith, sum, n, by);
  }

  -- Functions of which each calls another: no order exists.
  pub record IsStuck (left stuck : List ℕ) : Type 0 where
    pub witness : (f : ℕ) × (has f stuck ≡ true)
    pub calls : (f : ℕ) → has f stuck ≡ true → calls_left stuck (g.callees f) ≢ 0

  abbrev pub IsResult : List ℕ → List ℕ → Sorted → Type 0
  IsResult done left (sorted order) = Ordered g done order × ((f : ℕ) → has f order ≡ has f left)
  IsResult done left cyclic = (stuck : List ℕ) × IsStuck left stuck
  IsResult done left Sorted.out_of_fuel = ⊥

  cons-IsResult :
      (done left : List ℕ) (count : ℕ → ℕ) (h : ℕ) (r : Sorted)
      → Sorting done left count
      → has h left ≡ true
      → count h ≡ 0
      → IsResult (h ∷ done) (eliminate h left) r
      → IsResult done left (cons_sorted h r)
  cons-IsResult done left count h (sorted order) v here none' (o, same) = (
    (
      v.apart h here,
      λ p q. ground (
        arith,
        v.closed h p here q,
        calls_left_zero left (g.callees h) p (sym (v.counted h here) ∙ none') q,
      ),
      o,
    ),
    λ f. elim (eq-cases h f) [
      | inl e ↦ ground (arith, ap (λ k. has k left) e)
      | inr ne ↦ ground (arith, same f, has-eliminate_ne h f left ne)
    ],
  )
  cons-IsResult done left count h cyclic v here none' (stuck, s) =
      (stuck, record { witness = s.witness; calls = s.calls })
  cons-IsResult done left count h Sorted.out_of_fuel v here none' r = r

  sort_rounds-none :
      (fuel f : ℕ) (left : List ℕ) (count : ℕ → ℕ)
      → next_function count (f ∷ left) ≡ none
      → sort_rounds g (suc fuel) (f ∷ left) count ≡ cyclic
  unfolding sort_rounds
  sort_rounds-none fuel f left count e = rw (e, sort_rounds) refl

  sort_rounds-some :
      (fuel f : ℕ) (left : List ℕ) (count : ℕ → ℕ) (h : ℕ)
      → next_function count (f ∷ left) ≡ some h
      → sort_rounds g (suc fuel) (f ∷ left) count
        ≡ cons_sorted h (
            sort_rounds g fuel
              (eliminate h (f ∷ left))
              (decrease_all g h (eliminate h (f ∷ left)) count))
  unfolding sort_rounds
  sort_rounds-some fuel f left count h e = rw (e, sort_rounds) refl

  sort_rounds-IsResult :
      (fuel : ℕ) (done left : List ℕ) (count : ℕ → ℕ)
      → ((f : ℕ) → length (g.callees f) < 2 ^ 64)
      → Sorting done left count
      → length left ≤ fuel
      → IsResult done left (sort_rounds g fuel left count)
  unfolding sort_rounds
  sort_rounds-IsResult fuel done [] count small v enough = (tt, λ f. refl)
  sort_rounds-IsResult zero done (f ∷ left) count small v enough = absurd (omega (arith, enough))
  sort_rounds-IsResult (suc fuel) done (f ∷ left) count small v enough =
      elim (Option-cases (next_function count (f ∷ left))) [
        | inl e ↦ subst (IsResult done (f ∷ left)) (sym (sort_rounds-none fuel f left count e)) (
          f ∷ left,
          record {
            witness = (f, ground arith);
            calls = λ h here z. next_function-none count (f ∷ left) h e here (v.counted h here ∙ z);
          },
        )
        | inr (h, e) ↦
            let (here, none') = next_function-some count (f ∷ left) h e in
            let left' = eliminate h (f ∷ left) in
            let count' = decrease_all g h left' count in
            subst (IsResult done (f ∷ left)) (sym (sort_rounds-some fuel f left count h e)) (
              cons-IsResult done (f ∷ left) count h (sort_rounds g fuel left' count') v here none' (
                sort_rounds-IsResult fuel (h ∷ done) left' count' small
                  (eliminated-Sorting done (f ∷ left) count h small v here)
                  (omega (arith, enough, length-eliminate h (f ∷ left) here))))
      ]

  calls_left_all :
      (left ps : List ℕ)
      → ((p : ℕ) → has p ps ≡ true → has (g.callee p) left ≡ true)
      → length ps ≡ calls_left left ps
  calls_left_all left [] all' = refl
  calls_left_all left (p ∷ ps) all' =
      rw (all' p (ground arith)) (ap suc (calls_left_all left ps λ q h. all' q (ground arith)))

  -- For functions without repetition whose callees are among them, the sort comes to its end: it gives
  -- the functions in an order in which callees come before their callers, or it finds functions of
  -- which each calls another.
  pub topological_order-IsResult :
      (functions : List ℕ)
      → AllDistinct functions
      → ((f p : ℕ)
          → has f functions ≡ true
          → has p (g.callees f) ≡ true
          → has (g.callee p) functions ≡ true)
      → ((f : ℕ) → length (g.callees f) < 2 ^ 64)
      → IsResult [] functions (topological_order g functions)
  unfolding topological_order
  topological_order-IsResult functions d closed small =
      sort_rounds-IsResult (length functions) [] functions (λ f. length (g.callees f)) small
        (record {
          distinct = d;
          apart = λ f here. refl;
          closed = λ f p here q. ground (arith, closed f p here q);
          counted = λ f here. calls_left_all functions (g.callees f) (λ p q. closed f p here q);
        })
        (omega arith)
