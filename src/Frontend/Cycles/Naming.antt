-- ===== src/Frontend/Cycles/Naming.antt =====
-- The cycles that instrIsInaLoop finds have different members, and the names that it gives them are
-- found from the members.
use semalloc.Common.{
  ℕ, zero, suc, ◌+◌, ◌≤◌, ◌≡◌, refl, sym, ◌∙◌, true, false, List, [], ◌∷◌, ◌++◌, arith, inl, inr,
  ap, subst, has, length, ltb, update, update_self, update_ne, Bool-cases, eq-cases,
}
use semalloc.Frontend.Graph.{Calls, push_back}
use semalloc.Frontend.Graph.Agreement.{has-push_back}
use semalloc.Frontend.Weights.Layout.{AllDistinct}
use semalloc.Frontend.Cycles.{group_nodes, real_cycles}
use semalloc.Frontend.Cycles.Contract.{has-++}

pub AllDistinct-++ :
    (xs ys : List ℕ)
    → AllDistinct xs
    → AllDistinct ys
    → ((f : ℕ) → has f xs ≡ true → has f ys ≡ false)
    → AllDistinct (xs ++ ys)
AllDistinct-++ [] ys a b apart = b
AllDistinct-++ (x ∷ xs) ys a b apart = (
  ground (arith, has-++ x xs ys, a.0, apart x),
  AllDistinct-++ xs ys a.1 b (λ f m. apart f (ground (arith, m))),
)

pub AllDistinct-push_back :
    (xs : List ℕ) (f : ℕ) → AllDistinct xs → has f xs ≡ false → AllDistinct (push_back xs f)
AllDistinct-push_back [] f a out = (refl, tt)
AllDistinct-push_back (x ∷ xs) f a out = (
  ground (arith, has-push_back x xs f, a.0, out),
  AllDistinct-push_back xs f a.1 (ground (arith, out)),
)

-- Each list holds nodes of its own component, none twice.
pub record IsGrouped (component : ℕ → ℕ) (nodes : List ℕ) (cycle_map : Calls) : Type 0 where
  pub own : (i f : ℕ) → has f (cycle_map i) ≡ true → (component f ≡ i) × (has f nodes ≡ true)
  pub distinct : (i : ℕ) → AllDistinct (cycle_map i)

pub group_nodes-IsGrouped :
    (component : ℕ → ℕ) (nodes fs : List ℕ) (cycle_map : Calls)
    → AllDistinct fs
    → ((f : ℕ) → has f fs ≡ true → has f nodes ≡ true)
    → ((i f : ℕ) → has f fs ≡ true → has f (cycle_map i) ≡ false)
    → IsGrouped component nodes cycle_map
    → IsGrouped component nodes (group_nodes component fs cycle_map)
unfolding group_nodes
group_nodes-IsGrouped component nodes [] cycle_map distinct node fresh inv = inv
group_nodes-IsGrouped component nodes (f ∷ fs) cycle_map distinct node fresh inv =
    let c = component f in
    let longer = push_back (cycle_map c) f in
    group_nodes-IsGrouped component nodes fs (update cycle_map c longer) distinct.1
      (λ g m. node g (ground (arith, m)))
      (λ i g m. elim (eq-cases c i) [
        | inl e ↦
            ap (λ k. has g (update cycle_map c longer k)) (sym e)
            ∙ ap (has g) (update_self cycle_map c longer)
            ∙ has-push_back g (cycle_map c) f
            ∙ elim (eq-cases f g) [
              | inl same ↦ absurd (ground (arith, m, distinct.0, ap (λ k. has k fs) same))
              | inr ne ↦ ground (arith, fresh c g (ground (arith, m)))
            ]
        | inr ne ↦ ap (has g) (update_ne cycle_map c i longer ne) ∙ fresh i g (ground (arith, m))
      ])
      (record {
        own = λ i g m. elim (eq-cases c i) [
          | inl e ↦
              let there : has g longer ≡ true =
                sym (ap (has g) (update_self cycle_map c longer))
                ∙ ap (λ k. has g (update cycle_map c longer k)) e
                ∙ m in
              elim (eq-cases f g) [
                | inl same ↦ (
                  ap component (sym same) ∙ e,
                  ap (λ k. has k nodes) (sym same) ∙ node f (ground arith),
                )
                | inr ne ↦
                    let (a, b) =
                      inv.own c g (ground (arith, there, has-push_back g (cycle_map c) f)) in
                    (a ∙ e, b)
              ]
          | inr ne ↦ inv.own i g (sym (ap (has g) (update_ne cycle_map c i longer ne)) ∙ m)
        ];
        distinct = λ i. elim (eq-cases c i) [
          | inl e ↦
              subst (λ k. AllDistinct (update cycle_map c longer k)) e
                (subst AllDistinct (sym (update_self cycle_map c longer)) (
                  AllDistinct-push_back (cycle_map c) f (inv.distinct c)
                    (fresh c f (ground arith))))
          | inr ne ↦ subst AllDistinct (sym (update_ne cycle_map c i longer ne)) (inv.distinct i)
        ];
      })

abbrev pub flat : List (List ℕ) → List ℕ
flat [] = []
flat (c ∷ cs) = c ++ flat cs

module _ (component : ℕ → ℕ) (nodes : List ℕ) (cycle_map : Calls)
    (grouped : IsGrouped component nodes cycle_map) where
  pub real_cycles-own :
      (n i f : ℕ)
      → has f (flat (real_cycles cycle_map n i)) ≡ true
      → (i ≤ component f) × (has f nodes ≡ true)
  unfolding real_cycles
  real_cycles-own zero i f h = cc
  real_cycles-own (suc n) i f h = elim (Bool-cases (ltb 1 (length (cycle_map i)))) [
    | inl real ↦
        let there : has f (cycle_map i ++ flat (real_cycles cycle_map n (i + 1))) ≡ true =
          rw (real, real_cycles) at h in
        elim (Bool-cases (has f (cycle_map i))) [
          | inl now ↦ ground (arith, grouped.own i f now)
          | inr later ↦
              let (a, b) = real_cycles-own n (i + 1) f (
                ground (
                  arith,
                  there,
                  later,
                  has-++ f (cycle_map i) (flat (real_cycles cycle_map n (i + 1))),
                )) in
              (omega arith, b)
        ]
    | inr single ↦
        let (a, b) = real_cycles-own n (i + 1) f (rw (single, real_cycles) at h) in (omega arith, b)
  ]

  pub real_cycles-AllDistinct : (n i : ℕ) → AllDistinct (flat (real_cycles cycle_map n i))
  unfolding real_cycles
  real_cycles-AllDistinct zero i = tt
  real_cycles-AllDistinct (suc n) i = elim (Bool-cases (ltb 1 (length (cycle_map i)))) [
    | inl real ↦
        rw (real, real_cycles)
          (AllDistinct-++ (cycle_map i) (flat (real_cycles cycle_map n (i + 1)))
            (grouped.distinct i) (real_cycles-AllDistinct n (i + 1))
            (λ f m. elim (Bool-cases (has f (flat (real_cycles cycle_map n (i + 1))))) [
              | inr out ↦ out
              | inl later ↦
                  absurd
                    (omega (arith, (grouped.own i f m).0, (real_cycles-own n (i + 1) f later).0))
            ]))
    | inr single ↦ rw (single, real_cycles) (real_cycles-AllDistinct n (i + 1))
  ]
