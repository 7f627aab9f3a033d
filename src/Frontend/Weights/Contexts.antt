-- ===== src/Frontend/Weights/Contexts.antt =====
-- Calling contexts and their encoding: the sum of the weights of the calls that lead to a function
-- that calls none of the functions of the graph.
use semalloc.Common.{
  ℕ, ◌+◌, ◌≤◌, ◌≡◌, refl, sym, ◌∙◌, ap, true, ◌||◌, List, [], ◌∷◌, arith, inl, inr, subst, has,
  eq-cases,
}
use semalloc.Frontend.Weights.{CallGraph, Weights, weigh}
use semalloc.Frontend.Weights.Layout.{
  LaidOut, IsCallGraph, IsWeighed, Ordered, AllSmall, weigh-IsWeighed,
}

-- The sum of the weights, which the instrumented calls add to the tracking variable.
abbrev pub encoding : Weights → List ℕ → ℕ
encoding w [] = 0
encoding w (p ∷ ps) = w.edge_weight p + encoding w ps

module _ (g : CallGraph) where
  -- A chain of calls from `f` to a function without callees.
  abbrev pub IsContext : ℕ → List ℕ → Type 0
  IsContext f [] = g.callees f ≡ []
  IsContext f (p ∷ ps) = (has p (g.callees f) ≡ true) × IsContext (g.callee p) ps

  LaidOut-grows :
      (w o : ℕ → ℕ) (ps : List ℕ) (from to : ℕ) → LaidOut w o g.callee ps from to → from ≤ to
  LaidOut-grows w o [] from to v = omega (arith, v)
  LaidOut-grows w o (p ∷ ps) from to v =
      omega (arith, LaidOut-grows w o ps (from + (o (g.callee p) + 1)) to v.1)

  -- The range of a call lies in that of the list.
  LaidOut-within :
      (w o : ℕ → ℕ) (ps : List ℕ) (from to p : ℕ)
      → LaidOut w o g.callee ps from to
      → has p ps ≡ true
      → (from ≤ w p) × (w p + (o (g.callee p) + 1) ≤ to)
  LaidOut-within w o [] from to p v here = absurd (ground arith)
  LaidOut-within w o (q ∷ ps) from to p v here = elim (eq-cases q p) [
    | inl e ↦
        let e' : w q ≡ w p = ap w e in
        let e'' : o (g.callee q) ≡ o (g.callee p) = ap (λ x. o (g.callee x)) e in
        (
          omega (arith, e', v.0),
          omega (arith, e', e'', v.0, LaidOut-grows w o ps (from + (o (g.callee q) + 1)) to v.1),
        )
    | inr ne ↦
        let (lo, hi) =
          LaidOut-within w o ps (from + (o (g.callee q) + 1)) to p v.1 (ground arith) in
        (omega (arith, lo), hi)
  ]

  -- The ranges of two calls of a list do not meet.
  data Disjoint (w o : ℕ → ℕ) (p q : ℕ) : Type 0 where
    same : p ≡ q → Disjoint w o p q
    less : w p + (o (g.callee p) + 1) ≤ w q → Disjoint w o p q
    more : w q + (o (g.callee q) + 1) ≤ w p → Disjoint w o p q

  LaidOut-Disjoint :
      (w o : ℕ → ℕ) (ps : List ℕ) (from to p q : ℕ)
      → LaidOut w o g.callee ps from to
      → has p ps ≡ true
      → has q ps ≡ true
      → Disjoint w o p q
  LaidOut-Disjoint w o [] from to p q v here there = absurd (ground arith)
  LaidOut-Disjoint w o (x ∷ ps) from to p q v here there =
      let next = from + (o (g.callee x) + 1) in
      elim (eq-cases x p) [
        | inl e ↦ elim (eq-cases x q) [
          | inl e' ↦ same (sym e ∙ e')
          | inr ne' ↦ less (
              subst (λ y. w y + (o (g.callee y) + 1) ≤ w q) e
                (omega (arith, v.0, LaidOut-within w o ps next to q v.1 (ground arith))))
        ]
        | inr ne ↦ elim (eq-cases x q) [
          | inl e' ↦ more (
              subst (λ y. w y + (o (g.callee y) + 1) ≤ w p) e'
                (omega (arith, v.0, LaidOut-within w o ps next to p v.1 (ground arith))))
          | inr ne' ↦ LaidOut-Disjoint w o ps next to p q v.1 (ground arith) (ground arith)
        ]
      ]

  -- The functions that were weighed, with their callees.
  record Encodes (order : List ℕ) (w : Weights) : Type 0 where
    ranges : (f : ℕ) → has f order ≡ true → IsWeighed g w f
    closed :
        (f p : ℕ) → has f order ≡ true → has p (g.callees f) ≡ true → has (g.callee p) order ≡ true

  encoding_low :
      (order : List ℕ) (w : Weights) (f : ℕ) (ps : List ℕ)
      → Encodes order w
      → has f order ≡ true
      → IsContext f ps
      → encoding w ps ≤ w.outbound f
  unfolding IsWeighed
  encoding_low order w f [] v here c = omega arith
  encoding_low order w f (p ∷ ps) v here c =
      let rest = encoding_low order w (g.callee p) ps v (v.closed f p here c.0) c.1 in
      omega (
        arith,
        rest,
        LaidOut-within w.edge_weight w.outbound (g.callees f) 0 (w.outbound f) p (v.ranges f here)
            c.0,
      )

  encoding_unique :
      (order : List ℕ) (w : Weights) (f : ℕ) (ps qs : List ℕ)
      → Encodes order w
      → has f order ≡ true
      → IsContext f ps
      → IsContext f qs
      → encoding w ps ≡ encoding w qs
      → ps ≡ qs
  unfolding IsWeighed
  encoding_unique order w f [] [] v here c d e = refl
  encoding_unique order w f [] (q ∷ qs) v here c d e =
      absurd (ground (arith, sym (ap (has q) c) ∙ d.0))
  encoding_unique order w f (p ∷ ps) [] v here c d e =
      absurd (ground (arith, sym (ap (has p) d) ∙ c.0))
  encoding_unique order w f (p ∷ ps) (q ∷ qs) v here c d e =
      let hi = encoding_low order w (g.callee p) ps v (v.closed f p here c.0) c.1 in
      let hi' = encoding_low order w (g.callee q) qs v (v.closed f q here d.0) d.1 in
      elim (LaidOut-Disjoint w.edge_weight w.outbound (g.callees f) 0 (w.outbound f) p q
        (v.ranges f here) c.0 d.0) [
          | same s ↦
              let d' : IsContext (g.callee p) qs = rw s d.1 in
              let e' : encoding w ps ≡ encoding w qs = omega (arith, e, ap w.edge_weight s) in
              let rest =
                encoding_unique order w (g.callee p) ps qs v (v.closed f p here c.0) c.1 d' e' in
              cc (s, rest)
          | less l ↦ absurd (omega (arith, e, l, hi))
          | more m ↦ absurd (omega (arith, e, m, hi'))
        ]

  Ordered-closed :
      (done order : List ℕ) (f p : ℕ)
      → Ordered g done order
      → has f order ≡ true
      → has p (g.callees f) ≡ true
      → (has (g.callee p) done || has (g.callee p) order) ≡ true
  Ordered-closed done [] f p o here q = absurd (ground arith)
  Ordered-closed done (h ∷ order) f p o here q = elim (eq-cases h f) [
    | inl e ↦ ground (arith, o.1 p (rw e q))
    | inr ne ↦ ground (arith, Ordered-closed (h ∷ done) order f p o.2 (ground arith) q)
  ]

  -- In a topological order, with less than 2 ^ 32 chains of calls from each function, two chains from
  -- the same function of the order to functions without callees that have the same sum of weights are
  -- the same chain.
  pub encoding-weigh :
      (caller : ℕ → ℕ) (order : List ℕ) (w : Weights) (f : ℕ) (ps qs : List ℕ)
      → IsCallGraph g caller
      → Ordered g [] order
      → AllSmall g order w
      → has f order ≡ true
      → IsContext f ps
      → IsContext f qs
      → encoding (weigh g order w) ps ≡ encoding (weigh g order w) qs
      → ps ≡ qs
  encoding-weigh caller order w f ps qs cg o small here c d e =
      encoding_unique order (weigh g order w) f ps qs
        (record {
          ranges = weigh-IsWeighed g caller order w cg o small;
          closed = λ h p q r. ground (arith, Ordered-closed [] order h p o q r);
        })
        here c d e
