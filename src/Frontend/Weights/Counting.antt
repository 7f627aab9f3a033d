-- ===== src/Frontend/Weights/Counting.antt =====
-- What the weights count: chains of calls.
use semalloc.Common.{
  ℕ, zero, suc, ◌+◌, ◌≤◌, ◌≡◌, refl, ◌∙◌, ap, true, ◌||◌, List, [], ◌∷◌, ◌++◌, map, arith, inl, inr,
  subst, has, length, length-++, eq-cases,
}
use semalloc.Frontend.Weights.{CallGraph, Weights, weigh}
use semalloc.Frontend.Weights.Layout.{
  LaidOut, IsCallGraph, IsWeighed, Ordered, AllSmall, weigh-IsWeighed,
}

length-map : (p : ℕ) (cs : List (List ℕ)) → length (map (λ c. p ∷ c) cs) ≡ length cs
length-map p [] = refl
length-map p (c ∷ cs) = omega (arith, length-map p cs)

module _ (g : CallGraph) where
  -- The chains of one to `n` calls that start with one of the calls of a list, each call being made by
  -- the callee of the one before.
  unfoldable pub chains : ℕ → List ℕ → List (List ℕ)
  chains n [] = []
  chains zero (p ∷ ps) = []
  chains (suc n) (p ∷ ps) =
      ((p ∷ []) ∷ map (λ c. p ∷ c) (chains n (g.callees (g.callee p)))) ++ chains (suc n) ps

  length-chains :
      (n p : ℕ) (ps : List ℕ)
      → length (chains (suc n) (p ∷ ps))
        ≡ length (chains n (g.callees (g.callee p))) + 1 + length (chains (suc n) ps)
  unfolding chains
  length-chains n p ps = omega (
    arith,
    length-++ ((p ∷ []) ∷ map (λ c. p ∷ c) (chains n (g.callees (g.callee p)))) (chains (suc n) ps),
    length-map p (chains n (g.callees (g.callee p))),
  )

  -- The end of a range is its start and the number of the chains.
  LaidOut-counts :
      (w o : ℕ → ℕ) (n : ℕ) (ps : List ℕ) (from to : ℕ)
      → ((p : ℕ) → has p ps ≡ true → o (g.callee p) ≡ length (chains n (g.callees (g.callee p))))
      → LaidOut w o g.callee ps from to
      → to ≡ from + length (chains (suc n) ps)
  unfolding chains
  LaidOut-counts w o n [] from to below v = omega (arith, v)
  LaidOut-counts w o n (p ∷ ps) from to below v = omega (
    arith,
    LaidOut-counts w o n ps (from + (o (g.callee p) + 1)) to (λ q h. below q (ground arith)) v.1,
    below p (ground arith),
    length-chains n p ps,
  )

  -- The weight of a call is the number of chains from the calls before it.
  LaidOut-counts_before :
      (w o : ℕ → ℕ) (n : ℕ) (before : List ℕ) (p : ℕ) (after : List ℕ) (from to : ℕ)
      → ((q : ℕ)
          → has q (before ++ p ∷ after) ≡ true
          → o (g.callee q) ≡ length (chains n (g.callees (g.callee q))))
      → LaidOut w o g.callee (before ++ p ∷ after) from to
      → w p ≡ from + length (chains (suc n) before)
  unfolding chains
  LaidOut-counts_before w o n [] p after from to below v = omega (arith, v.0)
  LaidOut-counts_before w o n (q ∷ before) p after from to below v = omega (
    arith,
    LaidOut-counts_before w o n before p after (from + (o (g.callee q) + 1)) to
        (λ r h. below r (ground arith)) v.1,
    below q (ground arith),
    length-chains n q before,
  )

  -- The numbers of a function and of its calls, by the chains of at most `n` calls.
  pub record IsCounted (w : Weights) (n f : ℕ) : Type 0 where
    pub all : w.outbound f ≡ length (chains n (g.callees f))
    pub before :
        (earlier : List ℕ) (p : ℕ) (later : List ℕ)
        → g.callees f ≡ earlier ++ p ∷ later
        → w.edge_weight p ≡ length (chains n earlier)

  module _ (w : Weights) where
    IsCounted-next :
        (n f : ℕ)
        → IsWeighed g w f
        → ((p : ℕ) → has p (g.callees f) ≡ true → IsCounted w n (g.callee p))
        → IsCounted w (suc n) f
    unfolding IsWeighed
    IsCounted-next n f v below = record {
      all = omega (
        arith,
        LaidOut-counts w.edge_weight w.outbound n (g.callees f) 0 (w.outbound f)
            (λ p h. (below p h).all) v,
      );
      before = λ earlier p later e. omega (
        arith,
        LaidOut-counts_before w.edge_weight w.outbound n earlier p later 0 (w.outbound f)
            (λ q h. (below q (ap (has q) e ∙ h)).all)
            (subst (λ ps. LaidOut w.edge_weight w.outbound g.callee ps 0 (w.outbound f)) e v),
      );
    }

    order-IsCounted :
        (order done : List ℕ)
        → ((f : ℕ) → has f order ≡ true → IsWeighed g w f)
        → Ordered g done order
        → ((f : ℕ) → has f done ≡ true → (n : ℕ) → length done ≤ n → IsCounted w n f)
        → (f : ℕ) → (has f done || has f order) ≡ true
        → (n : ℕ) → length done + length order ≤ n
        → IsCounted w n f
    order-IsCounted [] done v o counted f here n enough =
        counted f (ground arith) n (omega (arith, enough))
    order-IsCounted (h ∷ order) done v o counted f here n enough =
        order-IsCounted order (h ∷ done) (λ k e. v k (ground arith)) o.2
          (λ k e m room. elim (eq-cases h k) [
            | inl same ↦ subst (IsCounted w m) same (here-IsCounted m room)
            | inr ne ↦ counted k (ground arith) m (omega (arith, room))
          ])
          f (ground arith) n (omega (arith, enough))
      where
        here-IsCounted : (m : ℕ) → suc (length done) ≤ m → IsCounted w m h
        here-IsCounted zero room = absurd (omega (arith, room))
        here-IsCounted (suc m) room =
            IsCounted-next m h (v h (ground arith))
              λ p e. counted (g.callee p) (o.1 p e) m (omega (arith, room))

  -- In a topological order, each call in the list of its caller alone and once, and a total below
  -- 2 ^ 32 for each function: ComputeEdgeWeight gives each function of the order the number of all
  -- chains of calls from it, and each of its calls the number of those that start with a call before
  -- it in the list. No chain has more calls than there are functions, so that any bound on the length
  -- that is no smaller gives the same numbers.
  pub weigh-IsCounted :
      (caller : ℕ → ℕ) (order : List ℕ) (w : Weights)
      → IsCallGraph g caller
      → Ordered g [] order
      → AllSmall g order w
      → (f n : ℕ) → has f order ≡ true
      → length order ≤ n
      → IsCounted (weigh g order w) n f
  weigh-IsCounted caller order w c o small f n here enough =
      order-IsCounted (weigh g order w) order [] (weigh-IsWeighed g caller order w c o small) o
        (λ k e m room. absurd (ground arith)) f here n (omega (arith, enough))
