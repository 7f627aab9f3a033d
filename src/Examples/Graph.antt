-- ===== src/Examples/Graph.antt =====
-- The weights of a small call graph: 3 calls 1 and 2, and both of them call 0.
use semalloc.Common.{true, ℕ, ◌≡◌, List, [], ◌∷◌, ◌==◌, if◌then◌else◌, refl, arith}
use semalloc.Frontend.Weights.{CallGraph, Weights, Sorted, topological_order, weigh_function, weigh}
use semalloc.Frontend.Weights.Layout.{IsCallGraph, Ordered, AllSmall}
use semalloc.Frontend.Weights.Counting.{chains, IsCounted, weigh-IsCounted}
use semalloc.Frontend.Weights.Sort.{IsResult, topological_order-IsResult}
use semalloc.Frontend.Weights.Unique.{topological_order_unique}
use semalloc.Common.{has, length, ◌^◌, ◌<◌}
use semalloc.Frontend.Weights.Layout.{AllDistinct}
use semalloc.Frontend.Weights.Contexts.{encoding}

abbrev diamond : CallGraph
diamond = record {
  callees = λ f.
      if f == 1 then 10 ∷ [] else if f == 2 then 20 ∷ [] else if f == 3 then 31 ∷ 32 ∷ [] else [];
  callee = λ p. if p == 31 then 1 else if p == 32 then 2 else 0;
}

abbrev caller : ℕ → ℕ
caller p = if p == 10 then 1 else if p == 20 then 2 else 3

abbrev no_weights : Weights
no_weights = record { edge_weight = λ _. 0; outbound = λ _. 0 }

abbrev order : List ℕ
order = 0 ∷ 1 ∷ 2 ∷ 3 ∷ []

topological_order-diamond : topological_order diamond (0 ∷ 1 ∷ 2 ∷ 3 ∷ []) ≡ Sorted.sorted order
unfolding topological_order
topological_order-diamond = refl

two_contexts :
    (encoding (weigh diamond order no_weights) (31 ∷ 10 ∷ []) ≡ 0)
    × (encoding (weigh diamond order no_weights) (32 ∷ 20 ∷ []) ≡ 2)
unfolding weigh
two_contexts = (refl, refl)

diamond-IsCallGraph : IsCallGraph diamond caller
diamond-IsCallGraph = record { owned = λ f p h. ground arith; once = λ f. ground arith }

diamond-Ordered : Ordered diamond [] order
diamond-Ordered =
    ((
      refl,
      λ p h. ground arith,
      (refl, λ p h. ground arith, (refl, λ p h. ground arith, (refl, λ p h. ground arith, tt))),
    ))

diamond-AllSmall : AllSmall diamond order no_weights
unfolding weigh_function
diamond-AllSmall = (omega arith, (omega arith, (omega arith, (omega arith, tt))))

-- The chains from 3, of one and of two calls.
four_chains :
    chains diamond 4 (diamond.callees 3)
    ≡ (31 ∷ []) ∷ (31 ∷ 10 ∷ []) ∷ (32 ∷ []) ∷ (32 ∷ 20 ∷ []) ∷ []
unfolding chains
four_chains = refl

weigh-IsCounted_example : IsCounted diamond (weigh diamond order no_weights) 4 3
weigh-IsCounted_example =
    weigh-IsCounted diamond caller order no_weights diamond-IsCallGraph diamond-Ordered
      diamond-AllSmall 3 4 refl (omega arith)

abbrev context : List ℕ
context = 31 ∷ 10 ∷ []

diamond-closed :
    (h p : ℕ)
    → has h order ≡ true
    → has p (diamond.callees h) ≡ true
    → has (diamond.callee p) order ≡ true
diamond-closed h p e e' = ground arith

diamond-short : (h : ℕ) → length (diamond.callees h) < 2 ^ 64
diamond-short h = ground arith

order-AllDistinct : AllDistinct order
order-AllDistinct = (refl, (refl, (refl, (refl, tt))))

topological_order-IsResult_example : IsResult diamond [] order (topological_order diamond order)
topological_order-IsResult_example =
    topological_order-IsResult diamond order order-AllDistinct diamond-closed diamond-short

topological_order_unique_example : context ≡ context
topological_order_unique_example =
    topological_order_unique diamond caller order order no_weights 3 context context
      diamond-IsCallGraph order-AllDistinct diamond-closed diamond-short topological_order-diamond
      diamond-AllSmall refl (refl, (refl, refl)) (refl, (refl, refl)) refl
