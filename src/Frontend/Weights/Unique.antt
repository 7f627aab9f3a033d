-- ===== src/Frontend/Weights/Unique.antt =====
-- ComputeEdgeWeight as a whole: the sort, then the weights.
use semalloc.Common.{ℕ, ◌^◌, ◌<◌, ◌≡◌, ◌∙◌, true, List, [], subst, has, length}
use semalloc.Frontend.Weights.{CallGraph, Weights, sorted, topological_order, weigh}
use semalloc.Frontend.Weights.Layout.{IsCallGraph, AllDistinct, AllSmall}
use semalloc.Frontend.Weights.Contexts.{encoding, IsContext, encoding-weigh}
use semalloc.Frontend.Weights.Sort.{IsResult, topological_order-IsResult}

-- For functions without repetition whose callees are among them, each call in the list of its caller
-- alone and once, and less than 2 ^ 32 chains of calls from each function, wherever they end: when
-- the sort gives an order, two chains of calls from the same function to functions without callees that have the same sum of
-- weights are the same chain.
pub topological_order_unique :
    (g : CallGraph) (caller : ℕ → ℕ) (functions order : List ℕ) (w : Weights) (f : ℕ)
    (ps qs : List ℕ)
    → IsCallGraph g caller
    → AllDistinct functions
    → ((h p : ℕ)
        → has h functions ≡ true
        → has p (g.callees h) ≡ true
        → has (g.callee p) functions ≡ true)
    → ((h : ℕ) → length (g.callees h) < 2 ^ 64)
    → topological_order g functions ≡ sorted order
    → AllSmall g order w
    → has f functions ≡ true
    → IsContext g f ps
    → IsContext g f qs
    → encoding (weigh g order w) ps ≡ encoding (weigh g order w) qs
    → ps ≡ qs
topological_order_unique g caller functions order w f ps qs cg d closed small e few here c c' same =
    let r : IsResult g [] functions (sorted order) =
      subst (IsResult g [] functions) e (topological_order-IsResult g functions d closed small) in
    encoding-weigh g caller order w f ps qs cg r.0 few (r.1 f ∙ here) c c' same
