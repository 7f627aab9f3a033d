-- ===== src/Frontend/Run/Edges.antt =====
-- The nodes of the graph that is searched for cycles are functions with calls between them.
use semalloc.Common.{
  ℕ, ◌≡◌, refl, Bool, true, false, ◌||◌, ◌&&◌, List, [], ◌∷◌, ◌++◌, arith, inl, inr, has, ◌==◌,
  Bool-cases, eq-cases, ◌⊎◌,
}
use semalloc.Frontend.Graph.{Paths, Calls}
use semalloc.Frontend.Weights.Layout.{AllDistinct}
use semalloc.Frontend.Cycles.{GraphLibrary, function_edges, graph_edges}

abbrev pub in_edges : ℕ → List (ℕ × ℕ) → Bool
in_edges f [] = false
in_edges f ((a, b) ∷ es) = (a == f) || ((b == f) || in_edges f es)

-- What the pass relies on: the nodes of a graph are ends of its edges, each listed once.
pub record IsGraphLibrary (library : GraphLibrary) : Type 0 where
  pub distinct : (es : List (ℕ × ℕ)) → AllDistinct (library.node_set es)
  pub ends : (es : List (ℕ × ℕ)) (f : ℕ) → has f (library.node_set es) ≡ true → in_edges f es ≡ true

in_edges-++ :
    (f : ℕ) (xs ys : List (ℕ × ℕ)) → in_edges f (xs ++ ys) ≡ (in_edges f xs || in_edges f ys)
in_edges-++ f [] ys = refl
in_edges-++ f ((a, b) ∷ xs) ys = ground (arith, in_edges-++ f xs ys)

module _ (paths : Paths) (mark_set : List ℕ) where
  function_edges-ends :
      (ps : List ℕ) (f : ℕ)
      → in_edges f (function_edges paths mark_set ps) ≡ true
      → (p : ℕ) × (has p ps ≡ true) × (((paths p).caller ≡ f) ⊎ ((paths p).callee ≡ f))
  unfolding function_edges
  function_edges-ends [] f h = cc
  function_edges-ends (p ∷ ps) f h =
      let inside = has (paths p).caller mark_set && has (paths p).callee mark_set in
      elim (Bool-cases inside) [
        | inl edge ↦ elim (eq-cases (paths p).caller f) [
          | inl e ↦ (p, ground arith, inl e)
          | inr ne ↦ elim (eq-cases (paths p).callee f) [
            | inl e ↦ (p, ground arith, inr e)
            | inr ne' ↦
                let (q, m, end) = function_edges-ends ps f (ground (arith, h, edge)) in
                (q, ground (arith, m), end)
          ]
        ]
        | inr out ↦
            let (q, m, end) = function_edges-ends ps f (ground (arith, h, out)) in
            (q, ground (arith, m), end)
      ]

  pub graph_edges-ends :
      (flipped : Calls) (fs : List ℕ) (f : ℕ)
      → in_edges f (graph_edges paths flipped mark_set fs) ≡ true
      → (g p : ℕ) × (has p (flipped g) ≡ true) × (((paths p).caller ≡ f) ⊎ ((paths p).callee ≡ f))
  unfolding graph_edges
  graph_edges-ends flipped [] f h = cc
  graph_edges-ends flipped (g ∷ gs) f h =
      let here = function_edges paths mark_set (flipped g) in
      let later = graph_edges paths flipped mark_set gs in
      elim (Bool-cases (in_edges f here)) [
        | inl now ↦ let (p, m, end) = function_edges-ends (flipped g) f now in (g, p, m, end)
        | inr out ↦ graph_edges-ends flipped gs f (ground (arith, h, out, in_edges-++ f here later))
      ]
