-- ===== src/Frontend/Cycles/Classify.antt =====
-- What instrIsInaLoop makes of the calls of, in and to the cycles.
use semalloc.Common.{
  ℕ, ◌≡◌, refl, sym, ◌∙◌, Bool, true, false, Option, none, some, List, arith, inl, inr, ap, has,
  length, ltb, if◌then◌else◌, Bool-cases, Option-cases, eq-cases, ==_refl, ==_ne,
}
use semalloc.Frontend.Graph.{Paths, CallPath, PathType, Calls}
use semalloc.Frontend.Weights.Layout.{AllDistinct}
use semalloc.Frontend.Cycles.{mark_internal, mark_inbound, each_function, mark_cycle_calls}
use semalloc.Frontend.Cycles.Each.{each_function-Changed}

-- The call graph that the loops start from: each call once, in the entry of its callee and in that of
-- its caller.
pub record IsFlipped (paths : Paths) (function_map flipped : Calls) : Type 0 where
  pub callee : (f p : ℕ) → has p (function_map f) ≡ true → (paths p).callee ≡ f
  pub caller : (f p : ℕ) → has p (flipped f) ≡ true → (paths p).caller ≡ f
  pub made : (f p : ℕ) → has p (function_map f) ≡ true → has p (flipped (paths p).caller) ≡ true
  pub called : (f p : ℕ) → has p (flipped f) ≡ true → has p (function_map (paths p).callee) ≡ true
  pub calls_once : (f : ℕ) → AllDistinct (function_map f)
  pub called_once : (f : ℕ) → AllDistinct (flipped f)

-- The members of the cycles, each listed once.
pub record IsIntra (flipped_intra : ℕ → Option ℕ) (members : List ℕ) : Type 0 where
  pub distinct : AllDistinct members
  pub member : (f : ℕ) → has f members ≡ true → (n : ℕ) × (flipped_intra f ≡ some n)
  pub listed : (f n : ℕ) → flipped_intra f ≡ some n → has f members ≡ true

-- The outcome for one call, by the cycles of its caller and its callee.
unfoldable pub classify : (ℕ → Option ℕ) → (many : Bool) → CallPath → CallPath
classify flipped_intra many c = elim (flipped_intra c.caller) [
  | none ↦ elim (flipped_intra c.callee) [
    | none ↦ c
    | some name ↦ record c { callee = name; path_type = PathType.mark_inbound }
  ]
  | some name ↦ elim (flipped_intra c.callee) [
    | none ↦ record c { caller = name; path_type = PathType.mark_outbound }
    | some inner ↦ record {
      callee = name;
      caller = name;
      path_type = if many then PathType.mark_inner_branch else PathType.mark_simple_inner;
    }
  ]
]

-- The same after the first of the two loops.
unfoldable half : (ℕ → Option ℕ) → CallPath → CallPath
half flipped_intra c = elim (flipped_intra c.caller) [
  | none ↦ c
  | some name ↦ elim (flipped_intra c.callee) [
    | none ↦ record c { caller = name; path_type = PathType.mark_outbound }
    | some inner ↦ record { callee = name; caller = name; path_type = PathType.mark_simple_inner }
  ]
]

module _ (flipped_intra : ℕ → Option ℕ) where
  half-none : (c : CallPath) → flipped_intra c.caller ≡ none → half flipped_intra c ≡ c
  unfolding half
  half-none c out = rw (out, half) refl

  mark_internal-half :
      (c : CallPath) (n : ℕ)
      → flipped_intra c.caller ≡ some n
      → mark_internal flipped_intra c ≡ some (half flipped_intra c)
  unfolding mark_internal half
  mark_internal-half c n e = elim (Option-cases (flipped_intra c.callee)) [
    | inl out ↦ rw (e, out, mark_internal, half) refl
    | inr (k, in') ↦ rw (e, in', mark_internal, half) refl
  ]

  mark_inbound-classify :
      (many : Bool) (c : CallPath) (n : ℕ)
      → flipped_intra c.callee ≡ some n
      → mark_inbound flipped_intra many (half flipped_intra c)
        ≡ some (classify flipped_intra many c)
  unfolding mark_inbound half classify
  mark_inbound-classify many c n e = elim (Option-cases (flipped_intra c.caller)) [
    | inl out ↦ elim (eq-cases c.caller c.callee) [
      | inl self ↦ absurd (ground (arith, e, out, ap flipped_intra self))
      | inr ne ↦
          ap (mark_inbound flipped_intra many) (half-none c out)
          ∙ rw (==_ne c.caller c.callee ne, out, e, mark_inbound, classify) refl
    ]
    | inr (k, in') ↦ rw (in', e, half, classify, mark_inbound) (rw (==_refl k) refl)
  ]

  half-outside :
      (many : Bool) (c : CallPath)
      → flipped_intra c.callee ≡ none
      → half flipped_intra c ≡ classify flipped_intra many c
  unfolding half classify
  half-outside many c e = elim (Option-cases (flipped_intra c.caller)) [
    | inl out ↦ rw (out, e, half, classify) refl
    | inr (n, in') ↦ rw (in', e, half, classify) refl
  ]

  module _ (paths : Paths) (function_map flipped : Calls) (members : List ℕ)
      (graph : IsFlipped paths function_map flipped) (intra : IsIntra flipped_intra members) where
    not_listed : (f : ℕ) → has f members ≡ false → flipped_intra f ≡ none
    not_listed f out = elim (Option-cases (flipped_intra f)) [
      | inl e ↦ e
      | inr (n, e) ↦ absurd (ground (arith, intra.listed f n e, out))
    ]

    -- After the first loop.
    internal-half :
        (paths' : Paths) × (each_function (λ _. mark_internal flipped_intra) flipped members paths
          ≡ some paths')
        × ((f p : ℕ) → has p (function_map f) ≡ true → paths' p ≡ half flipped_intra (paths p))
    internal-half =
        let (paths', returns, inside, outside) =
          each_function-Changed (λ _. mark_internal flipped_intra)
            (λ q. half flipped_intra (paths q)) (λ q. (paths q).caller) flipped members paths
            intra.distinct graph.called_once graph.caller
            (λ f q m c.
              let (n, e) = intra.member f m in
              mark_internal-half (paths q) n (ap flipped_intra (graph.caller f q c) ∙ e)) in
        (
          paths',
          returns,
          λ f p c. elim (Bool-cases (has (paths p).caller members)) [
            | inl m ↦ inside (paths p).caller p m (graph.made f p c)
            | inr out ↦
                outside p (λ k m. elim (Bool-cases (has p (flipped k))) [
                  | inr no_call ↦ no_call
                  | inl call ↦
                      absurd
                        (ground (arith, m, out, ap (λ i. has i members) (graph.caller k p call)))
                ])
                ∙ sym (half-none (paths p) (not_listed (paths p).caller out))
          ],
        )

    -- For a call graph in which each call stands once with its callee and once with its caller, and
    -- members of cycles that are listed once, the two loops over the members use no missing name, and
    -- give each call what its ends ask for: a call into a cycle gets the name of the cycle as its callee
    -- and is inbound, a call out of a cycle gets the name as its caller and is outbound, a call between
    -- members gets the name of the caller's cycle at both ends and is a branch if its callee has more
    -- calls, and another call stays as it is.
    pub mark_cycle_calls-classify :
        (paths' : Paths) × (mark_cycle_calls flipped_intra function_map flipped members paths
          ≡ some paths')
        × ((f p : ℕ)
            → has p (function_map f) ≡ true
            → paths' p ≡ classify flipped_intra (ltb 1 (length (function_map f))) (paths p))
    unfolding mark_cycle_calls
    mark_cycle_calls-classify =
        let (first, returns, halves) = internal-half in
        let many = λ (f : ℕ). ltb 1 (length (function_map f)) in
        let (paths', ends, inside, outside) =
          each_function-Changed (λ f. mark_inbound flipped_intra (many f))
            (λ q. classify flipped_intra (many (paths q).callee) (paths q)) (λ q. (paths q).callee)
            function_map members first intra.distinct graph.calls_once graph.callee
            (λ f q m c.
              let (n, e) = intra.member f m in
              ap (mark_inbound flipped_intra (many f)) (halves f q c)
              ∙ ap (λ k. mark_inbound flipped_intra (many k) (half flipped_intra (paths q)))
                  (sym (graph.callee f q c))
              ∙ mark_inbound-classify (many (paths q).callee) (paths q) n
                  (ap flipped_intra (graph.callee f q c) ∙ e)) in
        (
          paths',
          rw (returns, mark_cycle_calls) ends,
          λ f p c. elim (Bool-cases (has f members)) [
            | inl m ↦
                inside f p m c
                ∙ ap (λ k. classify flipped_intra (many k) (paths p)) (graph.callee f p c)
            | inr out ↦
                outside p (λ k m. elim (Bool-cases (has p (function_map k))) [
                  | inr no_call ↦ no_call
                  | inl call ↦ absurd (
                      ground (
                        arith,
                        m,
                        out,
                        ap (λ i. has i members) (sym (graph.callee k p call) ∙ graph.callee f p c),
                      ))
                ])
                ∙ halves f p c
                ∙ half-outside (many f) (paths p)
                    (ap flipped_intra (graph.callee f p c) ∙ not_listed f out)
          ],
        )
