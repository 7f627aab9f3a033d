-- ===== src/Frontend/Checks.antt =====
-- The checks at the start of ComputeEdgeWeight of frontend/src/InstrumentIR.cc, which exit with a
-- message when the maps of ConstructFinalCFG do not fit together. `intra` tells the functions that
-- FlippedIntraFunctionMap has.
use semalloc.Common.{ℕ, Bool, true, not, ◌&&◌, ◌≡◌, refl, List, [], ◌∷◌, arith, has, ◌==◌}
use semalloc.Frontend.Graph.{Paths, FinalCfg}

-- A test of each call of a function.
unfoldable pub all_calls : (ℕ → Bool) → List ℕ → Bool
all_calls test [] = true
all_calls test (p ∷ ps) = test p && all_calls test ps

-- The first check: names of recursive functions are replaced, and the calls are in the right lists.
unfoldable pub check_ends : Paths → (ℕ → Bool) → FinalCfg → List ℕ → Bool
unfolding all_calls
check_ends paths intra cfg [] = true
check_ends paths intra cfg (f ∷ fs) =
    all_calls (λ p. not (intra (paths p).callee) && ((paths p).caller == f)) (cfg.final_callee f)
    && (all_calls (λ p. not (intra (paths p).caller) && ((paths p).callee == f))
          (cfg.final_caller f)
        && check_ends paths intra cfg fs)

-- The second check: a call of the callee map is in the caller map.
unfoldable pub check_callee_map : Paths → FinalCfg → List ℕ → Bool
unfolding all_calls
check_callee_map paths cfg [] = true
check_callee_map paths cfg (f ∷ fs) =
    all_calls (λ p. has p (cfg.final_caller (paths p).callee)) (cfg.final_callee f)
    && check_callee_map paths cfg fs

-- The third check, the other way round.
unfoldable pub check_caller_map : Paths → FinalCfg → List ℕ → Bool
unfolding all_calls
check_caller_map paths cfg [] = true
check_caller_map paths cfg (f ∷ fs) =
    all_calls (λ p. has p (cfg.final_callee (paths p).caller)) (cfg.final_caller f)
    && check_caller_map paths cfg fs

pub all_calls_pass :
    (test : ℕ → Bool) (ps : List ℕ)
    → ((p : ℕ) → has p ps ≡ true → test p ≡ true)
    → all_calls test ps ≡ true
unfolding all_calls
all_calls_pass test [] h = refl
all_calls_pass test (p ∷ ps) h =
    let rest = all_calls_pass test ps λ q e. h q (ground arith) in
    let here = h p (ground arith) in ground (arith, rest, here)

pub check_callee_map_pass :
    (paths : Paths) (cfg : FinalCfg) (fs : List ℕ)
    → ((f p : ℕ)
        → has f fs ≡ true
        → has p (cfg.final_callee f) ≡ true
        → has p (cfg.final_caller (paths p).callee) ≡ true)
    → check_callee_map paths cfg fs ≡ true
unfolding check_callee_map
check_callee_map_pass paths cfg [] h = refl
check_callee_map_pass paths cfg (f ∷ fs) h =
    let here =
      all_calls_pass (λ p. has p (cfg.final_caller (paths p).callee)) (cfg.final_callee f)
        λ p e. h f p (ground arith) e in
    let rest = check_callee_map_pass paths cfg fs λ k p e e'. h k p (ground arith) e' in
    ground (arith, here, rest)
