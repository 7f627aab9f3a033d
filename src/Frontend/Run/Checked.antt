-- ===== src/Frontend/Run/Checked.antt =====
-- The steps of run return, and ComputeEdgeWeight accepts the maps that they build.
use semalloc.Common.{
  ℕ, ◌≡◌, refl, ◌∙◌, Bool, true, false, not, ◌&&◌, Option, none, some, List, [], ◌∷◌, arith, inl,
  inr, ap, has, length, ltb, ◌==◌, update, Bool-cases,
}
use semalloc.Frontend.Graph.{
  Paths, PathType, Calls, FinalCfg, is_default, mark_calls, mark_branches, construct_maps,
  construct_final_cfg,
}
use semalloc.Frontend.Graph.Agreement.{construct_maps_callee, construct_maps_caller}
use semalloc.Frontend.Cycles.Linked.{IsLinked}
use semalloc.Frontend.Cycles.Whole.{SameEnds, SameEnds-trans, SameEnds-update}
use semalloc.Frontend.Checks.{
  all_calls_pass, check_ends, check_callee_map, check_caller_map, check_callee_map_pass,
}
use semalloc.Frontend.Run.{Analysed}

mark_calls-SameEnds : (ps : List ℕ) (paths : Paths) → SameEnds paths (mark_calls ps paths)
unfolding mark_calls
mark_calls-SameEnds [] paths = record { callees = λ p. refl; callers = λ p. refl }
mark_calls-SameEnds (p ∷ ps) paths = elim (Bool-cases (is_default (paths p).path_type)) [
  | inl yes' ↦
      let paths' = update paths p (record (paths p) { path_type = PathType.mark_branch }) in
      rw (yes', mark_calls)
        (SameEnds-trans paths paths' _ (SameEnds-update paths p PathType.mark_branch)
          (mark_calls-SameEnds ps paths'))
  | inr no' ↦ rw (no', mark_calls) (mark_calls-SameEnds ps paths)
]

mark_branches-SameEnds :
    (callers : Calls) (fs : List ℕ) (paths : Paths)
    → SameEnds paths (mark_branches callers fs paths)
unfolding mark_branches
mark_branches-SameEnds callers [] paths = record { callees = λ p. refl; callers = λ p. refl }
mark_branches-SameEnds callers (f ∷ fs) paths = elim (Bool-cases (ltb 1 (length (callers f)))) [
  | inl many ↦
      rw (many, mark_branches)
        (SameEnds-trans paths (mark_calls (callers f) paths) _
          (mark_calls-SameEnds (callers f) paths)
          (mark_branches-SameEnds callers fs (mark_calls (callers f) paths)))
  | inr one ↦ rw (one, mark_branches) (mark_branches-SameEnds callers fs paths)
]

check_caller_map_pass :
    (paths : Paths) (cfg : FinalCfg) (fs : List ℕ)
    → ((f p : ℕ)
        → has f fs ≡ true
        → has p (cfg.final_caller f) ≡ true
        → has p (cfg.final_callee (paths p).caller) ≡ true)
    → check_caller_map paths cfg fs ≡ true
unfolding check_caller_map
check_caller_map_pass paths cfg [] h = refl
check_caller_map_pass paths cfg (f ∷ fs) h =
    let here =
      all_calls_pass (λ p. has p (cfg.final_callee (paths p).caller)) (cfg.final_caller f)
        λ p e. h f p (ground arith) e in
    let rest = check_caller_map_pass paths cfg fs λ k p e e'. h k p (ground arith) e' in
    ground (arith, here, rest)

check_ends_pass :
    (paths : Paths) (intra : ℕ → Bool) (cfg : FinalCfg) (fs : List ℕ)
    → ((f p : ℕ)
        → has f fs ≡ true
        → has p (cfg.final_callee f) ≡ true
        → (intra (paths p).callee ≡ false) × ((paths p).caller ≡ f))
    → ((f p : ℕ)
        → has f fs ≡ true
        → has p (cfg.final_caller f) ≡ true
        → (intra (paths p).caller ≡ false) × ((paths p).callee ≡ f))
    → check_ends paths intra cfg fs ≡ true
unfolding check_ends
check_ends_pass paths intra cfg [] h k = refl
check_ends_pass paths intra cfg (f ∷ fs) h k =
    let callees =
      all_calls_pass (λ p. not (intra (paths p).callee) && ((paths p).caller == f))
        (cfg.final_callee f) λ p e. ground (arith, h f p, e) in
    let callers =
      all_calls_pass (λ p. not (intra (paths p).caller) && ((paths p).callee == f))
        (cfg.final_caller f) λ p e. ground (arith, k f p, e) in
    let rest =
      check_ends_pass paths intra cfg fs (λ g p e. h g p (ground (arith, e)))
        (λ g p e. k g p (ground (arith, e))) in
    ground (arith, callees, callers, rest)

abbrev pub is_member : (ℕ → Option ℕ) → ℕ → Bool
is_member flipped_intra f = elim (flipped_intra f) [ none ↦ false | some name ↦ true ]

-- The three checks at the start of ComputeEdgeWeight.
abbrev pub IsAccepted : Analysed → Type 0
IsAccepted a =
    (check_ends a.paths (is_member a.flipped_intra) a.cfg a.relevant_all ≡ true)
    × (check_callee_map a.paths a.cfg a.relevant_all ≡ true)
    × (check_caller_map a.paths a.cfg a.relevant_all ≡ true)

pub construct_final_cfg-IsAccepted :
    (paths : Paths) (function_map flipped : Calls) (flipped_intra : ℕ → Option ℕ)
    (relevant : List ℕ)
    → IsLinked paths function_map flipped flipped_intra
    → let (cfg, paths') = construct_final_cfg paths function_map flipped relevant in
      IsAccepted (record {
        paths = paths';
        cfg = cfg;
        relevant_all = relevant;
        flipped_intra = flipped_intra;
      })
unfolding construct_final_cfg
construct_final_cfg-IsAccepted paths function_map flipped flipped_intra relevant linked =
    let cfg =
      construct_maps paths function_map flipped relevant relevant
        (record { final_caller = λ _. []; final_callee = λ _. [] }) in
    let same = mark_branches-SameEnds cfg.final_caller relevant paths in
    let callee = λ (f q : ℕ).
      construct_maps_callee paths function_map flipped relevant f q linked.caller linked.called in
    let caller = λ (f q : ℕ).
      construct_maps_caller paths function_map flipped relevant f q linked.callee linked.made in
    let member = λ (f : ℕ) (e : flipped_intra f ≡ none).
      let no' : is_member flipped_intra f ≡ false = rw (e, is_member) refl in no' in
    (
      check_ends_pass _ (is_member flipped_intra) cfg relevant
          (λ f p here m.
            let (own, _, _, _, made) = callee f p here m in
            (
              ap (is_member flipped_intra) (same.callees p)
                  ∙ member (paths p).callee
                      (linked.called_free (paths p).callee p (linked.called f p made)),
              same.callers p ∙ own,
            ))
          (λ f p here m.
            let (own, _, made) = caller f p here m in
            (
              ap (is_member flipped_intra) (same.callers p)
                  ∙ member (paths p).caller
                      (linked.calling_free (paths p).caller p (linked.made f p made)),
              same.callees p ∙ own,
            )),
      check_callee_map_pass _ cfg relevant λ f p here m.
          ap (λ k. has p (cfg.final_caller k)) (same.callees p) ∙ (callee f p here m).3,
      check_caller_map_pass _ cfg relevant λ f p here m.
          ap (λ k. has p (cfg.final_callee k)) (same.callers p) ∙ (caller f p here m).1,
    )
