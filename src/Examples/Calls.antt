-- ===== src/Examples/Calls.antt =====
-- Calls of a small program: 2 calls 1, 1 calls 0, and 1 calls itself.
use semalloc.Common.{
  ℕ, ◌≡◌, ◌==◌, true, false, none, List, [], ◌∷◌, if◌then◌else◌, refl, has, arith,
}
use semalloc.Frontend.Graph.{Paths, PathType, flip_function_map, construct_maps}
use semalloc.Frontend.Graph.Agreement.{construct_maps_agree}
use semalloc.Frontend.Recursion.{
  Track, returned, normal_dest, Calls, done, in_loop, out_bound, in_bound, before_in_loop,
  after_in_loop, run_calls,
}
use semalloc.Frontend.Recursion.Balance.{fits, Outcome, run_calls-Outcome}

abbrev paths : Paths
paths p =
    if p == 10
    then record { callee = 0; caller = 1; path_type = PathType.default }
    else (if p == 11
        then record { callee = 1; caller = 1; path_type = PathType.default }
        else record { callee = 1; caller = 2; path_type = PathType.default })

abbrev function_map : ℕ → List ℕ
function_map f = if f == 0 then 10 ∷ [] else if f == 1 then 11 ∷ 21 ∷ [] else []

abbrev functions : List ℕ
functions = 0 ∷ 1 ∷ 2 ∷ []

function_map_keyed : (h p : ℕ) → has p (function_map h) ≡ true → (paths p).callee ≡ h
function_map_keyed h p e = ground arith

construct_maps_agree_example :
    let flipped = flip_function_map paths function_map functions (λ _. []) in
    let cfg =
      construct_maps paths function_map flipped functions functions
        (record { final_caller = λ _. []; final_callee = λ _. [] }) in
    ((paths 21).caller ≡ 2)
    × (has (paths 21).callee functions ≡ true)
    × (((paths 21).caller == (paths 21).callee) ≡ false)
    × (has 21 (cfg.final_caller (paths 21).callee) ≡ true)
unfolding construct_maps flip_function_map
construct_maps_agree_example =
    construct_maps_agree paths function_map functions functions 2 21 function_map_keyed refl refl

abbrev start : Track
start = record {
  recursive_offset = 0;
  recursive_stack = λ _. 0;
  recursive_hash = 0;
  loop_layer = 0;
}

abbrev nested : Calls
nested = in_bound (in_loop 64 returned (out_bound (λ _. 64) done done) done) done

-- An invoke that goes on to its normal destination.
invoked : run_calls (in_loop 64 normal_dest done done) start ≡ none
unfolding run_calls before_in_loop after_in_loop
invoked = refl

run_calls-Outcome_example : Outcome start (fits 0 nested) (run_calls nested start)
run_calls-Outcome_example = run_calls-Outcome nested start (omega arith) (omega arith)
