-- ===== src/Examples/Cycles.antt =====
-- A cycle of two functions: 3 calls 1, 1 and 2 call each other, and 2 calls 0.
use semalloc.Common.{
  ℕ, ◌≡◌, ◌==◌, true, Option, none, some, List, [], ◌∷◌, if◌then◌else◌, refl, has, length, ltb,
  arith,
}
use semalloc.Frontend.Graph.{Paths, PathType, Calls, flip_function_map}
use semalloc.Frontend.Cycles.{mark_cycle_calls, contract_cycles}
use semalloc.Frontend.Cycles.Classify.{IsFlipped, IsIntra, classify, mark_cycle_calls-classify}
use semalloc.Frontend.Cycles.Linked.{IsLinked, contract_cycles-IsLinked}
use semalloc.Frontend.Cycles.Flip.{flip_function_map-IsFlipped}

abbrev pub paths : Paths
paths p =
    if p == 31
    then record { callee = 1; caller = 3; path_type = PathType.default }
    else if p == 12
    then record { callee = 2; caller = 1; path_type = PathType.default }
    else if p == 21
    then record { callee = 1; caller = 2; path_type = PathType.default }
    else record { callee = 0; caller = 2; path_type = PathType.default }

abbrev pub function_map : Calls
function_map f =
    if f == 0 then 20 ∷ [] else if f == 1 then 31 ∷ 21 ∷ [] else if f == 2 then 12 ∷ [] else []

abbrev pub flipped : Calls
flipped f =
    if f == 1 then 12 ∷ [] else if f == 2 then 20 ∷ 21 ∷ [] else if f == 3 then 31 ∷ [] else []

-- 9 is the name of the cycle.
abbrev flipped_intra : ℕ → Option ℕ
flipped_intra f = if f == 1 then some 9 else if f == 2 then some 9 else none

abbrev cycles : List (ℕ × List ℕ)
cycles = (9, 1 ∷ 2 ∷ []) ∷ []

pub paths-IsFlipped : IsFlipped paths function_map flipped
paths-IsFlipped = record {
  callee = λ f p h. ground arith;
  caller = λ f p h. ground arith;
  made = λ f p h. ground arith;
  called = λ f p h. ground arith;
  calls_once = λ f. ground arith;
  called_once = λ f. ground arith;
}

flipped_intra-IsIntra : IsIntra flipped_intra (1 ∷ 2 ∷ [])
flipped_intra-IsIntra = record {
  distinct = (refl, (refl, tt));
  member = λ f h. (9, ground arith);
  listed = λ f n e. ground arith;
}

mark_cycle_calls-classify_example :
    (paths' : Paths) × (mark_cycle_calls flipped_intra function_map flipped (1 ∷ 2 ∷ []) paths
      ≡ some paths')
    × ((f p : ℕ)
        → has p (function_map f) ≡ true
        → paths' p ≡ classify flipped_intra (ltb 1 (length (function_map f))) (paths p))
mark_cycle_calls-classify_example =
    mark_cycle_calls-classify flipped_intra paths function_map flipped (1 ∷ 2 ∷ []) paths-IsFlipped
      flipped_intra-IsIntra

-- The call from outside goes to the name of the cycle.
inbound_call :
    classify flipped_intra true (paths 31)
    ≡ record { callee = 9; caller = 3; path_type = PathType.mark_inbound }
unfolding classify
inbound_call = refl

contract_cycles-IsLinked_example :
    let after =
      contract_cycles cycles
        (record { function_map = function_map; flipped = flipped; loop_set = [] }) in
    (paths' : Paths) × (mark_cycle_calls flipped_intra function_map flipped (1 ∷ 2 ∷ []) paths
      ≡ some paths')
    × IsLinked paths' after.function_map after.flipped flipped_intra
contract_cycles-IsLinked_example =
    contract_cycles-IsLinked paths function_map flipped flipped_intra cycles [] paths-IsFlipped
      flipped_intra-IsIntra ((refl, (refl, tt)), tt) (λ f n e. ground arith)
      (λ f p n k c e e'. ground arith)

flip_function_map-IsFlipped_example :
    IsFlipped paths function_map
      (flip_function_map paths function_map (0 ∷ 1 ∷ 2 ∷ 3 ∷ []) (λ _. []))
flip_function_map-IsFlipped_example =
    flip_function_map-IsFlipped paths function_map (λ f p h. ground arith) (0 ∷ 1 ∷ 2 ∷ 3 ∷ [])
      (refl, (refl, (refl, (refl, tt)))) (λ f. ground arith) (λ f p h. ground arith)
