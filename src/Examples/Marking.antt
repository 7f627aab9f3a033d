-- ===== src/Examples/Marking.antt =====
-- The marks of a small program: 0 and 1 are heap functions, 2 calls 0, and 3 calls 0, 1 and 2.
use semalloc.Common.{
  ℕ, ◌≡◌, ◌==◌, ◌||◌, true, false, none, some, List, [], ◌∷◌, if◌then◌else◌, refl, has, arith,
}
use semalloc.Frontend.Graph.{Paths, PathType, Calls}
use semalloc.Frontend.Traverse.Ends.{IsDomain}
use semalloc.Frontend.Marking.{
  Marks, mark_call, mark_callers, mark_heap_functions, mark_only_relevant_functions,
}
use semalloc.Frontend.Marking.Callers.{mark_heap_functions-Marks}
use semalloc.Frontend.Marking.Sound.{IsMarked, mark_only_relevant_functions-IsMarked}
use semalloc.Frontend.LoopMarking.{LoopMarks, mark_loop_relevant_functions}
use semalloc.Frontend.LoopMarking.Relevant.{IsLoopMarked, mark_loop_relevant_functions-IsLoopMarked}

abbrev paths : Paths
paths p =
    if p == 20
    then record { callee = 0; caller = 2; path_type = PathType.default }
    else if p == 30
    then record { callee = 0; caller = 3; path_type = PathType.default }
    else if p == 31
    then record { callee = 1; caller = 3; path_type = PathType.default }
    else record { callee = 2; caller = 3; path_type = PathType.default }

abbrev function_map : Calls
function_map f =
    if f == 0 then 20 ∷ 30 ∷ [] else if f == 1 then 31 ∷ [] else if f == 2 then 32 ∷ [] else []

abbrev flipped : Calls
flipped f = if f == 2 then 20 ∷ [] else if f == 3 then 30 ∷ 31 ∷ 32 ∷ [] else []

abbrev functions : List ℕ
functions = 0 ∷ 1 ∷ 2 ∷ 3 ∷ []

abbrev no_marks : Marks
no_marks = record { function_mark_set = []; is_relevant = λ _. false; calls_hmf = λ _. false }

abbrev marks : Marks
marks = record {
  function_mark_set = 2 ∷ 3 ∷ [];
  is_relevant = λ p. (p == 20) || (p == 30) || (p == 31);
  calls_hmf = λ p. (p == 20) || (p == 30) || (p == 31);
}

mark_heap_functions-no_marks :
    (mark_heap_functions paths function_map (0 ∷ 1 ∷ []) no_marks).function_mark_set ≡ 3 ∷ 2 ∷ []
unfolding mark_heap_functions mark_callers mark_call
mark_heap_functions-no_marks = refl

function_map-IsDomain : IsDomain function_map functions
function_map-IsDomain f out = ground arith

flipped-IsDomain : IsDomain flipped functions
flipped-IsDomain f out = ground arith

-- The call of heap function 1 comes after a call of heap function 0 in a function that is visited
-- already, and 1 stays without a mark.
mark_only_relevant_functions-marks :
    (m' : Marks) × (mark_only_relevant_functions paths function_map 8 flipped marks ≡ some m')
    × (m'.function_mark_set ≡ 0 ∷ 2 ∷ 3 ∷ [])
unfolding mark_only_relevant_functions
mark_only_relevant_functions-marks = (_, refl, refl)

mark_heap_functions-Marks_example :
    let m = mark_heap_functions paths function_map (0 ∷ 1 ∷ []) no_marks in
    (has 3 m.function_mark_set ≡ true) × (m.is_relevant 31 ≡ true) × (m.calls_hmf 31 ≡ true)
mark_heap_functions-Marks_example =
    mark_heap_functions-Marks paths function_map (0 ∷ 1 ∷ []) no_marks 3 31

mark_only_relevant_functions-IsMarked_example :
    (m' : Marks) × (mark_only_relevant_functions paths function_map 8 flipped marks ≡ some m')
    × IsMarked paths function_map flipped functions 8 marks m'
mark_only_relevant_functions-IsMarked_example =
    mark_only_relevant_functions-IsMarked paths function_map flipped functions 8 marks
      function_map-IsDomain (omega arith)

-- 2 has a loop. 3 calls 2, and both call 0.
mark_loop_relevant_functions-IsLoopMarked_example :
    (m : LoopMarks) × (mark_loop_relevant_functions paths function_map flipped 8
        (0 ∷ 2 ∷ 3 ∷ [])
        (2 ∷ [])
        (λ _. none)
        marks.is_relevant
      ≡ some m)
    × IsLoopMarked paths function_map flipped 8 (0 ∷ 2 ∷ 3 ∷ []) (2 ∷ []) (λ _. none) m
mark_loop_relevant_functions-IsLoopMarked_example =
    mark_loop_relevant_functions-IsLoopMarked paths function_map flipped 8 (0 ∷ 2 ∷ 3 ∷ []) (2 ∷ [])
      (λ _. none) marks.is_relevant functions function_map-IsDomain flipped-IsDomain (omega arith)
      (omega arith) (λ f n e. cc)

-- Of the two functions with loops, the first is below the second. The second one also calls 5, which
-- is marked, but only through 4, which the first one leads up to: 5 is not in the set.
abbrev chain : Paths
chain p =
    if p == 40
    then record { callee = 2; caller = 4; path_type = PathType.default }
    else if p == 54
    then record { callee = 5; caller = 4; path_type = PathType.default }
    else record { callee = 4; caller = 6; path_type = PathType.default }

abbrev chain_map : Calls
chain_map f = if f == 2 then 40 ∷ [] else if f == 5 then 54 ∷ [] else if f == 4 then 46 ∷ [] else []

abbrev chain_flipped : Calls
chain_flipped f = if f == 4 then 40 ∷ 54 ∷ [] else if f == 6 then 46 ∷ [] else []

mark_loop_relevant_functions-chain :
    (m : LoopMarks) × (mark_loop_relevant_functions chain chain_map chain_flipped 6
        (2 ∷ 4 ∷ 5 ∷ 6 ∷ [])
        (2 ∷ 6 ∷ [])
        (λ _. none)
        (λ _. false)
      ≡ some m)
    × (has 5 m.relevant_all ≡ false)
unfolding mark_loop_relevant_functions
mark_loop_relevant_functions-chain = (_, refl, refl)
