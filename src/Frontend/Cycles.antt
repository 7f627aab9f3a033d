-- ===== src/Frontend/Cycles.antt =====
-- instrIsInaLoop of frontend/src/InstrumentIR.cc: the calls in loops of their functions, and the cycles
-- of calls, each of which becomes one function with a name of its own.
pub mod Classify
pub mod Contract
pub mod Each
pub mod Flip
pub mod Kept
pub mod Linked
pub mod Named
pub mod Naming
pub mod Whole
use semalloc.Common.{
  ℕ, zero, suc, ◌+◌, Bool, true, false, ◌&&◌, Option, none, some, List, [], ◌∷◌, ◌++◌, has, insert,
  without, length, ltb, ◌==◌, if◌then◌else◌, update,
}
use semalloc.Frontend.Graph.{Paths, CallPath, PathType, Calls, push_back}
use semalloc.Frontend.Marking.{insert_all}

-- The first loop: `in_loop` is what LoopInfo says of the block of a call. The set gets the callee.
unfoldable pub mark_loop_calls : (ℕ → Bool) → ℕ → List ℕ → Paths × List ℕ → Paths × List ℕ
mark_loop_calls in_loop f [] (paths, loop_set) = (paths, loop_set)
mark_loop_calls in_loop f (p ∷ ps) (paths, loop_set) = mark_loop_calls in_loop f ps (
    if in_loop p
    then (
      update paths p (record (paths p) { path_type = PathType.mark_simple_loop }),
      insert f loop_set,
    )
    else (paths, loop_set))

unfoldable pub mark_loop_functions : (ℕ → Bool) → Calls → List ℕ → Paths × List ℕ → Paths × List ℕ
unfolding mark_loop_calls
mark_loop_functions in_loop function_map [] s = s
mark_loop_functions in_loop function_map (f ∷ fs) s =
    mark_loop_functions in_loop function_map fs (mark_loop_calls in_loop f (function_map f) s)

-- The edges of the graph that is searched for cycles: the calls between marked functions.
unfoldable pub function_edges : Paths → List ℕ → List ℕ → List (ℕ × ℕ)
function_edges paths mark_set [] = []
function_edges paths mark_set (p ∷ ps) =
    let rest = function_edges paths mark_set ps in
    let path = paths p in
    if has path.caller mark_set && has path.callee mark_set
    then (path.caller, path.callee) ∷ rest
    else rest

unfoldable pub graph_edges : Paths → Calls → (mark_set : List ℕ) → List ℕ → List (ℕ × ℕ)
unfolding function_edges
graph_edges paths flipped mark_set [] = []
graph_edges paths flipped mark_set (f ∷ fs) =
    function_edges paths mark_set (flipped f) ++ graph_edges paths flipped mark_set fs

-- CXXGraph: the nodes of the graph of some edges, and what its kosaraju gives.
pub record GraphLibrary : Type 0 where
  pub node_set : List (ℕ × ℕ) → List ℕ
  pub no_of_components : List (ℕ × ℕ) → ℕ
  pub scc_map : List (ℕ × ℕ) → ℕ → ℕ

unfoldable pub group_nodes : (ℕ → ℕ) → List ℕ → Calls → Calls
group_nodes component [] cycle_map = cycle_map
group_nodes component (f ∷ fs) cycle_map =
    group_nodes component fs
      (update cycle_map (component f) (push_back (cycle_map (component f)) f))

-- The components with more than one function, in the order of their numbers.
unfoldable pub real_cycles : Calls → (count first : ℕ) → List (List ℕ)
real_cycles cycle_map zero i = []
real_cycles cycle_map (suc n) i =
    let rest = real_cycles cycle_map n (i + 1) in
    if ltb 1 (length (cycle_map i)) then cycle_map i ∷ rest else rest

unfoldable pub function_cycles : GraphLibrary → List (ℕ × ℕ) → List (List ℕ)
unfolding group_nodes real_cycles
function_cycles library edges =
    let cycle_map = group_nodes (library.scc_map edges) (library.node_set edges) (λ _. []) in
    real_cycles cycle_map (library.no_of_components edges) 0

-- IntraFunctionMap as a list of names and members, FlippedIntraFunctionMap, and
-- RelevantLoopFunctionSet.
pub record NamedCycles : Type 0 where
  pub intra : List (ℕ × List ℕ)
  pub flipped_intra : ℕ → Option ℕ
  pub loop_set : List ℕ

abbrev pub cycle_count : List (ℕ × List ℕ) → ℕ
cycle_count [] = 0
cycle_count (_ ∷ cs) = suc (cycle_count cs)

abbrev pub members_of : List (ℕ × List ℕ) → List ℕ
members_of [] = []
members_of ((name, ms) ∷ cs) = ms ++ members_of cs

unfoldable pub set_names : ℕ → List ℕ → (ℕ → Option ℕ) → ℕ → Option ℕ
set_names name [] flipped_intra = flipped_intra
set_names name (f ∷ fs) flipped_intra = set_names name fs (update flipped_intra f (some name))

-- `intra_name i` is "CSSINTRA_" with the number i.
unfoldable pub name_cycles :
    (ℕ → ℕ) → (mark_set : List ℕ) → List (List ℕ) → NamedCycles → NamedCycles
unfolding set_names insert_all
name_cycles intra_name mark_set [] n = n
name_cycles intra_name mark_set ([] ∷ cycles) n = name_cycles intra_name mark_set cycles n
name_cycles intra_name mark_set ((f ∷ fs) ∷ cycles) n =
    let name = intra_name (cycle_count n.intra) in
    name_cycles intra_name mark_set cycles (
      if has f mark_set
      then record {
        intra = (name, f ∷ fs) ∷ n.intra;
        flipped_intra = set_names name (f ∷ fs) n.flipped_intra;
        loop_set = insert_all (f ∷ fs) n.loop_set;
      }
      else n)

-- A call made in a cycle, also one to another cycle. `none` is the use of a missing name, for which
-- the source puts an empty name into the map.
unfoldable pub mark_internal : (ℕ → Option ℕ) → CallPath → Option CallPath
mark_internal flipped_intra c = elim (flipped_intra c.caller) [
  | none ↦ none
  | some name ↦ elim (flipped_intra c.callee) [
    | some inner ↦
        some (record { callee = name; caller = name; path_type = PathType.mark_simple_inner })
    | none ↦ some (record c { caller = name; path_type = PathType.mark_outbound })
  ]
]

-- A call of a function of a cycle; `many` says that this one has more than one call.
unfoldable pub mark_inbound : (ℕ → Option ℕ) → (many : Bool) → CallPath → Option CallPath
mark_inbound flipped_intra many c =
    let inner = if many then PathType.mark_inner_branch else PathType.mark_simple_inner in
    if c.caller == c.callee
    then some (record c { path_type = inner })
    else elim (flipped_intra c.caller) [
      | some outer ↦ elim (flipped_intra c.callee) [
        | none ↦ none
        | some name ↦ elim (flipped_intra name) [
          | none ↦ none
          | some again ↦ some (record { callee = name; caller = again; path_type = inner })
        ]
      ]
      | none ↦ elim (flipped_intra c.callee) [
        | none ↦ none
        | some name ↦ some (record c { callee = name; path_type = PathType.mark_inbound })
      ]
    ]

unfoldable pub each_call : (CallPath → Option CallPath) → List ℕ → Paths → Option Paths
each_call f [] paths = some paths
each_call f (p ∷ ps) paths = elim (f (paths p)) [
  | none ↦ none
  | some c ↦ each_call f ps (update paths p c)
]

unfoldable pub each_function :
    (ℕ → CallPath → Option CallPath) → Calls → List ℕ → Paths → Option Paths
unfolding each_call
each_function g calls [] paths = some paths
each_function g calls (f ∷ fs) paths = elim (each_call (g f) (calls f) paths) [
  | none ↦ none
  | some paths' ↦ each_function g calls fs paths'
]

-- The loops over the members of the cycles: first over their calls, then over the calls of them.
unfoldable pub mark_cycle_calls :
    (ℕ → Option ℕ) → (function_map flipped : Calls) → (members : List ℕ) → Paths → Option Paths
unfolding each_function mark_internal mark_inbound
mark_cycle_calls flipped_intra function_map flipped members paths =
    elim (each_function (λ _. mark_internal flipped_intra) flipped members paths) [
      | none ↦ none
      | some paths' ↦
          each_function (λ f. mark_inbound flipped_intra (ltb 1 (length (function_map f))))
            function_map members paths'
    ]

-- The maps after a cycle is one function.
pub record Contracted : Type 0 where
  pub function_map : Calls
  pub flipped : Calls
  pub loop_set : List ℕ

unfoldable pub move_calls : ℕ → ℕ → Calls → Calls
move_calls name f calls = update (update calls name (calls name ++ calls f)) f []

-- The calls of one member go to the name of its cycle.
unfoldable pub contract_member : ℕ → ℕ → Contracted → Contracted
unfolding move_calls
contract_member name f s = record {
  function_map = move_calls name f s.function_map;
  flipped = move_calls name f s.flipped;
  loop_set = without f s.loop_set;
}

unfoldable pub contract_members : ℕ → List ℕ → Contracted → Contracted
unfolding contract_member
contract_members name [] s = s
contract_members name (f ∷ fs) s = contract_members name fs (contract_member name f s)

unfoldable pub contract_cycles : List (ℕ × List ℕ) → Contracted → Contracted
unfolding contract_members
contract_cycles [] s = s
contract_cycles ((name, members) ∷ cycles) s =
    contract_cycles cycles
      (contract_members name members (record s { loop_set = insert name s.loop_set }))

-- The whole function: the calls, the maps and the cycles after it.
pub record Looped : Type 0 where
  pub paths : Paths
  pub maps : Contracted
  pub cycles : NamedCycles

unfoldable pub find_cycles :
    GraphLibrary → (ℕ → ℕ) → Paths → Calls → (mark_set loop_set : List ℕ) → NamedCycles
unfolding graph_edges function_cycles name_cycles
find_cycles library intra_name paths flipped mark_set loop_set =
    name_cycles intra_name mark_set
      (function_cycles library (graph_edges paths flipped mark_set mark_set))
      (record { intra = []; flipped_intra = λ _. none; loop_set = loop_set })

unfoldable pub instr_is_in_a_loop :
    (in_loop : ℕ → Bool)
    → GraphLibrary
    → (ℕ → ℕ)
    → Paths
    → (function_map flipped : Calls) → (mark_set : List ℕ) → Option Looped
unfolding mark_loop_functions find_cycles mark_cycle_calls contract_cycles
instr_is_in_a_loop in_loop library intra_name paths function_map flipped mark_set =
    let (marked, loop_set) = mark_loop_functions in_loop function_map mark_set (paths, []) in
    let found = find_cycles library intra_name marked flipped mark_set loop_set in
    elim (mark_cycle_calls found.flipped_intra function_map flipped (members_of found.intra)
      marked) [
        | none ↦ none
        | some paths' ↦ some (record {
          paths = paths';
          maps = contract_cycles found.intra (record {
            function_map = function_map;
            flipped = flipped;
            loop_set = found.loop_set;
          });
          cycles = found;
        })
      ]
