-- ===== src/Frontend/Graph.antt =====
-- The call graph in frontend/src/InstrumentIR.cc: FlipFunctionMap, and ConstructFinalCFG, which keeps
-- the calls between relevant functions. Functions are numbers in the order of their names, a call is
-- the address of its CallPath, and a function without an entry in a map has no calls in it.
pub mod Agreement
use semalloc.Common.{
  ℕ, Bool, true, false, not, ◌&&◌, List, [], ◌∷◌, ltb, ◌==◌, if◌then◌else◌, has, length, update,
}

-- CallPath::PathType
pub data PathType : Type 0 where
  default mark_simple_loop mark_simple_inner mark_inner_branch mark_inbound mark_outbound
        mark_branch :
      PathType

pub record CallPath : Type 0 where
  pub callee : ℕ
  pub caller : ℕ
  pub path_type : PathType

abbrev pub Paths : Type 0
Paths = ℕ → CallPath

abbrev pub Calls : Type 0
Calls = ℕ → List ℕ

abbrev pub push_back : List ℕ → ℕ → List ℕ
push_back [] p = p ∷ []
push_back (q ∷ qs) p = q ∷ push_back qs p

-- The calls of one entry, each added to the calls of its caller.
unfoldable pub flip_entry : Paths → List ℕ → Calls → Calls
flip_entry paths [] flipped = flipped
flip_entry paths (p ∷ ps) flipped =
    let caller = (paths p).caller in
    flip_entry paths ps (update flipped caller (push_back (flipped caller) p))

-- The entries of FunctionMap are visited in the order of the callees' names.
unfoldable pub flip_function_map : Paths → Calls → List ℕ → Calls → Calls
unfolding flip_entry
flip_function_map paths function_map [] flipped = flipped
flip_function_map paths function_map (f ∷ fs) flipped =
    flip_function_map paths function_map fs (flip_entry paths (function_map f) flipped)

-- The callers of one function: not itself, and relevant too.
unfoldable pub relevant_callers : Paths → List ℕ → List ℕ → List ℕ
relevant_callers paths relevant [] = []
relevant_callers paths relevant (p ∷ ps) =
    let rest = relevant_callers paths relevant ps in
    if (paths p).caller == (paths p).callee
    then rest
    else (if has (paths p).caller relevant then p ∷ rest else rest)

unfoldable pub relevant_callees : Paths → List ℕ → List ℕ → List ℕ
relevant_callees paths relevant [] = []
relevant_callees paths relevant (p ∷ ps) =
    let rest = relevant_callees paths relevant ps in
    if (paths p).caller == (paths p).callee
    then rest
    else (if has (paths p).callee relevant then p ∷ rest else rest)

pub record FinalCfg : Type 0 where
  pub final_caller : Calls
  pub final_callee : Calls

-- The first loop of ConstructFinalCFG, over the relevant functions.
unfoldable pub construct_maps :
    Paths → (function_map flipped : Calls) → List ℕ → List ℕ → FinalCfg → FinalCfg
unfolding relevant_callers relevant_callees
construct_maps paths function_map flipped relevant [] cfg = cfg
construct_maps paths function_map flipped relevant (f ∷ fs) cfg =
    construct_maps paths function_map flipped relevant fs (record {
      final_caller = update cfg.final_caller f (relevant_callers paths relevant (function_map f));
      final_callee = update cfg.final_callee f (relevant_callees paths relevant (flipped f));
    })

unfoldable pub is_default : PathType → Bool
is_default PathType.default = true
is_default PathType.mark_simple_loop = false
is_default PathType.mark_simple_inner = false
is_default PathType.mark_inner_branch = false
is_default PathType.mark_inbound = false
is_default PathType.mark_outbound = false
is_default PathType.mark_branch = false

unfoldable pub mark_calls : List ℕ → Paths → Paths
unfolding is_default
mark_calls [] paths = paths
mark_calls (p ∷ ps) paths = mark_calls ps (
    if is_default (paths p).path_type
    then update paths p (record (paths p) { path_type = PathType.mark_branch })
    else paths)

-- The second loop: the calls of a function with more than one call are branches.
unfoldable pub mark_branches : Calls → List ℕ → Paths → Paths
unfolding mark_calls
mark_branches callers [] paths = paths
mark_branches callers (f ∷ fs) paths =
    mark_branches callers fs
      (if ltb 1 (length (callers f)) then mark_calls (callers f) paths else paths)

unfoldable pub construct_final_cfg :
    Paths → (function_map flipped : Calls) → List ℕ → FinalCfg × Paths
unfolding construct_maps mark_branches
construct_final_cfg paths function_map flipped relevant =
    let cfg =
      construct_maps paths function_map flipped relevant relevant
        (record { final_caller = λ _. []; final_callee = λ _. [] }) in
    (cfg, mark_branches cfg.final_caller relevant paths)
