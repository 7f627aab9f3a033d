-- ===== src/Frontend/Carry.antt =====
-- The first loop of doModulePass of frontend/src/InstrumentIR.cc: the weight of a call that is not
-- marked is carried to the calls of its callee.
use semalloc.Common.{ℕ, ◌+◌, ◌%◌, ◌^◌, List, [], ◌∷◌, if◌then◌else◌, update}
use semalloc.Frontend.Graph.{Paths, PathType, Calls, is_default, push_back}

pub record Marked : Type 0 where
  pub paths : Paths
  pub edge_weight : ℕ → ℕ

-- `ChildrenCallPath->edgeWeight += CallPath->edgeWeight`, on 32-bit words. The weight of the call is
-- read for each child.
unfoldable pub add_weight : ℕ → List ℕ → (ℕ → ℕ) → ℕ → ℕ
add_weight p [] weight = weight
add_weight p (q ∷ qs) weight = add_weight p qs (update weight q ((weight q + weight p) % 2 ^ 32))

unfoldable pub carry_call : Calls → ℕ → Marked → Marked
unfolding add_weight is_default
carry_call callees p m =
    let path = m.paths p in
    let mark = record m {
      paths = update m.paths p (record path { path_type = PathType.mark_branch });
    } in
    let children = callees path.callee in
    if is_default path.path_type
    then elim children [
      | [] ↦ mark
      | q ∷ qs ↦ record m { edge_weight = add_weight p (q ∷ qs) m.edge_weight }
    ]
    else m

unfoldable pub carry_calls : Calls → List ℕ → Marked → Marked
unfolding carry_call
carry_calls callees [] m = m
carry_calls callees (p ∷ ps) m = carry_calls callees ps (carry_call callees p m)

unfoldable pub reverse_order : List ℕ → List ℕ
reverse_order [] = []
reverse_order (f ∷ fs) = push_back (reverse_order fs) f

unfoldable pub carry_functions : Calls → List ℕ → Marked → Marked
unfolding carry_calls
carry_functions callees [] m = m
carry_functions callees (f ∷ fs) m = carry_functions callees fs (carry_calls callees (callees f) m)

-- Callers come before their callees.
unfoldable pub carry_weights : Calls → List ℕ → Marked → Marked
unfolding carry_functions reverse_order
carry_weights callees order m = carry_functions callees (reverse_order order) m
