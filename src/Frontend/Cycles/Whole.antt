-- ===== src/Frontend/Cycles/Whole.antt =====
-- instrIsInaLoop as a whole: it returns, and the call graph that it leaves is one again.
use semalloc.Common.{
  ℕ, ◌≡◌, ◌≢◌, refl, sym, ◌∙◌, Bool, true, none, some, List, [], ◌∷◌, arith, inl, inr, ap, has,
  insert, update, update_self, update_ne, Bool-cases, Option-cases, eq-cases,
}
use semalloc.Frontend.Graph.{Paths, CallPath, PathType, Calls}
use semalloc.Frontend.Weights.Layout.{AllDistinct}
use semalloc.Frontend.Cycles.{
  GraphLibrary, NamedCycles, mark_loop_calls, mark_loop_functions, graph_edges, find_cycles,
  function_cycles, contract_cycles, Looped, instr_is_in_a_loop,
}
use semalloc.Frontend.Cycles.Classify.{IsFlipped}
use semalloc.Frontend.Cycles.Naming.{
  IsGrouped, group_nodes-IsGrouped, real_cycles-own, real_cycles-AllDistinct,
}
use semalloc.Frontend.Cycles.Named.{IsNamedCycles, name_cycles-IsNamedCycles}
use semalloc.Frontend.Cycles.Linked.{IsLinked, contract_cycles-IsLinked}

-- The marks of the first loop leave the ends of the calls.
pub record SameEnds (a b : Paths) : Type 0 where
  pub callees : (p : ℕ) → (b p).callee ≡ (a p).callee
  pub callers : (p : ℕ) → (b p).caller ≡ (a p).caller

pub SameEnds-trans : (a b c : Paths) → SameEnds a b → SameEnds b c → SameEnds a c
SameEnds-trans a b c h k = record {
  callees = λ p. k.callees p ∙ h.callees p;
  callers = λ p. k.callers p ∙ h.callers p;
}

pub SameEnds-update :
    (a : Paths) (p : ℕ) (t : PathType) → SameEnds a (update a p (record (a p) { path_type = t }))
SameEnds-update a p t =
    let c : CallPath = record (a p) { path_type = t } in
    record {
      callees = λ q. elim (eq-cases p q) [
        | inl e ↦
            ap (λ k. (update a p c k).callee) (sym e)
            ∙ ap (λ k. k.callee) (update_self a p c)
            ∙ ap (λ k. (a k).callee) e
        | inr ne ↦ ap (λ k. k.callee) (update_ne a p q c ne)
      ];
      callers = λ q. elim (eq-cases p q) [
        | inl e ↦
            ap (λ k. (update a p c k).caller) (sym e)
            ∙ ap (λ k. k.caller) (update_self a p c)
            ∙ ap (λ k. (a k).caller) e
        | inr ne ↦ ap (λ k. k.caller) (update_ne a p q c ne)
      ];
    }

mark_loop_calls-SameEnds :
    (in_loop : ℕ → Bool) (f : ℕ) (ps : List ℕ) (paths : Paths) (set : List ℕ)
    → SameEnds paths (mark_loop_calls in_loop f ps (paths, set)).0
unfolding mark_loop_calls
mark_loop_calls-SameEnds in_loop f [] paths set = record {
  callees = λ p. refl;
  callers = λ p. refl;
}
mark_loop_calls-SameEnds in_loop f (p ∷ ps) paths set = elim (Bool-cases (in_loop p)) [
  | inl yes' ↦
      let paths' = update paths p (record (paths p) { path_type = PathType.mark_simple_loop }) in
      rw (yes', mark_loop_calls)
        (SameEnds-trans paths paths' _ (SameEnds-update paths p PathType.mark_simple_loop)
          (mark_loop_calls-SameEnds in_loop f ps paths' (insert f set)))
  | inr no' ↦ rw (no', mark_loop_calls) (mark_loop_calls-SameEnds in_loop f ps paths set)
]

pub mark_loop_functions-SameEnds :
    (in_loop : ℕ → Bool) (function_map : Calls) (fs : List ℕ) (paths : Paths) (set : List ℕ)
    → SameEnds paths (mark_loop_functions in_loop function_map fs (paths, set)).0
unfolding mark_loop_functions
mark_loop_functions-SameEnds in_loop function_map [] paths set = record {
  callees = λ p. refl;
  callers = λ p. refl;
}
mark_loop_functions-SameEnds in_loop function_map (f ∷ fs) paths set =
    let (paths', set') = mark_loop_calls in_loop f (function_map f) (paths, set) in
    SameEnds-trans paths paths' _ (mark_loop_calls-SameEnds in_loop f (function_map f) paths set)
      (mark_loop_functions-SameEnds in_loop function_map fs paths' set')

IsFlipped-SameEnds :
    (a b : Paths) (function_map flipped : Calls)
    → SameEnds a b
    → IsFlipped a function_map flipped
    → IsFlipped b function_map flipped
IsFlipped-SameEnds a b function_map flipped same h = record {
  callee = λ f p c. same.callees p ∙ h.callee f p c;
  caller = λ f p c. same.callers p ∙ h.caller f p c;
  made = λ f p c. ap (λ k. has p (flipped k)) (same.callers p) ∙ h.made f p c;
  called = λ f p c. ap (λ k. has p (function_map k)) (same.callees p) ∙ h.called f p c;
  calls_once = h.calls_once;
  called_once = h.called_once;
}

find_cycles-IsNamedCycles :
    (library : GraphLibrary) (intra_name : ℕ → ℕ) (paths : Paths) (flipped : Calls)
    (mark_set loop_set : List ℕ)
    → let nodes = library.node_set (graph_edges paths flipped mark_set mark_set) in
      AllDistinct nodes
      → IsNamedCycles intra_name nodes
          (find_cycles library intra_name paths flipped mark_set loop_set)
unfolding find_cycles function_cycles
find_cycles-IsNamedCycles library intra_name paths flipped mark_set loop_set distinct =
    let edges = graph_edges paths flipped mark_set mark_set in
    let nodes = library.node_set edges in
    let component = library.scc_map edges in
    let none' : Calls = λ _. [] in
    let empty : IsGrouped component nodes none' = record {
      own = λ i f (m : has f [] ≡ true). absurd (ground (arith, m));
      distinct = λ i. tt;
    } in
    let start : NamedCycles = record {
      intra = [];
      flipped_intra = λ _. none;
      loop_set = loop_set;
    } in
    let begin : IsNamedCycles intra_name nodes start = record {
      intra = record { distinct = tt; member = λ f m. absurd (ground arith); listed = λ f k e. cc };
      within = λ f m. cc;
      named = tt;
      source = λ f k e. cc;
    } in
    let grouped =
      group_nodes-IsGrouped component nodes nodes (λ _. []) distinct (λ f m. m) (λ i f m. refl)
        empty in
    name_cycles-IsNamedCycles intra_name mark_set nodes (function_cycles library edges) start
      (real_cycles-AllDistinct component nodes _ grouped (library.no_of_components edges) 0)
      (λ f m. refl)
      (λ f m. (real_cycles-own component nodes _ grouped (library.no_of_components edges) 0 f m).1)
      begin

module _ (in_loop : ℕ → Bool) (library : GraphLibrary) (intra_name : ℕ → ℕ) (paths : Paths)
    (function_map flipped : Calls) (mark_set : List ℕ) where
  pub instr_is_in_a_loop-made :
      let (marked, loop_set) = mark_loop_functions in_loop function_map mark_set (paths, []) in
      let nodes = library.node_set (graph_edges marked flipped mark_set mark_set) in
      let cycle = (find_cycles library intra_name marked flipped mark_set loop_set).flipped_intra in
      IsFlipped paths function_map flipped
      → AllDistinct nodes
      → ((f i : ℕ) → has f nodes ≡ true → f ≢ intra_name i)
      → ((f p n k : ℕ)
          → has p (function_map f) ≡ true
          → cycle (paths p).caller ≡ some n
          → cycle (paths p).callee ≡ some k
          → n ≡ k)
      → (s : Looped) × (instr_is_in_a_loop in_loop library intra_name paths function_map flipped
            mark_set
          ≡ some s)
        × IsLinked s.paths s.maps.function_map s.maps.flipped s.cycles.flipped_intra
        × ((f n : ℕ) → s.cycles.flipped_intra f ≡ some n → s.cycles.flipped_intra n ≡ none)
        × (s.maps
            ≡ contract_cycles s.cycles.intra (record {
              function_map = function_map;
              flipped = flipped;
              loop_set = s.cycles.loop_set;
            }))
  unfolding instr_is_in_a_loop
  instr_is_in_a_loop-made graph distinct fresh apart =
      let (marked, loop_set) = mark_loop_functions in_loop function_map mark_set (paths, []) in
      let same = mark_loop_functions-SameEnds in_loop function_map mark_set paths [] in
      let found = find_cycles library intra_name marked flipped mark_set loop_set in
      let named =
        find_cycles-IsNamedCycles library intra_name marked flipped mark_set loop_set distinct in
      let not_member = λ (f n : ℕ) (e : found.flipped_intra f ≡ some n).
        let free : found.flipped_intra n ≡ none =
          let (i, source) = named.source f n e in
          elim (Option-cases (found.flipped_intra n)) [
            | inl out ↦ out
            | inr (k, in') ↦ absurd (fresh n i (named.within n (named.intra.listed n k in')) source)
          ] in
        free in
      let (paths', returns, linked) =
        contract_cycles-IsLinked marked function_map flipped found.flipped_intra found.intra
          found.loop_set (IsFlipped-SameEnds paths marked function_map flipped same graph)
          named.intra named.named not_member
          (λ f p n k c e e'.
            apart f p n k c (ap found.flipped_intra (sym (same.callers p)) ∙ e)
              (ap found.flipped_intra (sym (same.callees p)) ∙ e')) in
      (
        record {
          paths = paths';
          maps = contract_cycles found.intra (record {
            function_map = function_map;
            flipped = flipped;
            loop_set = found.loop_set;
          });
          cycles = found;
        },
        rw (returns, instr_is_in_a_loop) refl,
        linked,
        not_member,
        refl,
      )

  -- Let each call stand once with its callee and once with its caller, the nodes that the graph library
  -- lists be different ones and not names of cycles, and no call go from a cycle that is found to
  -- another one. Then instrIsInaLoop returns, FunctionMap has each call with its callee and
  -- FlippedFunctionMap with its caller, by the names that the call has then, a call in one map is in the
  -- other, and no member of a cycle has calls any more.
  pub instr_is_in_a_loop-IsLinked :
      let (marked, loop_set) = mark_loop_functions in_loop function_map mark_set (paths, []) in
      let nodes = library.node_set (graph_edges marked flipped mark_set mark_set) in
      let cycle = (find_cycles library intra_name marked flipped mark_set loop_set).flipped_intra in
      IsFlipped paths function_map flipped
      → AllDistinct nodes
      → ((f i : ℕ) → has f nodes ≡ true → f ≢ intra_name i)
      → ((f p n k : ℕ)
          → has p (function_map f) ≡ true
          → cycle (paths p).caller ≡ some n
          → cycle (paths p).callee ≡ some k
          → n ≡ k)
      → (s : Looped) × (instr_is_in_a_loop in_loop library intra_name paths function_map flipped
            mark_set
          ≡ some s)
        × IsLinked s.paths s.maps.function_map s.maps.flipped s.cycles.flipped_intra
  instr_is_in_a_loop-IsLinked graph distinct fresh apart =
      let (s, returns, linked, _, _) = instr_is_in_a_loop-made graph distinct fresh apart in
      (s, returns, linked)
