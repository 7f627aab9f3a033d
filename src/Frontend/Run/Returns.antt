-- ===== src/Frontend/Run/Returns.antt =====
-- The steps of InstrumentIRPass::run on a program return, and their maps pass the checks.
use semalloc.Common.{
  ℕ, ◌+◌, ◌≡◌, ◌≢◌, refl, sym, ◌∙◌, true, Option, none, some, List, [], arith, inl, inr, ap, subst,
  has,
}
use semalloc.Frontend.Graph.{construct_final_cfg}
use semalloc.Frontend.Weights.Layout.{AllDistinct}
use semalloc.Frontend.Traverse.Ends.{total, IsDomain}
use semalloc.Frontend.Marking.{Marks}
use semalloc.Frontend.Marking.Sound.{mark_only_relevant_functions-IsMarked}
use semalloc.Frontend.LoopMarking.Relevant.{mark_loop_relevant_functions-IsLoopMarked}
use semalloc.Frontend.Cycles.{Looped, mark_loop_functions, graph_edges, find_cycles}
use semalloc.Frontend.Cycles.Classify.{IsFlipped}
use semalloc.Frontend.Cycles.Flip.{flip_function_map-IsFlipped}
use semalloc.Frontend.Cycles.Linked.{IsLinked}
use semalloc.Frontend.Cycles.Whole.{mark_loop_functions-SameEnds, instr_is_in_a_loop-made}
use semalloc.Frontend.Run.{
  Program, flip_program, do_initialization, find_loops, all_names, mark_loops, Analysed, run,
}
use semalloc.Frontend.Run.Domain.{IsDomain-nonempty, contract_cycles-IsDomain}
use semalloc.Frontend.Run.Edges.{IsGraphLibrary, graph_edges-ends}
use semalloc.Frontend.Run.Checked.{IsAccepted, construct_final_cfg-IsAccepted}

-- What the call graph analysis gives to the pass.
pub record IsProgram (g : Program) : Type 0 where
  pub keyed : (f p : ℕ) → has p (g.function_map f) ≡ true → (g.paths p).callee ≡ f
  pub once : (f : ℕ) → AllDistinct (g.function_map f)
  pub callee_in : (f p : ℕ) → has p (g.function_map f) ≡ true → has f g.functions ≡ true
  pub caller_in :
      (f p : ℕ) → has p (g.function_map f) ≡ true → has (g.paths p).caller g.functions ≡ true
  pub distinct : AllDistinct g.functions
  pub library : IsGraphLibrary g.library
  pub fresh : (f i : ℕ) → has f g.functions ≡ true → f ≢ g.intra_name i

-- The cycle of a function, by name, for a set of marked functions.
abbrev pub cycle_of : Program → List ℕ → ℕ → Option ℕ
cycle_of g mark_set =
    let (marked, loop_set) = mark_loop_functions g.in_loop g.function_map mark_set (g.paths, []) in
    (find_cycles g.library g.intra_name marked (flip_program g) mark_set loop_set).flipped_intra

module _ (g : Program) (program : IsProgram g) where
  flip_program-IsFlipped : IsFlipped g.paths g.function_map (flip_program g)
  unfolding flip_program
  flip_program-IsFlipped =
      flip_function_map-IsFlipped g.paths g.function_map program.keyed g.functions program.distinct
        program.once program.callee_in

  function_map-IsDomain : IsDomain g.function_map g.functions
  function_map-IsDomain = IsDomain-nonempty g.function_map g.functions program.callee_in

  flip_program-IsDomain : IsDomain (flip_program g) g.functions
  flip_program-IsDomain = IsDomain-nonempty (flip_program g) g.functions λ f p m.
      let graph = flip_program-IsFlipped in
      ap (λ k. has k g.functions) (sym (graph.caller f p m))
      ∙ program.caller_in (g.paths p).callee p (graph.called f p m)

  do_initialization_returns : (m : Marks) × (do_initialization g ≡ some m)
  unfolding do_initialization
  do_initialization_returns =
      let (m, e, _) =
        mark_only_relevant_functions-IsMarked g.paths g.function_map (flip_program g) g.functions _
          _ function_map-IsDomain (omega arith) in
      (m, e)

  node-fresh :
      (m : Marks) (f i : ℕ)
      → let (marked, loop_set) =
          mark_loop_functions g.in_loop g.function_map m.function_mark_set (g.paths, []) in
        has f (
            g.library.node_set
              (graph_edges marked (flip_program g) m.function_mark_set m.function_mark_set))
          ≡ true
        → f ≢ g.intra_name i
  node-fresh m f i node =
      let (marked, loop_set) =
        mark_loop_functions g.in_loop g.function_map m.function_mark_set (g.paths, []) in
      let same =
        mark_loop_functions-SameEnds g.in_loop g.function_map m.function_mark_set g.paths [] in
      let graph = flip_program-IsFlipped in
      let (h, p, made, end) =
        graph_edges-ends marked m.function_mark_set (flip_program g) m.function_mark_set f
          (program.library.ends _ f node) in
      let call = graph.called h p made in
      program.fresh f i (elim end [
        | inl e ↦
            ap (λ k. has k g.functions) (sym e ∙ same.callers p)
            ∙ program.caller_in (g.paths p).callee p call
        | inr e ↦
            ap (λ k. has k g.functions) (sym e ∙ same.callees p)
            ∙ program.callee_in (g.paths p).callee p call
      ])

  find_loops-IsLinked :
      (m : Marks)
      → ((f p n k : ℕ)
          → has p (g.function_map f) ≡ true
          → cycle_of g m.function_mark_set (g.paths p).caller ≡ some n
          → cycle_of g m.function_mark_set (g.paths p).callee ≡ some k
          → n ≡ k)
      → (s : Looped) × (find_loops g m ≡ some s)
        × IsLinked s.paths s.maps.function_map s.maps.flipped s.cycles.flipped_intra
        × ((f n : ℕ) → s.cycles.flipped_intra f ≡ some n → s.cycles.flipped_intra n ≡ none)
        × IsDomain s.maps.function_map (all_names g s)
        × IsDomain s.maps.flipped (all_names g s)
  unfolding find_loops
  find_loops-IsLinked m apart =
      let (s, e, linked, not_member, maps) =
        instr_is_in_a_loop-made g.in_loop g.library g.intra_name g.paths g.function_map
          (flip_program g) m.function_mark_set flip_program-IsFlipped (program.library.distinct _)
          (λ f i. node-fresh m f i) apart in
      let (dom, flipped_dom) =
        contract_cycles-IsDomain s.cycles.intra
          (record {
            function_map = g.function_map;
            flipped = flip_program g;
            loop_set = s.cycles.loop_set;
          })
          g.functions function_map-IsDomain flip_program-IsDomain in
      (
        s,
        e,
        linked,
        not_member,
        subst (λ k. IsDomain k.function_map (all_names g s)) (sym maps) dom,
        subst (λ k. IsDomain k.flipped (all_names g s)) (sym maps) flipped_dom,
      )

  -- For a program in whose call graph each call stands once, with its callee, between functions that are
  -- listed once, none of them with the name of a cycle; with a graph library that lists the ends of
  -- edges once each; and when no call goes from a cycle that is found to another one: the steps of run
  -- return, and the maps that they build pass the three checks of ComputeEdgeWeight.
  pub run-IsAccepted :
      ((m : Marks) (f p n k : ℕ)
        → do_initialization g ≡ some m
        → has p (g.function_map f) ≡ true
        → cycle_of g m.function_mark_set (g.paths p).caller ≡ some n
        → cycle_of g m.function_mark_set (g.paths p).callee ≡ some k
        → n ≡ k)
      → (a : Analysed) × (run g ≡ some a) × IsAccepted a
  unfolding run mark_loops
  run-IsAccepted apart =
      let (m, first) = do_initialization_returns in
      let (s, second, linked, not_member, dom, flipped_dom) =
        find_loops-IsLinked m (λ f p n k. apart m f p n k first) in
      let calls = total s.maps.function_map (all_names g s) in
      let called = total s.maps.flipped (all_names g s) in
      let (l, third, _) =
        mark_loop_relevant_functions-IsLoopMarked s.paths s.maps.function_map s.maps.flipped
          (calls + calls + (called + called)) m.function_mark_set s.maps.loop_set
          s.cycles.flipped_intra m.is_relevant (all_names g s) dom flipped_dom (omega arith)
          (omega arith) not_member in
      let (cfg, paths) =
        construct_final_cfg s.paths s.maps.function_map s.maps.flipped l.relevant_all in
      (
        record {
          paths = paths;
          cfg = cfg;
          relevant_all = l.relevant_all;
          flipped_intra = s.cycles.flipped_intra;
        },
        rw (first, second, third, run) refl,
        construct_final_cfg-IsAccepted s.paths s.maps.function_map s.maps.flipped
            s.cycles.flipped_intra l.relevant_all linked,
      )
