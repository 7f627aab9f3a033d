-- ===== src/Frontend/Main/Accepted.antt =====
-- The pass on a module returns, and its maps pass the checks of ComputeEdgeWeight.
use semalloc.Common.{ℕ, ◌≡◌, ◌≢◌, true, some, List, arith, inl, inr, has, Option-cases}
use semalloc.Frontend.Weights.Layout.{AllDistinct}
use semalloc.Frontend.Module.{Module}
use semalloc.Frontend.Marking.{Marks}
use semalloc.Frontend.ConstructCg.{FunctionMap, build_function_map}
use semalloc.Frontend.ConstructCg.Built.{IsBuilt}
use semalloc.Frontend.ConstructCg.Steps.{AllOwn, AllFunctionsOk}
use semalloc.Frontend.ConstructCg.Returns.{
  listed_functions, AllGlobalsOk, build_function_map-IsBuilt,
}
use semalloc.Frontend.Run.{do_initialization, Analysed}
use semalloc.Frontend.Run.Edges.{IsGraphLibrary}
use semalloc.Frontend.Run.Checked.{IsAccepted}
use semalloc.Frontend.Run.Returns.{IsProgram, cycle_of, run-IsAccepted}
use semalloc.Frontend.Main.{Answers, calls_of, program_of, analyse}

abbrev pub names_in : Answers → Module → List ℕ
names_in a md = listed_functions a.is_llvm md.functions

-- A whole program: what is called and what calls is a function of the module that is not internal to
-- LLVM, each with a name of its own that is not the name of a cycle.
pub record IsWhole (a : Answers) (md : Module) : Type 0 where
  pub own : AllOwn (λ f. has f (names_in a md)) (names_in a md) a.indirect_calls
  pub targets : (i f : ℕ) → has f (a.callees i) ≡ true → has f (names_in a md) ≡ true
  pub calls : AllFunctionsOk (λ f. has f (names_in a md)) (names_in a md) a.is_llvm md.functions
  pub globals : AllGlobalsOk a.heap_functions (names_in a md) md.globals
  pub distinct : AllDistinct (names_in a md)
  pub library : IsGraphLibrary a.library
  pub fresh : (f i : ℕ) → has f (names_in a md) ≡ true → f ≢ a.intra_name i

module _ (a : Answers) (md : Module) (whole : IsWhole a md) where
  -- A call of a function is in the entry of the function.
  calls_of-entry :
      (m : FunctionMap) (f p : ℕ)
      → has p (calls_of m f) ≡ true
      → (ps : List ℕ) × (m.entries f ≡ some ps) × (has p ps ≡ true)
  calls_of-entry m f p c = elim (Option-cases (m.entries f)) [
    | inl out ↦ absurd (ground (arith, c, out))
    | inr (ps, e) ↦ (ps, e, ground (arith, c, e))
  ]

  program_of-IsProgram :
      (m : FunctionMap) → IsBuilt (names_in a md) m → IsProgram (program_of a md m)
  unfolding program_of
  program_of-IsProgram m built = record {
    keyed = λ f p c. let (ps, e, c') = calls_of-entry m f p c in built.keyed f p ps e c';
    once = λ f. elim (Option-cases (m.entries f)) [
      | inl out ↦ rw (out, calls_of) tt
      | inr (ps, e) ↦ rw (e, calls_of) (built.once f ps e)
    ];
    callee_in = λ f p c. let (ps, e, c') = calls_of-entry m f p c in built.entry_in f ps e;
    caller_in = λ f p c. let (ps, e, c') = calls_of-entry m f p c in built.caller_in f p ps e c';
    distinct = whole.distinct;
    library = whole.library;
    fresh = whole.fresh;
  }

  -- For a whole program, when no call goes from a cycle of calls that is found to another one: the call
  -- graph is built, the steps of run return, and their maps pass the checks of ComputeEdgeWeight.
  pub analyse-IsAccepted :
      ((m : FunctionMap) (k : Marks) (f p n j : ℕ)
        → build_function_map a.is_llvm a.heap_functions a.callees a.indirect_calls md ≡ some m
        → do_initialization (program_of a md m) ≡ some k
        → has p (calls_of m f) ≡ true
        → cycle_of (program_of a md m) k.function_mark_set (m.paths p).caller ≡ some n
        → cycle_of (program_of a md m) k.function_mark_set (m.paths p).callee ≡ some j
        → n ≡ j)
      → (r : Analysed) × (analyse a md ≡ some r) × IsAccepted r
  unfolding analyse program_of
  analyse-IsAccepted apart =
      let (m, e, built, _) =
        build_function_map-IsBuilt a.is_llvm a.heap_functions a.callees a.indirect_calls md
          whole.own whole.targets whole.calls whole.globals in
      let (r, e', accepted) =
        run-IsAccepted (program_of a md m) (program_of-IsProgram m built)
          (λ k f p n j. apart m k f p n j e) in
      (r, rw (e, analyse) e', accepted)
