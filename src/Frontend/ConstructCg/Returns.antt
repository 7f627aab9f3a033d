-- ===== src/Frontend/ConstructCg/Returns.antt =====
-- ConstructCGPass and ReduceLibraryIndirectCall on one module return, and the map that they build has
-- each call once, with its callee.
use semalloc.Common.{
  ℕ, ◌≡◌, refl, sym, ◌∙◌, subst, Bool, true, Option, none, some, List, [], ◌∷◌, arith, inl, inr, ap,
  has, if◌then◌else◌, update, update_self, update_ne, Bool-cases, Option-cases, eq-cases,
}
use semalloc.Frontend.Weights.Layout.{AllDistinct}
use semalloc.Frontend.Module.{Function, GlobalVariable, Module}
use semalloc.Frontend.ConstructCg.{
  FunctionMap, no_functions, IndirectCall, add_entries, initialize_modules, analyze_modules,
  construct_cg, traverse_global_variables, reduce_library_indirect_calls, build_function_map,
}
use semalloc.Frontend.ConstructCg.Built.{IsBuilt, Adds-IsBuilt, some_injective}
use semalloc.Frontend.ConstructCg.Recorded.{
  AllFunctionsRecorded, AllFunctionsRecorded-kept, analyze_functions-AllRecorded,
}
use semalloc.Frontend.ConstructCg.Steps.{
  AllOwn, AllFunctionsOk, merge_indirect_function_calls-Extends,
  update_cfg_with_indirect_calls-Extends,
}

-- The functions of a module that are not internal to LLVM.
abbrev pub listed_functions : (ℕ → Bool) → List Function → List ℕ
listed_functions is_llvm [] = []
listed_functions is_llvm (f ∷ fs) =
    if is_llvm f.name then listed_functions is_llvm fs else f.name ∷ listed_functions is_llvm fs

-- The globals that start with a heap function start with a function that is listed.
abbrev pub AllGlobalsOk : List ℕ → List ℕ → List GlobalVariable → Type 0
AllGlobalsOk heap_functions names [] = Unit {0}
AllGlobalsOk heap_functions names (g ∷ gs) =
    ((f : ℕ) → g.initializer ≡ some f → has f heap_functions ≡ true → has f names ≡ true)
    × AllGlobalsOk heap_functions names gs

traverse_global_variables-listed :
    (heap_functions names : List ℕ) (gs : List GlobalVariable) (found : ℕ → Option ℕ)
    → AllGlobalsOk heap_functions names gs
    → ((g f : ℕ) → found g ≡ some f → has f names ≡ true)
    → (g f : ℕ) → traverse_global_variables heap_functions gs found g ≡ some f
    → has f names ≡ true
unfolding traverse_global_variables
traverse_global_variables-listed heap_functions names [] found ok old g f e = old g f e
traverse_global_variables-listed heap_functions names (v ∷ vs) found ok old g f e =
    elim (Option-cases v.initializer) [
      | inl out ↦
          traverse_global_variables-listed heap_functions names vs found ok.1 old g f
            (rw (out, traverse_global_variables) at e)
      | inr (k, start) ↦ elim (Bool-cases (has k heap_functions)) [
        | inr other ↦
            traverse_global_variables-listed heap_functions names vs found ok.1 old g f
              (rw (start, other, traverse_global_variables) at e)
        | inl heap ↦
            traverse_global_variables-listed heap_functions names vs
              (update found v.global_name (some k)) ok.1
              (λ h i c. elim (eq-cases v.global_name h) [
                | inl same ↦
                    let target : k ≡ i = some_injective k i (
                      sym (update_self found v.global_name (some k))
                      ∙ ap (update found v.global_name (some k)) same
                      ∙ c) in
                    ap (λ j. has j names) (sym target) ∙ ok.0 k start heap
                | inr ne ↦ old h i (sym (update_ne found v.global_name h (some k) ne) ∙ c)
              ])
              g f (rw (start, heap, traverse_global_variables) at e)
      ]
    ]

-- The entries after the first loop are empty, and there is one for each function that is listed.
record IsEmptyFor (is_llvm : ℕ → Bool) (names : List ℕ) (m : FunctionMap) : Type 0 where
  entry : (f : ℕ) (ps : List ℕ) → m.entries f ≡ some ps → (ps ≡ []) × (has f names ≡ true)

add_entries-IsEmptyFor :
    (is_llvm : ℕ → Bool) (names : List ℕ) (fs : List Function) (m : FunctionMap)
    → ((f : ℕ) → has f (listed_functions is_llvm fs) ≡ true → has f names ≡ true)
    → IsEmptyFor is_llvm names m
    → IsEmptyFor is_llvm names (add_entries is_llvm fs m)
      × ((f : ℕ)
          → (ps : List ℕ) × (m.entries f ≡ some ps)
          → (ps : List ℕ) × ((add_entries is_llvm fs m).entries f ≡ some ps))
      × ((f : ℕ)
          → has f (listed_functions is_llvm fs) ≡ true
          → (ps : List ℕ) × ((add_entries is_llvm fs m).entries f ≡ some ps))
unfolding add_entries
add_entries-IsEmptyFor is_llvm names [] m sub inv = (inv, λ f h. h, λ f h. cc)
add_entries-IsEmptyFor is_llvm names (g ∷ gs) m sub inv = elim (Bool-cases (is_llvm g.name)) [
  | inl internal ↦
      let (a, b, c) =
        add_entries-IsEmptyFor is_llvm names gs m (λ f h. sub f (ground (arith, h, internal)))
          inv in
      (
        rw (internal, add_entries) a,
        λ f h. rw (internal, add_entries) (b f h),
        λ f h. rw (internal, add_entries) (c f (ground (arith, h, internal))),
      )
  | inr external ↦
      let m' = record m { entries = update m.entries g.name (some []) } in
      let (a, b, c) =
        add_entries-IsEmptyFor is_llvm names gs m' (λ f h. sub f (ground (arith, h, external)))
          (record {
            entry = λ f ps e. elim (eq-cases g.name f) [
              | inl same ↦ (
                sym (
                    some_injective [] ps (
                      sym (update_self m.entries g.name (some []))
                      ∙ ap (update m.entries g.name (some [])) same
                      ∙ e)),
                sub f (ground (arith, external, same)),
              )
              | inr ne ↦ inv.entry f ps (sym (update_ne m.entries g.name f (some []) ne) ∙ e)
            ];
          }) in
      let here : m'.entries g.name ≡ some [] = update_self m.entries g.name (some []) in
      (
        rw (external, add_entries) a,
        λ f (ps, e).
            rw (external, add_entries)
              (b f (elim (eq-cases g.name f) [
                | inl same ↦ ([], ap m'.entries (sym same) ∙ here)
                | inr ne ↦ (ps, update_ne m.entries g.name f (some []) ne ∙ e)
              ])),
        λ f h.
            rw (external, add_entries)
              (elim (eq-cases g.name f) [
                | inl same ↦ b f ([], ap m'.entries (sym same) ∙ here)
                | inr ne ↦ c f (ground (arith, h, external, ne))
              ]),
      )
]

module _ (is_llvm : ℕ → Bool) (heap_functions : List ℕ) (callees : ℕ → List ℕ)
    (ics : List IndirectCall) (md : Module) where
  abbrev names : List ℕ
  names = listed_functions is_llvm md.functions

  -- When the callees and callers are functions of the module that are not internal to LLVM, and so are
  -- the heap functions that globals start with: no access to the map throws, and afterwards each call
  -- stands once, with its callee, and its ends are such functions. Each direct call in the module of a
  -- function that is not internal to LLVM stands in the entry of this function, with its caller and
  -- its instruction.
  pub build_function_map-IsBuilt :
      AllOwn (λ f. has f names) names ics
      → ((i f : ℕ) → has f (callees i) ≡ true → has f names ≡ true)
      → AllFunctionsOk (λ f. has f names) names is_llvm md.functions
      → AllGlobalsOk heap_functions names md.globals
      → (m : FunctionMap) × (build_function_map is_llvm heap_functions callees ics md ≡ some m)
        × IsBuilt names m
        × AllFunctionsRecorded names is_llvm m md.functions
  unfolding build_function_map construct_cg initialize_modules analyze_modules
      reduce_library_indirect_calls
  build_function_map-IsBuilt own targets calls globals =
      let may = λ (f : ℕ). has f names in
      let start = add_entries is_llvm md.functions no_functions in
      let (empty, _, all) =
        add_entries-IsEmptyFor is_llvm names md.functions no_functions (λ f h. h)
          (record { entry = λ f ps e. cc }) in
      let (m1, e1, steps1, all1) =
        merge_indirect_function_calls-Extends may names callees ics start own targets all in
      let built =
        Adds-IsBuilt names start
          (record {
            keyed = λ f p ps e c. absurd (ground (arith, c, ap (has p) (empty.entry f ps e).0));
            small = λ f p ps e c. absurd (ground (arith, c, ap (has p) (empty.entry f ps e).0));
            once = λ f ps e. subst AllDistinct (sym (empty.entry f ps e).0) tt;
            caller_in = λ f p ps e c. absurd (ground (arith, c, ap (has p) (empty.entry f ps e).0));
            entry_in = λ f ps e. (empty.entry f ps e).1;
          })
          steps1 in
      let (m2, e2, steps2, all2, recorded) =
        analyze_functions-AllRecorded names is_llvm may md.functions m1 built calls all1 in
      let built' = Adds-IsBuilt names m1 built steps2 in
      let found = traverse_global_variables heap_functions md.globals (λ _. none) in
      let (m3, e3, steps3, all3) =
        update_cfg_with_indirect_calls-Extends may names is_llvm found md.functions m2 calls
          (traverse_global_variables-listed heap_functions names md.globals (λ _. none) globals
            (λ g f e. cc))
          all2 in
      (
        m3,
        rw
            (
              e1, e2, e3, build_function_map, construct_cg, initialize_modules, analyze_modules,
              reduce_library_indirect_calls,
            )
            refl,
        Adds-IsBuilt names m2 built' steps3,
        AllFunctionsRecorded-kept names is_llvm m2 built' steps3 md.functions recorded,
      )
