-- ===== src/Frontend/ConstructCg/Steps.antt =====
-- The loops of ConstructCGPass and ReduceLibraryIndirectCall only add calls, and do so when every callee
-- has an entry.
use semalloc.Common.{
  ℕ, ◌≡◌, ◌⊎◌, refl, sym, ◌∙◌, Bool, true, false, Option, some, List, [], ◌∷◌, arith, inl, inr, ap,
  has, update, update_self, update_ne, Bool-cases, Option-cases, eq-cases,
}
use semalloc.Frontend.Module.{CallInst, is_indirect_call, called_function, loaded_from, Function}
use semalloc.Frontend.Graph.{push_back}
use semalloc.Frontend.ConstructCg.{
  FunctionMap, new_call_path, add_call_path, IndirectCall, merge_callees,
  merge_indirect_function_calls, analyze_call, analyze_calls, analyze_functions, reduce_calls,
  update_cfg_with_indirect_calls,
}
use semalloc.Frontend.ConstructCg.Built.{Adds, unchanged, added, Adds-trans}

-- The calls that may be added: every callee that the test allows has an entry.
abbrev pub AllEntries : (ℕ → Bool) → FunctionMap → Type 0
AllEntries may m = (f : ℕ) → may f ≡ true → (ps : List ℕ) × (m.entries f ≡ some ps)

-- A step that adds calls and returns.
abbrev pub Extends : (may : ℕ → Bool) → (names : List ℕ) → FunctionMap → Option FunctionMap → Type 0
Extends may names m r = (m' : FunctionMap) × (r ≡ some m') × Adds names m m' × AllEntries may m'

module _ (may : ℕ → Bool) (names : List ℕ) where
  add_call_path-Extends :
      (inst : ℕ) (indirect : Bool) (callee caller : ℕ) (m : FunctionMap)
      → has caller names ≡ true
      → may callee ≡ true
      → AllEntries may m
      → Extends may names m (add_call_path inst indirect callee caller m)
  unfolding add_call_path new_call_path
  add_call_path-Extends inst indirect callee caller m own ok all =
      let (old, here) = all callee ok in
      let m' = new_call_path inst indirect callee caller old m in
      let e : add_call_path inst indirect callee caller m ≡ some m' =
        rw (here, add_call_path) refl in
      (
        m',
        e,
        added inst indirect callee caller unchanged own e,
        λ f k. elim (eq-cases callee f) [
          | inl same ↦ (
            push_back old m.count,
            ap (update m.entries callee (some (push_back old m.count))) (sym same)
                ∙ update_self m.entries callee (some (push_back old m.count)),
          )
          | inr other ↦
              let (ps, there) = all f k in
              (ps, update_ne m.entries callee f (some (push_back old m.count)) other ∙ there)
        ],
      )

  merge_callees-Extends :
      (ic : IndirectCall) (fs : List ℕ) (m : FunctionMap)
      → has ic.indirect_caller names ≡ true
      → ((f : ℕ) → has f fs ≡ true → may f ≡ true)
      → AllEntries may m
      → Extends may names m (merge_callees ic fs m)
  unfolding merge_callees
  merge_callees-Extends ic [] m own ok all = (m, refl, unchanged, all)
  merge_callees-Extends ic (f ∷ fs) m own ok all =
      let (m', e, steps, all') =
        add_call_path-Extends ic.indirect_inst true f ic.indirect_caller m own (ok f (ground arith))
          all in
      let (m'', e', steps', all'') =
        merge_callees-Extends ic fs m' own (λ g k. ok g (ground (arith, k))) all' in
      (m'', rw (e, merge_callees) e', Adds-trans names steps steps', all'')

  -- Every call of a list is made by a function that is named.
  abbrev pub AllOwn : List IndirectCall → Type 0
  AllOwn [] = Unit {0}
  AllOwn (ic ∷ ics) = (has ic.indirect_caller names ≡ true) × AllOwn ics

  pub merge_indirect_function_calls-Extends :
      (callees : ℕ → List ℕ) (ics : List IndirectCall) (m : FunctionMap)
      → AllOwn ics
      → ((i f : ℕ) → has f (callees i) ≡ true → may f ≡ true)
      → AllEntries may m
      → Extends may names m (merge_indirect_function_calls callees ics m)
  unfolding merge_indirect_function_calls
  merge_indirect_function_calls-Extends callees [] m own ok all = (m, refl, unchanged, all)
  merge_indirect_function_calls-Extends callees (ic ∷ ics) m own ok all =
      let (m', e, steps, all') =
        merge_callees-Extends ic (callees ic.indirect_inst) m own.0 (ok ic.indirect_inst) all in
      let (m'', e', steps', all'') =
        merge_indirect_function_calls-Extends callees ics m' own.1 ok all' in
      (m'', rw (e, merge_indirect_function_calls) e', Adds-trans names steps steps', all'')

  -- A direct call goes to a function of LLVM, or to one that may be called.
  abbrev pub CallOk : (ℕ → Bool) → CallInst → Type 0
  CallOk is_llvm ci =
      (f : ℕ) → called_function ci.operand ≡ some f → is_llvm f ≡ false → may f ≡ true

  abbrev pub AllCallsOk : (ℕ → Bool) → List CallInst → Type 0
  AllCallsOk is_llvm [] = Unit {0}
  AllCallsOk is_llvm (ci ∷ cis) = CallOk is_llvm ci × AllCallsOk is_llvm cis

  abbrev pub AllFunctionsOk : (ℕ → Bool) → List Function → Type 0
  AllFunctionsOk is_llvm [] = Unit {0}
  AllFunctionsOk is_llvm (f ∷ fs) =
      ((f.call_insts ≡ []) ⊎ (has f.name names ≡ true))
      × AllCallsOk is_llvm f.call_insts
      × AllFunctionsOk is_llvm fs

  module _ (is_llvm : ℕ → Bool) where
    pub analyze_call-Extends :
        (caller : ℕ) (ci : CallInst) (m : FunctionMap)
        → has caller names ≡ true
        → CallOk is_llvm ci
        → AllEntries may m
        → Extends may names m (analyze_call is_llvm caller ci m)
    unfolding analyze_call
    analyze_call-Extends caller ci m own ok all = elim (Bool-cases (is_indirect_call ci.operand)) [
      | inl indirect ↦ (m, rw (indirect, analyze_call) refl, unchanged, all)
      | inr direct ↦ elim (Option-cases (called_function ci.operand)) [
        | inl other ↦ (m, rw (direct, other, analyze_call) refl, unchanged, all)
        | inr (f, named) ↦ elim (Bool-cases (is_llvm f)) [
          | inl internal ↦ (m, rw (direct, named, internal, analyze_call) refl, unchanged, all)
          | inr external ↦
              let (m', e, steps, all') =
                add_call_path-Extends ci.inst false f caller m own (ok f named external) all in
              (m', rw (direct, named, external, analyze_call) e, steps, all')
        ]
      ]
    ]

    analyze_calls-Extends :
        (caller : ℕ) (cis : List CallInst) (m : FunctionMap)
        → (cis ≡ []) ⊎ (has caller names ≡ true)
        → AllCallsOk is_llvm cis
        → AllEntries may m
        → Extends may names m (analyze_calls is_llvm caller cis m)
    unfolding analyze_calls
    analyze_calls-Extends caller [] m own ok all = (m, refl, unchanged, all)
    analyze_calls-Extends caller (ci ∷ cis) m (inl empty) ok all = absurd (ground (arith, empty))
    analyze_calls-Extends caller (ci ∷ cis) m (inr named) ok all =
        let (m', e, steps, all') = analyze_call-Extends caller ci m named ok.0 all in
        let (m'', e', steps', all'') = analyze_calls-Extends caller cis m' (inr named) ok.1 all' in
        (m'', rw (e, analyze_calls) e', Adds-trans names steps steps', all'')

    pub analyze_functions-Extends :
        (fs : List Function) (m : FunctionMap)
        → AllFunctionsOk is_llvm fs
        → AllEntries may m
        → Extends may names m (analyze_functions is_llvm fs m)
    unfolding analyze_functions
    analyze_functions-Extends [] m ok all = (m, refl, unchanged, all)
    analyze_functions-Extends (f ∷ fs) m ok all =
        let (m', e, steps, all') = analyze_calls-Extends f.name f.call_insts m ok.0 ok.1 all in
        let (m'', e', steps', all'') = analyze_functions-Extends fs m' ok.2 all' in
        (m'', rw (e, analyze_functions) e', Adds-trans names steps steps', all'')

  -- A loaded global leads to a function that may be called.
  reduce_calls-Extends :
      (found : ℕ → Option ℕ) (caller : ℕ) (cis : List CallInst) (m : FunctionMap)
      → (cis ≡ []) ⊎ (has caller names ≡ true)
      → ((g f : ℕ) → found g ≡ some f → may f ≡ true)
      → AllEntries may m
      → Extends may names m (reduce_calls found caller cis m)
  unfolding reduce_calls
  reduce_calls-Extends found caller [] m own ok all = (m, refl, unchanged, all)
  reduce_calls-Extends found caller (ci ∷ cis) m (inl empty) ok all = absurd (ground (arith, empty))
  reduce_calls-Extends found caller (ci ∷ cis) m (inr named) ok all =
      let rest = λ (k : FunctionMap) (all' : AllEntries may k).
        reduce_calls-Extends found caller cis k (inr named) ok all' in
      elim (Option-cases (loaded_from ci.operand)) [
        | inl other ↦
            let (m', e, steps, all') = rest m all in (m', rw (other, reduce_calls) e, steps, all')
        | inr (g, here) ↦ elim (Option-cases (found g)) [
          | inl out ↦
              let (m', e, steps, all') = rest m all in
              (m', rw (here, out, reduce_calls) e, steps, all')
          | inr (f, target) ↦
              let (m', e, steps, all') =
                add_call_path-Extends ci.inst true f caller m named (ok g f target) all in
              let (m'', e', steps', all'') = rest m' all' in
              (m'', rw (here, target, e, reduce_calls) e', Adds-trans names steps steps', all'')
        ]
      ]

  pub update_cfg_with_indirect_calls-Extends :
      (is_llvm : ℕ → Bool) (found : ℕ → Option ℕ) (fs : List Function) (m : FunctionMap)
      → AllFunctionsOk is_llvm fs
      → ((g f : ℕ) → found g ≡ some f → may f ≡ true)
      → AllEntries may m
      → Extends may names m (update_cfg_with_indirect_calls found fs m)
  unfolding update_cfg_with_indirect_calls
  update_cfg_with_indirect_calls-Extends is_llvm found [] m ok target all =
      (m, refl, unchanged, all)
  update_cfg_with_indirect_calls-Extends is_llvm found (f ∷ fs) m ok target all =
      let (m', e, steps, all') = reduce_calls-Extends found f.name f.call_insts m ok.0 target all in
      let (m'', e', steps', all'') =
        update_cfg_with_indirect_calls-Extends is_llvm found fs m' ok.2 target all' in
      (m'', rw (e, update_cfg_with_indirect_calls) e', Adds-trans names steps steps', all'')
