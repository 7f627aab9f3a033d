-- ===== src/Frontend/ConstructCg/Recorded.antt =====
-- Each direct call of a module is in FunctionMap, and no later step takes it out.
use semalloc.Common.{
  ℕ, ◌≡◌, ◌≢◌, ◌⊎◌, refl, sym, ◌∙◌, subst, Bool, true, false, some, List, [], ◌∷◌, arith, inl, inr,
  ap, has, ◌==◌, update, update_self, update_ne, eq-cases, ◌||◌,
}
use semalloc.Frontend.Graph.{CallPath, PathType, push_back}
use semalloc.Frontend.Graph.Agreement.{has-push_back}
use semalloc.Frontend.Module.{Operand, CallInst, is_indirect_call, called_function, Function}
use semalloc.Frontend.ConstructCg.{
  FunctionMap, new_call_path, add_call_path, analyze_call, analyze_calls, analyze_functions,
}
use semalloc.Frontend.ConstructCg.Built.{
  Adds, unchanged, added, Adds-trans, IsBuilt, Adds-IsBuilt, add_call_path-made, some_injective,
}
use semalloc.Frontend.ConstructCg.Steps.{
  AllEntries, AllCallsOk, AllFunctionsOk, analyze_call-Extends,
}

-- The map has a call of `f` by `caller` at the instruction.
pub record IsRecorded (m : FunctionMap) (f caller inst : ℕ) : Type 0 where
  pub path : ℕ
  pub calls : List ℕ
  pub entry : m.entries f ≡ some calls
  pub member : has path calls ≡ true
  pub made_by : (m.paths path).caller ≡ caller
  pub at : m.call_inst path ≡ inst

new_call_path-kept :
    (names : List ℕ) (inst : ℕ) (indirect : Bool) (callee caller : ℕ) (old : List ℕ)
    (m : FunctionMap)
    → m.entries callee ≡ some old
    → IsBuilt names m
    → (f c i : ℕ) → IsRecorded m f c i
    → IsRecorded (new_call_path inst indirect callee caller old m) f c i
unfolding new_call_path
new_call_path-kept names inst indirect callee caller old m here inv f c i r =
    let path : CallPath = record {
      callee = callee;
      caller = caller;
      path_type = PathType.default;
    } in
    let older : m.count ≢ r.path =
      λ k. omega (arith, k, inv.small f r.path r.calls r.entry r.member) in
    let made = ap (λ k. k.caller) (update_ne m.paths m.count r.path path older) ∙ r.made_by in
    let at = update_ne m.call_inst m.count r.path inst older ∙ r.at in
    elim (eq-cases callee f) [
      | inl same ↦
          let calls : r.calls ≡ old =
            some_injective r.calls old (sym r.entry ∙ ap m.entries (sym same) ∙ here) in
          record {
            path = r.path;
            calls = push_back old m.count;
            entry =
                ap (update m.entries callee (some (push_back old m.count))) (sym same)
                ∙ update_self m.entries callee (some (push_back old m.count));
            member =
                has-push_back r.path old m.count
                ∙ ap (λ k. has r.path k || (m.count == r.path)) (sym calls)
                ∙ ground (arith, r.member);
            made_by = made;
            at = at;
          }
      | inr other ↦ record {
        path = r.path;
        calls = r.calls;
        entry = update_ne m.entries callee f (some (push_back old m.count)) other ∙ r.entry;
        member = r.member;
        made_by = made;
        at = at;
      }
    ]

module _ (names : List ℕ) where
  Adds-IsRecorded :
      (m : FunctionMap)
      → IsBuilt names m
      → {m' : FunctionMap} → Adds names m m'
      → (f c i : ℕ) → IsRecorded m f c i
      → IsRecorded m' f c i
  Adds-IsRecorded m inv unchanged f c i r = r
  Adds-IsRecorded m inv (added {m'} {m''} inst indirect callee caller steps own e) f c i r =
      let (old, here, same) = add_call_path-made inst indirect callee caller m' m'' e in
      subst (λ k. IsRecorded k f c i) same
        (new_call_path-kept names inst indirect callee caller old m' here
          (Adds-IsBuilt names m inv steps) f c i (Adds-IsRecorded m inv steps f c i r))

  module _ (is_llvm : ℕ → Bool) where
    abbrev pub AllRecorded : FunctionMap → ℕ → List CallInst → Type 0
    AllRecorded m caller [] = Unit {0}
    AllRecorded m caller (ci ∷ cis) =
        ((f : ℕ)
          → called_function ci.operand ≡ some f
          → is_llvm f ≡ false
          → IsRecorded m f caller ci.inst)
        × AllRecorded m caller cis

    -- Each direct call of each function, but for those to internal functions of LLVM.
    abbrev pub AllFunctionsRecorded : FunctionMap → List Function → Type 0
    AllFunctionsRecorded m [] = Unit {0}
    AllFunctionsRecorded m (f ∷ fs) = AllRecorded m f.name f.call_insts × AllFunctionsRecorded m fs

    AllRecorded-kept :
        (m : FunctionMap)
        → IsBuilt names m
        → {m' : FunctionMap} → Adds names m m'
        → (caller : ℕ) (cis : List CallInst) → AllRecorded m caller cis
        → AllRecorded m' caller cis
    AllRecorded-kept m inv steps caller [] r = tt
    AllRecorded-kept m inv steps caller (ci ∷ cis) r = (
      λ f e ext. Adds-IsRecorded m inv steps f caller ci.inst (r.0 f e ext),
      AllRecorded-kept m inv steps caller cis r.1,
    )

    pub AllFunctionsRecorded-kept :
        (m : FunctionMap)
        → IsBuilt names m
        → {m' : FunctionMap} → Adds names m m'
        → (fs : List Function) → AllFunctionsRecorded m fs
        → AllFunctionsRecorded m' fs
    AllFunctionsRecorded-kept m inv steps [] r = tt
    AllFunctionsRecorded-kept m inv steps (f ∷ fs) r = (
      AllRecorded-kept m inv steps f.name f.call_insts r.0,
      AllFunctionsRecorded-kept m inv steps fs r.1,
    )

    called-direct : (o : Operand) (f : ℕ) → called_function o ≡ some f → is_indirect_call o ≡ false
    called-direct (Operand.function_operand g) f e = refl
    called-direct (Operand.cast_operand g) f e = refl
    called-direct Operand.constant_operand f e = refl
    called-direct Operand.inline_asm f e = refl
    called-direct (Operand.loaded_global g) f e = absurd (ground (arith, e))
    called-direct Operand.value_operand f e = absurd (ground (arith, e))

    -- The call that was analysed is recorded.
    analyze_call-IsRecorded :
        (caller : ℕ) (ci : CallInst) (m m' : FunctionMap) (f : ℕ)
        → analyze_call is_llvm caller ci m ≡ some m'
        → called_function ci.operand ≡ some f
        → is_llvm f ≡ false
        → IsRecorded m' f caller ci.inst
    unfolding analyze_call new_call_path
    analyze_call-IsRecorded caller ci m m' f e called external =
        let path : CallPath = record {
          callee = f;
          caller = caller;
          path_type = PathType.default;
        } in
        let direct = called-direct ci.operand f called in
        let step : add_call_path ci.inst false f caller m ≡ some m' =
          rw (direct, called, external, analyze_call) at e in
        let (old, here, same) = add_call_path-made ci.inst false f caller m m' step in
        subst (λ k. IsRecorded k f caller ci.inst) same
          (record {
            path = m.count;
            calls = push_back old m.count;
            entry = update_self m.entries f (some (push_back old m.count));
            member = has-push_back m.count old m.count ∙ ground arith;
            made_by = ap (λ k. k.caller) (update_self m.paths m.count path);
            at = update_self m.call_inst m.count ci.inst;
          })

    analyze_calls-AllRecorded :
        (may : ℕ → Bool) (caller : ℕ) (cis : List CallInst) (m : FunctionMap)
        → IsBuilt names m
        → (cis ≡ []) ⊎ (has caller names ≡ true)
        → AllCallsOk may names is_llvm cis
        → AllEntries may m
        → (m' : FunctionMap) × (analyze_calls is_llvm caller cis m ≡ some m')
          × Adds names m m'
          × AllEntries may m'
          × AllRecorded m' caller cis
    unfolding analyze_calls
    analyze_calls-AllRecorded may caller [] m inv own ok all = (m, refl, unchanged, all, tt)
    analyze_calls-AllRecorded may caller (ci ∷ cis) m inv (inl empty) ok all =
        absurd (ground (arith, empty))
    analyze_calls-AllRecorded may caller (ci ∷ cis) m inv (inr named) ok all =
        let (m', e, steps, all') =
          analyze_call-Extends may names is_llvm caller ci m named ok.0 all in
        let inv' = Adds-IsBuilt names m inv steps in
        let (m'', e', steps', all'', r) =
          analyze_calls-AllRecorded may caller cis m' inv' (inr named) ok.1 all' in
        (
          m'',
          rw (e, analyze_calls) e',
          Adds-trans names steps steps',
          all'',
          (
            λ f called external.
                Adds-IsRecorded m' inv' steps' f caller ci.inst
                  (analyze_call-IsRecorded caller ci m m' f e called external),
            r,
          ),
        )

    pub analyze_functions-AllRecorded :
        (may : ℕ → Bool) (fs : List Function) (m : FunctionMap)
        → IsBuilt names m
        → AllFunctionsOk may names is_llvm fs
        → AllEntries may m
        → (m' : FunctionMap) × (analyze_functions is_llvm fs m ≡ some m')
          × Adds names m m'
          × AllEntries may m'
          × AllFunctionsRecorded m' fs
    unfolding analyze_functions
    analyze_functions-AllRecorded may [] m inv ok all = (m, refl, unchanged, all, tt)
    analyze_functions-AllRecorded may (f ∷ fs) m inv ok all =
        let (m', e, steps, all', r) =
          analyze_calls-AllRecorded may f.name f.call_insts m inv ok.0 ok.1 all in
        let inv' = Adds-IsBuilt names m inv steps in
        let (m'', e', steps', all'', r') = analyze_functions-AllRecorded may fs m' inv' ok.2 all' in
        (
          m'',
          rw (e, analyze_functions) e',
          Adds-trans names steps steps',
          all'',
          (AllRecorded-kept m' inv' steps' f.name f.call_insts r, r'),
        )
