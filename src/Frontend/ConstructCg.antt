-- ===== src/Frontend/ConstructCg.antt =====
-- ConstructCGPass of frontend/src/ConstructCG.cc, which builds FunctionMap, and ReduceLibraryIndirectCall
-- of frontend/src/ReduceLibraryIndirectCall.cc, which adds the calls of heap functions through globals.
pub mod Built
pub mod Recorded
pub mod Returns
pub mod Steps
use semalloc.Common.{
  ℕ, suc, Bool, true, false, Option, none, some, List, [], ◌∷◌, has, if◌then◌else◌, update,
}
use semalloc.Frontend.Graph.{Paths, CallPath, PathType, push_back}
use semalloc.Frontend.Module.{
  Operand, CallInst, is_indirect_call, called_function, loaded_from, Function, GlobalVariable,
  Module,
}

-- FunctionMap and the CallPath objects made so far, `count` of them.
pub record FunctionMap : Type 0 where
  pub entries : ℕ → Option (List ℕ)
  pub paths : Paths
  pub call_inst : ℕ → ℕ
  pub is_indirect : ℕ → Bool
  pub count : ℕ

abbrev pub no_functions : FunctionMap
no_functions = record {
  entries = λ _. none;
  paths = λ _. record { callee = 0; caller = 0; path_type = PathType.default };
  call_inst = λ _. 0;
  is_indirect = λ _. false;
  count = 0;
}

-- `new CallPath(...)`, put at the end of an entry.
unfoldable pub new_call_path :
    (inst : ℕ) → (indirect : Bool) → (callee caller : ℕ) → List ℕ → FunctionMap → FunctionMap
new_call_path inst indirect callee caller ps m = record {
  entries = update m.entries callee (some (push_back ps m.count));
  paths =
      update m.paths m.count
        (record { callee = callee; caller = caller; path_type = PathType.default });
  call_inst = update m.call_inst m.count inst;
  is_indirect = update m.is_indirect m.count indirect;
  count = suc m.count;
}

-- `FunctionMap->at(callee)->push_back(new CallPath(...))`; `none` is the exception of a missing key.
unfoldable pub add_call_path :
    (inst : ℕ) → (indirect : Bool) → (callee caller : ℕ) → FunctionMap → Option FunctionMap
unfolding new_call_path
add_call_path inst indirect callee caller m = elim (m.entries callee) [
  | none ↦ none
  | some ps ↦ some (new_call_path inst indirect callee caller ps m)
]

-- An indirect call and the function that makes it.
pub record IndirectCall : Type 0 where
  pub indirect_inst : ℕ
  pub indirect_caller : ℕ

unfoldable pub merge_callees : IndirectCall → List ℕ → FunctionMap → Option FunctionMap
unfolding add_call_path
merge_callees ic [] m = some m
merge_callees ic (f ∷ fs) m = elim (add_call_path ic.indirect_inst true f ic.indirect_caller m) [
  | none ↦ none
  | some m' ↦ merge_callees ic fs m'
]

-- `callees` are the targets that the type analysis gives.
unfoldable pub merge_indirect_function_calls :
    (callees : ℕ → List ℕ) → List IndirectCall → FunctionMap → Option FunctionMap
unfolding merge_callees
merge_indirect_function_calls callees [] m = some m
merge_indirect_function_calls callees (ic ∷ ics) m =
    elim (merge_callees ic (callees ic.indirect_inst) m) [
      | none ↦ none
      | some m' ↦ merge_indirect_function_calls callees ics m'
    ]

module _ (is_llvm : ℕ → Bool) where
  unfoldable pub analyze_call : ℕ → CallInst → FunctionMap → Option FunctionMap
  unfolding add_call_path
  analyze_call caller ci m =
      if is_indirect_call ci.operand then some m else elim (called_function ci.operand) [
        | none ↦ some m
        | some f ↦ if is_llvm f then some m else add_call_path ci.inst false f caller m
      ]

  unfoldable pub analyze_calls : ℕ → List CallInst → FunctionMap → Option FunctionMap
  unfolding analyze_call
  analyze_calls caller [] m = some m
  analyze_calls caller (ci ∷ cis) m = elim (analyze_call caller ci m) [
    | none ↦ none
    | some m' ↦ analyze_calls caller cis m'
  ]

  unfoldable pub analyze_functions : List Function → FunctionMap → Option FunctionMap
  unfolding analyze_calls
  analyze_functions [] m = some m
  analyze_functions (f ∷ fs) m = elim (analyze_calls f.name f.call_insts m) [
    | none ↦ none
    | some m' ↦ analyze_functions fs m'
  ]

  unfoldable pub add_entries : List Function → FunctionMap → FunctionMap
  add_entries [] m = m
  add_entries (f ∷ fs) m =
      add_entries fs
        (if is_llvm f.name then m else record m { entries = update m.entries f.name (some []) })

  -- doInitialization of each module, then doModulePass of each module.
  unfoldable pub initialize_modules :
      (callees : ℕ → List ℕ) → List IndirectCall → List Module → FunctionMap → Option FunctionMap
  unfolding add_entries merge_indirect_function_calls
  initialize_modules callees ics [] m = some m
  initialize_modules callees ics (md ∷ mds) m =
      elim (merge_indirect_function_calls callees ics (add_entries md.functions m)) [
        | none ↦ none
        | some m' ↦ initialize_modules callees ics mds m'
      ]

  unfoldable pub analyze_modules : List Module → FunctionMap → Option FunctionMap
  unfolding analyze_functions
  analyze_modules [] m = some m
  analyze_modules (md ∷ mds) m = elim (analyze_functions md.functions m) [
    | none ↦ none
    | some m' ↦ analyze_modules mds m'
  ]

  unfoldable pub construct_cg :
      (callees : ℕ → List ℕ) → List IndirectCall → List Module → Option FunctionMap
  unfolding initialize_modules analyze_modules
  construct_cg callees ics mds = elim (initialize_modules callees ics mds no_functions) [
    | none ↦ none
    | some m ↦ analyze_modules mds m
  ]

-- HMFIndirectFunctions: the globals that start with a heap function.
unfoldable pub traverse_global_variables :
    (heap_functions : List ℕ) → List GlobalVariable → (ℕ → Option ℕ) → ℕ → Option ℕ
traverse_global_variables heap_functions [] found = found
traverse_global_variables heap_functions (g ∷ gs) found =
    traverse_global_variables heap_functions gs (elim g.initializer [
      | none ↦ found
      | some f ↦ if has f heap_functions then update found g.global_name (some f) else found
    ])

unfoldable pub reduce_calls : (ℕ → Option ℕ) → ℕ → List CallInst → FunctionMap → Option FunctionMap
unfolding add_call_path
reduce_calls found caller [] m = some m
reduce_calls found caller (ci ∷ cis) m =
    let rest = reduce_calls found caller cis m in
    elim (loaded_from ci.operand) [
      | none ↦ rest
      | some g ↦ elim (found g) [
        | none ↦ rest
        | some f ↦ elim (add_call_path ci.inst true f caller m) [
          | none ↦ none
          | some m' ↦ reduce_calls found caller cis m'
        ]
      ]
    ]

unfoldable pub update_cfg_with_indirect_calls :
    (ℕ → Option ℕ) → List Function → FunctionMap → Option FunctionMap
unfolding reduce_calls
update_cfg_with_indirect_calls found [] m = some m
update_cfg_with_indirect_calls found (f ∷ fs) m = elim (reduce_calls found f.name f.call_insts m) [
  | none ↦ none
  | some m' ↦ update_cfg_with_indirect_calls found fs m'
]

unfoldable pub reduce_library_indirect_calls :
    (heap_functions : List ℕ) → Module → FunctionMap → Option FunctionMap
unfolding traverse_global_variables update_cfg_with_indirect_calls
reduce_library_indirect_calls heap_functions md m =
    update_cfg_with_indirect_calls (traverse_global_variables heap_functions md.globals (λ _. none))
      md.functions m

-- The part of main before the instrumentation, for the first module.
unfoldable pub build_function_map :
    (is_llvm : ℕ → Bool)
    → (heap_functions : List ℕ) → (callees : ℕ → List ℕ) → List IndirectCall
    → Module
    → Option FunctionMap
unfolding construct_cg reduce_library_indirect_calls
build_function_map is_llvm heap_functions callees ics md =
    elim (construct_cg is_llvm callees ics (md ∷ [])) [
      | none ↦ none
      | some m ↦ reduce_library_indirect_calls heap_functions md m
    ]
