-- ===== src/Examples/Main.antt =====
-- A module: 3 calls 1, calls 2 through a pointer and the heap function 0 through the global 7; 1 and 2
-- call each other; 2 calls 0; and 50 is internal to LLVM.
use semalloc.Common.{
  ℕ, ◌+◌, ◌≡◌, sym, ◌∙◌, ◌==◌, false, Option, none, some, List, [], ◌∷◌, if◌then◌else◌, refl, ap,
  arith, inl, inr,
}
use semalloc.Frontend.Module.{Operand, CallInst, Module}
use semalloc.Frontend.ConstructCg.{FunctionMap, no_functions, build_function_map}
use semalloc.Frontend.ConstructCg.Built.{IsBuilt}
use semalloc.Frontend.ConstructCg.Recorded.{AllFunctionsRecorded}
use semalloc.Frontend.ConstructCg.Returns.{build_function_map-IsBuilt}
use semalloc.Frontend.Cycles.{mark_loop_functions, find_cycles}
use semalloc.Frontend.Run.{do_initialization, flip_program, Analysed}
use semalloc.Frontend.Run.Checked.{IsAccepted}
use semalloc.Frontend.Run.Returns.{cycle_of}
use semalloc.Frontend.Main.{Answers, calls_of, program_of, analyse}
use semalloc.Frontend.Main.Accepted.{IsWhole, analyse-IsAccepted}
use semalloc.Examples.Run.{library, nodes-AllDistinct, nodes-ends, marked}

abbrev call : ℕ → Operand → CallInst
call i o = record { inst = i; operand = o }

abbrev small_module : Module
small_module = record {
  functions =
      record { name = 0; call_insts = [] }
      ∷ record {
        name = 1;
        call_insts =
            call 100 (Operand.function_operand 2) ∷ call 101 (Operand.function_operand 50) ∷ [];
      }
      ∷ record {
        name = 2;
        call_insts = call 102 (Operand.cast_operand 1) ∷ call 103 (Operand.function_operand 0) ∷ [];
      }
      ∷ record {
        name = 3;
        call_insts =
            call 104 (Operand.function_operand 1)
            ∷ call 105 (Operand.loaded_global 7)
            ∷ call 106 Operand.value_operand
            ∷ [];
      }
      ∷ record { name = 50; call_insts = [] }
      ∷ [];
  globals = record { global_name = 7; initializer = some 0 } ∷ [];
}

abbrev answers : Answers
answers = record {
  is_llvm = λ f. f == 50;
  heap_functions = 0 ∷ [];
  callees = λ i. if i == 106 then 2 ∷ [] else [];
  indirect_calls =
      record { indirect_inst = 105; indirect_caller = 3 }
      ∷ record { indirect_inst = 106; indirect_caller = 3 }
      ∷ [];
  in_loop = λ _. false;
  library = library;
  intra_name = λ i. 9 + i;
}

abbrev built : FunctionMap
built =
    elim (build_function_map answers.is_llvm answers.heap_functions answers.callees
      answers.indirect_calls small_module) [ none ↦ no_functions | some m ↦ m ]

built-calls :
    (calls_of built 0 ≡ 3 ∷ 5 ∷ [])
    × (calls_of built 1 ≡ 2 ∷ 4 ∷ [])
    × (calls_of built 2 ≡ 0 ∷ 1 ∷ [])
unfolding build_function_map
built-calls = (refl, refl, refl)

small_module-IsWhole : IsWhole answers small_module
small_module-IsWhole = record {
  own = (refl, (refl, tt));
  targets = λ i f h. ground arith;
  calls = (
    inl refl,
    tt,
    (
      inr refl,
      (λ f e x. ground (arith, e), (λ f e x. ground (arith, e, x), tt)),
      (
        inr refl,
        (λ f e x. ground (arith, e), (λ f e x. ground (arith, e), tt)),
        (
          inr refl,
          (λ f e x. ground (arith, e), (λ f e x. cc, (λ f e x. cc, tt))),
          (inl refl, tt, tt),
        ),
      ),
    ),
  );
  globals = (λ f e h. ground (arith, e), tt);
  distinct = (refl, (refl, (refl, (refl, tt))));
  library = record { distinct = nodes-AllDistinct; ends = nodes-ends };
  fresh = λ f i h e. ground (arith, h, e);
}

abbrev result : Option Analysed → List ℕ
result none = []
result (some r) = r.relevant_all

analyse-small_module : result (analyse answers small_module) ≡ 0 ∷ 3 ∷ 9 ∷ []
unfolding analyse
analyse-small_module = refl

small_functions :
    marked (do_initialization (program_of answers small_module built)) ≡ 0 ∷ 1 ∷ 3 ∷ 2 ∷ []
unfolding do_initialization program_of build_function_map
small_functions = refl

one_cycle' :
    (f n : ℕ)
    → cycle_of (program_of answers small_module built) (0 ∷ 1 ∷ 3 ∷ 2 ∷ []) f ≡ some n
    → n ≡ 9
unfolding find_cycles mark_loop_functions flip_program program_of build_function_map
one_cycle' f n e = ground (arith, e)

build_function_map-IsBuilt_example :
    (m : FunctionMap) × (build_function_map answers.is_llvm answers.heap_functions answers.callees
        answers.indirect_calls small_module
      ≡ some m)
    × IsBuilt (0 ∷ 1 ∷ 2 ∷ 3 ∷ []) m
    × AllFunctionsRecorded (0 ∷ 1 ∷ 2 ∷ 3 ∷ []) answers.is_llvm m small_module.functions
build_function_map-IsBuilt_example =
    build_function_map-IsBuilt answers.is_llvm answers.heap_functions answers.callees
      answers.indirect_calls small_module small_module-IsWhole.own small_module-IsWhole.targets
      small_module-IsWhole.calls small_module-IsWhole.globals

built_is :
    (m : FunctionMap)
    → build_function_map answers.is_llvm answers.heap_functions answers.callees
        answers.indirect_calls small_module
      ≡ some m
    → built ≡ m
built_is m e = ap (λ o. elim o [ none ↦ no_functions | some k ↦ k ]) e

analyse-IsAccepted_example : (r : Analysed) × (analyse answers small_module ≡ some r) × IsAccepted r
analyse-IsAccepted_example =
    analyse-IsAccepted answers small_module small_module-IsWhole λ m k f p n j e e' c.
      let same = built_is m e in
      let start : do_initialization (program_of answers small_module built) ≡ some k =
        ap (λ i. do_initialization (program_of answers small_module i)) same ∙ e' in
      let set : k.function_mark_set ≡ 0 ∷ 1 ∷ 3 ∷ 2 ∷ [] =
        sym (ap marked start) ∙ small_functions in
      let cycle = λ (h : ℕ).
        ap (λ i. cycle_of (program_of answers small_module i) k.function_mark_set h) same ∙ refl in
      let cycle' = λ (h : ℕ).
        ap (λ s. cycle_of (program_of answers small_module built) s h) (sym set) ∙ cycle h in
      λ outer inner.
        one_cycle' (m.paths p).caller n (cycle' (m.paths p).caller ∙ outer)
        ∙ sym (one_cycle' (m.paths p).callee j (cycle' (m.paths p).callee ∙ inner))
