-- ===== src/Frontend/Module.antt =====
-- What the pass in frontend/ asks of an LLVM module. Names, instructions and global variables are
-- numbers.
use semalloc.Common.{ℕ, Bool, true, false, Option, none, some, List}

-- The called operand: a function, a cast of one, another constant, assembly, a value that is loaded
-- from a global variable, or another value.
pub data Operand : Type 0 where
  function_operand : ℕ → Operand
  cast_operand : ℕ → Operand
  constant_operand inline_asm : Operand
  loaded_global : ℕ → Operand
  value_operand : Operand

pub record CallInst : Type 0 where
  pub inst : ℕ
  pub operand : Operand

-- CallInst::isIndirectCall: neither a constant nor assembly is called.
abbrev pub is_indirect_call : Operand → Bool
is_indirect_call (Operand.function_operand f) = false
is_indirect_call (Operand.cast_operand f) = false
is_indirect_call Operand.constant_operand = false
is_indirect_call Operand.inline_asm = false
is_indirect_call (Operand.loaded_global g) = true
is_indirect_call Operand.value_operand = true

-- CallInst::getCalledFunction, or the function under the casts.
abbrev pub called_function : Operand → Option ℕ
called_function (Operand.function_operand f) = some f
called_function (Operand.cast_operand f) = some f
called_function Operand.constant_operand = none
called_function Operand.inline_asm = none
called_function (Operand.loaded_global g) = none
called_function Operand.value_operand = none

-- The global variable that the called operand is loaded from, if it is.
abbrev pub loaded_from : Operand → Option ℕ
loaded_from (Operand.function_operand f) = none
loaded_from (Operand.cast_operand f) = none
loaded_from Operand.constant_operand = none
loaded_from Operand.inline_asm = none
loaded_from (Operand.loaded_global g) = some g
loaded_from Operand.value_operand = none

-- The call instructions of a function, in the order of its blocks.
pub record Function : Type 0 where
  pub name : ℕ
  pub call_insts : List CallInst

-- A global variable of pointer type, with the function that it starts with if it does.
pub record GlobalVariable : Type 0 where
  pub global_name : ℕ
  pub initializer : Option ℕ

pub record Module : Type 0 where
  pub functions : List Function
  pub globals : List GlobalVariable
