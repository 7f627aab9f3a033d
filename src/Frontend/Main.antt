-- ===== src/Frontend/Main.antt =====
-- main of frontend/src/Analyzer.cc, from the call graph to the maps that ComputeEdgeWeight gets. The
-- targets of indirect calls, which CallGraphPass finds, are a parameter.
pub mod Accepted
use semalloc.Common.{ℕ, Bool, Option, none, some, List, [], if◌then◌else◌}
use semalloc.Frontend.Graph.{Calls}
use semalloc.Frontend.Module.{Module}
use semalloc.Frontend.Cycles.{GraphLibrary}
use semalloc.Frontend.ConstructCg.{FunctionMap, IndirectCall, build_function_map}
use semalloc.Frontend.ConstructCg.Returns.{listed_functions}
use semalloc.Frontend.Run.{Program, Analysed, run}

-- What LLVM, CXXGraph and the analysis of indirect calls answer, and the heap functions.
pub record Answers : Type 0 where
  pub is_llvm : ℕ → Bool
  pub heap_functions : List ℕ
  pub callees : ℕ → List ℕ
  pub indirect_calls : List IndirectCall
  pub in_loop : ℕ → Bool
  pub library : GraphLibrary
  pub intra_name : ℕ → ℕ

-- A key that is missing has no calls.
abbrev pub calls_of : FunctionMap → Calls
calls_of m f = elim (m.entries f) [ none ↦ [] | some ps ↦ ps ]

unfoldable pub program_of : Answers → Module → FunctionMap → Program
program_of a md m = record {
  paths = m.paths;
  function_map = calls_of m;
  functions = listed_functions a.is_llvm md.functions;
  heap_functions = a.heap_functions;
  in_loop = λ p. a.in_loop (m.call_inst p);
  library = a.library;
  intra_name = a.intra_name;
}

unfoldable pub analyse : Answers → Module → Option Analysed
unfolding build_function_map program_of run
analyse a md = elim (build_function_map a.is_llvm a.heap_functions a.callees a.indirect_calls md) [
  | none ↦ none
  | some m ↦ run (program_of a md m)
]
