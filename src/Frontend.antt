-- ===== src/Frontend.antt =====
-- The parts of the compiler pass in frontend/ that work on the call graph.
pub mod Carry
pub mod Checks
pub mod ConstructCg
pub mod Cycles
pub mod Graph
pub mod LoopMarking
pub mod Main
pub mod Marking
pub mod Mlta
pub mod Module
pub mod Recursion
pub mod Request
pub mod Run
pub mod Traverse
pub mod Weights
