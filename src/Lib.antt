-- ===== src/Lib.antt =====
-- A model of semalloc's allocator (backend/), with proofs.
--
-- semalloc places heap objects by their allocation site: the compiler pass of frontend/ writes a site
-- (CSI), a loop bit and a huge bit into the unused high bits of the size of a request, and the
-- allocator keeps objects of different sites in loops apart, each site and size class in its own BIBOP
-- ("big bag of pages").
--
-- The parts, from the bottom up:
--   * Config: backend/include/defines.hh and hash.h, the constants and the fields of a request.
--   * SizeClass: BIBOP::computeSizeIndex of backend/src/BIBOP.cc.
--   * Pool: MemoryPool of backend/src/MemoryPool.cc, a bump allocator over one mapping.
--   * Header: the 16 bytes before each object, backend/include/HelperObjects.hh. HugeHeader and
--     RegularHeader overlap, and a `Cell` has the fields of both.
--   * Machine: what the code uses of the system. `Os` has mmap, munmap and madvise as parameters, and
--     `IsOs` states what is documented of them. `Run` is the outcome of a command: a result and a
--     state, an exit of the process, a hardware trap, or the end of the fuel. Machine/Ensures has
--     partial and total postconditions.
--   * Bibop: SingleBIBOP and IndividualBIBOP. Bibop/Bag follows one BIBOP and the objects the program
--     holds as a step relation, Bibop/Invariant and Bibop/Steps keep its invariant.
--   * Probe: linear probing, which two tables of the manager have in common.
--   * Manager: MemoryManager of backend/src/MemoryManager.cc, with a `State` of one manager and the
--     heap. DataPool is acquireIndividualDataPool, Individual is getIndividualBIBOPbyCSI, Lazy is
--     tryPutToLazyPool, Init is InitMemoryManager, Malloc is mallocMemory and allocateHuge, Release
--     is freeRegularMemory, freeOtherThreadMemory, handleFreeList and freeHugeMemory.
--   * Api: the css_ functions of backend/src/semalloc.cc and init_thread of backend/include/threads.h,
--     over a `World` of the managers of all threads; Api/Wrapper is backend/src/wrapper.cc.
--   * Frontend: the compiler pass of frontend/, as algorithms on a call graph. Frontend/Graph is
--     FlipFunctionMap and ConstructFinalCFG of frontend/src/InstrumentIR.cc, Frontend/Traverse the
--     traversal that its marking functions share, Frontend/Marking doInitialization and
--     MarkOnlyRelevantFunctions, Frontend/Cycles instrIsInaLoop, Frontend/LoopMarking
--     MarkLoopRelevantFunctions, Frontend/Run the composition of these by run, and Frontend/Carry the
--     first loop of doModulePass. Frontend/Module is what the pass asks of an LLVM module,
--     Frontend/ConstructCg builds FunctionMap as frontend/src/ConstructCG.cc and
--     frontend/src/ReduceLibraryIndirectCall.cc do, and Frontend/Main joins them to run as main of
--     frontend/src/Analyzer.cc does; the targets of indirect calls are a parameter there. Frontend/Mlta
--     finds them with findCalleesWithMLTA and getDependentTypes of frontend/src/MLTA.cc, from the sets
--     of functions by layer, a type and an index in it; how these are collected is left out. What LLVM says of loops (LoopInfo) and CXXGraph
--     of components is a parameter.
--     Frontend/Weights is ComputeEdgeWeight of frontend/src/InstrumentIR.cc after its checks, which
--     are Frontend/Checks: the sort of the functions and the weights of the calls, whose sum over a
--     calling context is the tracking variable. Frontend/Request is the request word that the code
--     inserted by UpdateHMFInterface computes from that variable, with CSSHashFunction of
--     frontend/src/helper.cc; Config reads its fields on the allocator's side. Frontend/Recursion
--     is what the code inserted by frontend/src/RecursiveHelper.cc does on each way out of a call; a
--     write past its stack of 1000 frames and a block without an end are `none`.
--   * Examples: concrete states on which the theorems are applied.
--
-- Memory is a function from the address of a 16-byte cell to its fields; the code reads and writes
-- memory only through headers, list links and BIBOPs, and copies bytes in realloc and calloc. BIBOPs
-- lie in a map of their own, keyed by their address. Addresses and sizes are 64-bit words with
-- wrap-around. An access to address 0 and the use of an address that holds no BIBOP are faults.
--
-- The only loop without a bound in the source is that of handleFreeList, which runs on fuel: one
-- round takes one object off the list. The loops over tables run over the whole table, whose size is
-- a constant of the source.
--
-- The sort of ComputeEdgeWeight also runs on fuel, one round for each function, and so do the
-- traversals of the call graph: a round takes one function off the queue, and a function puts as many
-- on it as it has calls, once. Twice the number of calls is enough for a queue that starts with the
-- calls of one function. The worklist of getDependentTypes starts with one layer, and one round more
-- than there are propagations is enough; the loop over layers ends after MAX_TYPE_LAYER rounds.
--
-- Not modelled: output; the interleavings of threads inside one operation; the rest of the compiler
-- pass of frontend/, which walks LLVM values, as the type analysis does to collect its sets; the graph
-- library in frontend/external; the benchmarks.
pub mod Common
pub mod Config
pub mod SizeClass
pub mod Pool
pub mod Header
pub mod Machine
pub mod Probe
pub mod Bibop
pub mod Manager
pub mod Api
pub mod Frontend
pub mod Examples
