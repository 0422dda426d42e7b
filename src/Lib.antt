-- ===== src/Lib.antt =====
-- SymCC: the compiler pass that instruments a program, and the runtime library that the instrumented
-- program calls.
--
-- The compiler pass (compiler/) inserts calls into the program under test, by which the program
-- builds an expression for each value that depends on its input. The runtime (runtime/) keeps those
-- expressions: runtime/Shadow.h maps each byte of memory to its expression, runtime/RuntimeCommon.cpp
-- reads, writes and moves memory together with its shadow and passes parameters, return values and
-- path constraints on, and a backend builds the expressions and solves the constraints.
--
-- Files and the code that they model:
--   Common, Common/*        booleans, lists, association lists, digits of numbers, and commands on a
--                           state that can fail
--   Backend                 the functions of runtime/RuntimeCommon.h that a backend provides, as an
--                           interface (`Backend`), and what the shared code relies on (`BackendLaws`)
--   Shadow, Shadow/*        runtime/Shadow.h: page map, read and write iterators, `isConcrete`, and
--                           std::fill, std::copy and std::copy_backward over the iterators
--   Runtime                 runtime/RuntimeCommon.cpp: `Machine` is the state; set/get_return_expression,
--                           set/get_parameter_expression, memcpy, memset, memmove, read_memory and
--                           write_memory are the functions of these names with the prefix _sym_
--   Runtime/Transfer        what memcpy, memmove and memset do to the shadow
--   Runtime/Reading         the expression of a read
--   Runtime/Writing         the expressions that a write leaves, and reading them back
--   Runtime/Aggregates/*    _sym_build_extract, _sym_build_bswap, _sym_build_insert
--   Runtime/Switch, /Order  _sym_push_switch_constraint, and the calls of it that
--                           compiler/Symbolizer.cpp emits for a switch
--   Runtime/Input           _sym_make_symbolic and symcc_make_symbolic
--   Config, Config/*        runtime/Config.h and runtime/Config.cpp: the settings, checkFlagString and
--                           loadConfig; /Values describes flags and numbers by themselves
--   GarbageCollection,
--   GarbageCollection/*     runtime/GarbageCollection.cpp: the registered regions and
--                           collectReachableExpressions
--   Wrappers, Wrappers/*    runtime/LibcWrappers.cpp: `Process` is the state, with the C library as the
--                           parameter `CLibrary`; the wrappers of open, read, lseek and lseek64;
--                           Wrappers/Copying has malloc, calloc, memcpy, memset, memmove and strncpy;
--                           Wrappers/Comparing strchr, memcmp, bcmp, strncmp, strncasecmp, strcmp,
--                           strcasecmp and the byte swaps; Wrappers/Streams the stdio functions and mmap
--   SimpleBackend,
--   SimpleBackend/*         runtime/simple_backend/Runtime.cpp: `SimpleState` is the state, with Z3 as the
--                           parameter `Z3` and its laws in /Laws; /Builders, /Constraints; /Path is the
--                           path condition, /Pins concretization, /Inputs the table of input bytes,
--                           /References the reference counts; /Instance fills the interface `Backend`
--   QsymBackend,
--   QsymBackend/*           runtime/qsym_backend/Runtime.cpp: `QsymState` is the state, with Qsym as the
--                           parameter `Qsym`; /Inputs, /Solving, /Printing, /Collection; /Requests and
--                           /Building have all builders at once, /Lifetime a program with collections
--   RustBackend,
--   RustBackend/*           runtime/rust_backend/Runtime.cpp: `RustState` is the state, with the Rust
--                           library as the parameter `RustLibrary`; /Packing is the representation of an
--                           expression, /Building the builders, /Calls and /Collection the rest
--   Compiler                compiler/Symbolizer.cpp: shortCircuitExpressionUses, with the code that it emits as
--                           data and an evaluation of that code
--   Compiler/Ir,
--   Compiler/Handlers       what the pass sees of LLVM, and compiler/Runtime.cpp: the functions of the runtime
--                           with their declared types, and the tables of handlers
--   Compiler/Emission       compiler/Symbolizer.h: `State` is the state of the pass for one function, with the
--                           emitted instructions; buildRuntimeCall, forceBuildRuntimeCall, merge and
--                           registerSymbolicComputation; /WellFormed, /Steps and /Merging are its
--                           invariant, /Meaning and /Tracing what emitted calls compute
--   Compiler/Values, /Offsets, /Addresses, /Visitors, /Memory, /Calls, /Phis
--                           the rest of compiler/Symbolizer.cpp: createValueExpression,
--                           aggregateMemberOffset, visitGetElementPtrInst, the visitors of computed
--                           values, of memory, of calls, and finalizePHINodes (/Finished); an /Emitted
--                           below them has the invariant, and a /Meaning or /Correct what is computed
--   Compiler/Pass           compiler/Pass.cpp: instrumentFunction, and the dispatch of the visitors
--   Compiler/Passing        a run of emitted code on the state of Runtime: one activation of a function holds
--                           the results of its emitted calls; /Arguments and /Results follow an
--                           expression into a called function and back, and /Accesses through memory;
--                           /Computations runs a registered computation as it is wrapped in Compiler
--   Startup                 _sym_initialize of the three backends
--   Tests/*                 a small backend, a small Z3 and small libraries with their laws, and runs of
--                           the models on them
--
-- A null SymExpr is `none`. A function takes the state and gives a result with the new state, or
-- `none` where an assertion fails or an exception is thrown. Addresses and sizes are numbers below
-- 2^64, and the additions and subtractions of the source wrap around at 2^64 in the definitions.
-- The loops run over the number of elements between the iterators, so they need no fuel. Where a
-- theorem asks that a range does not reach the end of the address space, the reason is that the end
-- iterator of the source would wrap around. In the backends a pointer to an expression is a number,
-- `assert` is compiled in, and `std::map::at` and a failed assertion end the run. The allocator is not
-- modelled, and debug output is left out.
--
-- In the compiler pass an instruction of the program is a number with what the visitors ask of it, and
-- an emitted one has a number and a place, which stands for the splitting of blocks; a conversion of
-- a concrete value is a value, and a structure a number with its members in the data layout, which is
-- a parameter. Not modelled: LLVM itself, the renaming of intercepted functions and the constructor
-- of a module, the registration of the pass, and the messages that it prints.
pub mod Backend
pub mod Common
pub mod Compiler
pub mod Config
pub mod GarbageCollection
pub mod QsymBackend
pub mod Runtime
pub mod RustBackend
pub mod Shadow
pub mod SimpleBackend
pub mod Startup
pub mod Tests
pub mod Wrappers
