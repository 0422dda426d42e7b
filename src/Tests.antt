-- ===== src/Tests.antt =====
-- Concrete runs of the models, on a small backend.
mod Toy
mod Solver
mod Simple
mod Rust
mod Qsyms
mod Shadows
mod Runs
mod Files
mod Collection
mod Settings
mod Strings
mod Computations
mod Instrumentation
mod Emissions
mod Activations
mod Streams
mod Comparisons
