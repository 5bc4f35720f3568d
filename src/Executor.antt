-- ===== src/Executor.antt =====
-- executor/: what the workers and the local runner compute for one partition.
pub mod TextSource
pub mod Iterator
pub mod Reduce
pub mod Pipeline
pub mod Runs
pub mod Operators
pub mod Reduction
pub mod Execution
pub mod Lines
pub mod Registry
pub mod LocalRunner
pub mod Actions
pub mod ShuffleRead
pub mod Tests
