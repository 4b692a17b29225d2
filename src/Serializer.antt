-- ===== src/Serializer.antt =====
-- agents/browser_mutation_serializer.py: the mutations of a browser in one response, one at a time.
-- `Batch` has the middleware and its lock, `Skips` and `Parallel` hold the proofs.
pub mod Batch
pub mod Skips
pub mod Parallel
mod Tests
