-- ===== src/Guard.antt =====
-- agents/no_progress_guard.py: the guard that ends a turn of the agent that makes no progress.
-- `Call` has the tool calls and their signatures, `State` the guard, `Wrap` its two wrappers; `Limits`,
-- `Failures`, `Denials`, `Refusals` and `Repeats` hold the proofs.
pub mod Call
pub mod State
pub mod Wrap
pub mod Limits
pub mod Failures
pub mod Denials
pub mod Refusals
pub mod Repeats
mod Tests
