-- ===== src/Goal.antt =====
-- agents/goal_runner.py: the loop that keeps a run at its goal, and the middleware that does not let
-- the model stop early. `Runner` and `Active` have the code, `Attempts` and `Stops` the proofs.
pub mod Runner
pub mod Active
pub mod Attempts
pub mod Stops
mod Tests
