-- ===== src/Browsers.antt =====
-- browser_pool.py: one browser for each run, on a slot of its own.
-- `Pool` has the data and the methods, `Launch` the launch loop, `World` the interleavings of several
-- runs, `Capacity`, `Admission`, `Race` and `Orphan` the proofs.
pub mod Pool
pub mod Launch
pub mod World
pub mod Capacity
pub mod Admission
pub mod Race
pub mod Orphan
mod Tests
