-- ===== src/Slots.antt =====
-- profile_pool.py: the pool of disposable browser profiles that runs lease one at a time.
-- `Profile` has the profile tree and its checks, `Slot` one slot's life cycle, `Pool` the pool;
-- `Reset`, `Leasing`, `Counting` and `Uses` hold the proofs.
pub mod Profile
pub mod Slot
pub mod Pool
pub mod Reset
pub mod Leasing
pub mod Counting
pub mod Uses
pub mod Tests
