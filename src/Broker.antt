-- ===== src/Broker.antt =====
-- human/broker.py: the requests of one run that wait for a human.
-- `Request` has the data, `Methods` the broker's methods, `World` their interleavings, `Once` and
-- `Outcomes` the proofs.
pub mod Request
pub mod Methods
pub mod World
pub mod Counts
pub mod Claims
pub mod Once
pub mod Channel
pub mod Outcomes
pub mod Stranded
mod Tests
