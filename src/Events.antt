-- ===== src/Events.antt =====
-- integrations/events.py: the fan-out of a run's events to its observers.
-- `Event` has the events, `Frame` the frames that merge token deltas, `Coalesce` the stream of one
-- observer, `Broadcast` the queues; `Lossless`, `Bounds`, `Ordered` and `Queues` hold the proofs.
pub mod Event
pub mod Frame
pub mod Coalesce
pub mod Broadcast
pub mod Tails
pub mod Queues
pub mod Snapshot
pub mod Sound
pub mod Parts
pub mod Lossless
pub mod Stream
mod Tests
