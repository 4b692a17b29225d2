-- ===== src/Service.antt =====
-- integrations/service.py: the runs of the core.
-- `View` and `Run` hold the state of a run and its events, `Requests` the questions to people, `Typed` and
-- `Sink` what the graph of a run reports, `Title` what the title of a page names, `Execute` the course of a run, `Methods` what clients ask of one;
-- `Core` has the methods of the core. `Steps` and `World` say what may follow what. `Sound`, `Accepted`,
-- `Delivered`, `Endings`, `Leaves`, `Checks` and `Honest` hold the proofs on events and outcomes, `Pending` that on the pending request, `Rounds` that on the scheduler, `Aside`, `Over` and `Stuck` those on runs
-- whose task is over, `Gone` and `Lost` that on control of the browser.
pub mod View
pub mod Run
pub mod Requests
pub mod Typed
pub mod Sink
pub mod Title
pub mod Execute
pub mod Methods
pub mod Steps
pub mod Sound
pub mod Accepted
pub mod Delivered
pub mod Aside
pub mod Endings
pub mod Leaves
pub mod Checks
pub mod Honest
pub mod Pending
pub mod Over
pub mod Stuck
pub mod Core
pub mod Rounds
pub mod World
pub mod Gone
pub mod Lost
mod Tests
mod CoreTests
