-- ===== src/Workspace.antt =====
-- browser_workspace.py and browser_submission.py: who may act on the browsers.
-- `Gate` is the gate between agents and a person, `Submission` the gate of the final click; `Exclusion`,
-- `Takeover` and `Approvals` hold the proofs.
pub mod Gate
pub mod Submission
pub mod Exclusion
pub mod Takeover
pub mod Approvals
mod Tests
