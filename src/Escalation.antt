-- ===== src/Escalation.antt =====
-- agents/delegation_guard.py and agents/human_escalation_guard.py: when an agent may ask a person.
-- `Ladder` counts failed delegations, `Ask` checks a question, `Opens` holds the proofs.
pub mod Ladder
pub mod Ask
pub mod Opens
mod Tests
