-- ===== src/Ledger.antt =====
-- context/call_ledger.py: the model calls of a run. `Calls` is `RunCallLedger`, `Totals` holds the proof.
pub mod Calls
pub mod Totals
mod Tests
