-- ===== src/Protocol.antt =====
-- agents/protocol_guard.py and agents/authentication.py: what an agent may write, and how it ends.
-- `Evidence` finds the markers of the runtime in a text, `Guard` is `ProseToolCallGuardMiddleware`, `Auth` has the
-- budget of waits and the verdict of the authentication agent; `Clean` holds the proof.
pub mod Evidence
pub mod Guard
pub mod Auth
pub mod Clean
mod Tests
