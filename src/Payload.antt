-- ===== src/Payload.antt =====
-- The sanitizer of event payloads in integrations/service.py: `_safe_payload` and `_safe_value`.
-- `Json` has the values, `Sanitize` the code, `Safe` and `Fixed` what the output looks like.
pub mod Json
pub mod Sanitize
pub mod Safe
pub mod Fixed
mod Tests
