-- ===== src/Payload/Tests.antt =====
-- Payloads (src/z_apply_core/integrations/service.py), and the theorem at one.
use z_apply_core.Prelude.{◌≡◌, refl, String, mem_str, take_text}
use z_apply_core.Payload.Json.{number, text, dict, instance, Entries, no_entries, entry}
use z_apply_core.Payload.Sanitize.{safe_payload, safe_value}
use z_apply_core.Payload.Safe.{AllPublic, IsPlain}
use z_apply_core.Payload.Fixed.{safe_payload-AllPublic-fixes}

abbrev same : String → String
same s = s

abbrev reply : Entries
reply = entry "answer" (text "yes") (
    entry "token" (text "secret") (
      entry "usage" (dict (entry "raw" (number 1) (entry "total" (number 2) no_entries)))
        no_entries))

reply_test :
    safe_payload same reply
    ≡ entry "answer"
        (text "yes")
        (entry "usage" (dict (entry "total" (number 2) no_entries)) no_entries)
unfolding safe_payload safe_value mem_str take_text
reply_test = refl

-- The fields of a dataclass are not looked at.
dataclass_test :
    safe_payload same
      (entry "login" (instance (entry "password" (text "secret") no_entries)) no_entries)
    ≡ entry "login" (dict (entry "password" (text "secret") no_entries)) no_entries
unfolding safe_payload safe_value mem_str take_text
dataclass_test = refl

safe_payload-AllPublic-fixes_example :
    AllPublic same 0 (safe_payload same reply)
    × (safe_payload same (safe_payload same reply) ≡ safe_payload same reply)
unfolding IsPlain
safe_payload-AllPublic-fixes_example =
    safe_payload-AllPublic-fixes same reply (tt, (tt, ((tt, (tt, tt)), tt)))
