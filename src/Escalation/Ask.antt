-- ===== src/Escalation/Ask.antt =====
-- `HumanEscalationGuardMiddleware` (src/z_apply_core/agents/human_escalation_guard.py).
use z_apply_core.Prelude.{
  String, Bool, false, ◌&&◌, not, Option, none, some, List, [], ◌∷◌, str_eq, mem_str, is_blank,
  strip, if◌then◌else◌,
}
use z_apply_core.Guard.Call.{Json, text, lookup, ToolCall}
use z_apply_core.Escalation.Ladder.{DelegationFailureLadder, tripped}

-- `_VALID_REASONS`
abbrev pub valid_reasons : List String
valid_reasons = "missing_candidate_fact" ∷ "ambiguous_field" ∷ "human_challenge" ∷ []

-- `_HUMAN_CHALLENGE_REASONS`
abbrev pub human_challenge_reasons : List String
human_challenge_reasons = "human_challenge" ∷ []

-- Whether the tool is called, or which denial is given back.
pub data Verdict : Type 0 where
  called invalid_reason not_for_this_agent no_field : Verdict

abbrev or_empty : Option Json → Option String
or_empty none = some ""
or_empty (some (text s)) = some s
or_empty (some _) = none

abbrev is_open : Option DelegationFailureLadder → Bool
is_open none = false
is_open (some l) = tripped l

abbrev names_field : Option String → Bool
names_field none = false
names_field (some s) = not (is_blank (strip s))

unfoldable pub check_reason :
    List String → Option DelegationFailureLadder → ToolCall → Option String → Verdict
unfolding mem_str tripped lookup strip
check_reason allowed ladder c none = invalid_reason
check_reason allowed ladder c (some reason) =
    if not (mem_str reason valid_reasons)
    then invalid_reason
    else if not (mem_str reason allowed)
        && not (str_eq reason "missing_candidate_fact" && is_open ladder)
    then not_for_this_agent
    else if mem_str reason human_challenge_reasons
    then called
    else if names_field (or_empty (lookup "field_label" c.args))
    then called
    else no_field

-- `awrap_tool_call`, with `allowed_reasons` and the ladder.
unfoldable pub ask_verdict : List String → Option DelegationFailureLadder → ToolCall → Verdict
unfolding check_reason
ask_verdict allowed ladder c =
    if str_eq c.name "ask_human"
    then check_reason allowed ladder c (or_empty (lookup "reason" c.args))
    else called
