-- ===== src/Escalation/Ladder.antt =====
-- `DelegationFailureLadder` and `DelegationResultMiddleware` (src/z_apply_core/agents/delegation_guard.py).
use z_apply_core.Prelude.{
  ℕ, ◌+◌, String, Bool, false, ◌&&◌, Option, some, List, [], ◌∷◌, str_eq, is_blank, strip, leb,
  if◌then◌else◌,
}
use z_apply_core.Guard.Call.{Json, text, lookup, ToolCall}

pub record DelegationFailureLadder : Type 0 where
  pub threshold : ℕ
  pub count : ℕ

unfoldable pub record_failure : DelegationFailureLadder → DelegationFailureLadder
record_failure l = record l { count = l.count + 1 }

unfoldable pub tripped : DelegationFailureLadder → Bool
tripped l = leb l.threshold l.count

-- What a tool gives back: a message with a text, or anything else.
pub data Output : Type 0 where
  message : String → Output
  other : Output

abbrev is_text : String → Option Json → Bool
is_text s (some (text t)) = str_eq t s
is_text s _ = false

abbrev is_empty : Output → Bool
is_empty (message s) = is_blank (strip s)
is_empty other = false

-- A result that the middleware of a role takes for a failed delegation.
unfoldable pub is_failed_delegation : String → ToolCall → Output → Bool
unfolding lookup strip
is_failed_delegation role c o =
    str_eq c.name "task" && is_text role (lookup "subagent_type" c.args) && is_empty o

-- `DelegationResultMiddleware.awrap_tool_call`, as what it does to the ladder.
unfoldable pub after_delegation :
    String → ToolCall → Output → DelegationFailureLadder → DelegationFailureLadder
unfolding is_failed_delegation record_failure
after_delegation role c o l = if is_failed_delegation role c o then record_failure l else l

unfoldable pub after_delegations :
    String → List (ToolCall × Output) → DelegationFailureLadder → DelegationFailureLadder
unfolding after_delegation
after_delegations role [] l = l
after_delegations role ((c, o) ∷ rest) l = after_delegations role rest (after_delegation role c o l)
