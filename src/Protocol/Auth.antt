-- ===== src/Protocol/Auth.antt =====
-- `AuthenticationBudgetMiddleware` and `parse_authentication_result` (src/z_apply_core/agents/authentication.py).
-- `upper` is `str.upper`.
use z_apply_core.Prelude.{
  strip_prefix, ℕ, ◌+◌, max, leb, String, Bool, true, false, ◌||◌, not, str_eq, is_some,
  if◌then◌else◌,
}

pub record AuthenticationBudget : Type 0 where
  pub max_waits : ℕ
  pub waits : ℕ

abbrev pub new_budget : ℕ → AuthenticationBudget
new_budget max_waits = record { max_waits = max 1 max_waits; waits = 0 }

-- `awrap_tool_call`: whether the tool is called, and the budget.
unfoldable pub spend : String → AuthenticationBudget → Bool × AuthenticationBudget
spend name b =
    if not (str_eq name "browser_wait_for")
    then (true, b)
    else if leb b.max_waits b.waits
    then (false, b)
    else (true, record b { waits = b.waits + 1 })

-- `part in text`
unfoldable pub contains : String → String → Bool
unfolding strip_prefix
contains part String.[] = is_some (strip_prefix part String.[])
contains part (String.◌∷◌ c s) =
    let later = contains part s in is_some (strip_prefix part (String.◌∷◌ c s)) || later

pub data AuthStatus : Type 0 where
  authenticated blocked not_verified failed : AuthStatus

-- `parse_authentication_result`
unfoldable pub parse_authentication_result : (String → String) → String → AuthStatus
unfolding contains
parse_authentication_result upper text =
    if contains "AUTHENTICATED" (upper text) || contains "GATE_RESOLVED" (upper text)
    then authenticated
    else if contains "BLOCKED" (upper text)
    then blocked
    else not_verified
