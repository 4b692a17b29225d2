-- ===== src/Guard/State.antt =====
-- `NoProgressGuardMiddleware` (src/z_apply_core/agents/no_progress_guard.py). What the browser shows when
-- a call begins and ends, and what the wrapped tool does, are inputs of a call.
use z_apply_core.Prelude.{
  ℕ, ◌+◌, String, Bool, true, false, ◌&&◌, ◌||◌, not, Option, none, some, is_some, List, [], ◌∷◌,
  ◌++◌, str_eq, mem_str, leb, if◌then◌else◌,
}
use z_apply_core.Dict
use z_apply_core.Dict.{Dict}
use z_apply_core.Events.Broadcast.{last_n}
use z_apply_core.Guard.Call.{
  ToolCall, ActionSignature, Library, progress_tool_names, productive_tool_names, action_signature,
  same_action, read_signature, is_repeatable_identical_call,
}

pub record Guard : Type 0 where
  pub max_identical_denials : ℕ
  pub max_non_progress : ℕ
  pub max_state_action_failures : ℕ
  pub max_stagnant_tool_calls : Option ℕ
  pub max_stagnant_model_responses : Option ℕ
  pub window_size : ℕ
  pub repetition_threshold : ℕ
  pub has_browser : Bool
  pub last_denial : String
  pub same_denials : ℕ
  pub non_progress : ℕ
  pub last_read_signature : Option String
  pub browser_signature : Option String
  pub state_action_failures : Dict ℕ
  pub blocked_state_actions : List String
  pub identical_attempts : Dict ℕ
  pub stagnant_tool_calls : ℕ
  pub stagnant_model_responses : ℕ
  pub action_window : List (Option ActionSignature)

-- What a tool call gives back: a message, with whether its status is "error", or a command.
pub data Result : Type 0 where
  tool_message : String → Bool → Result
  command : Result

pub data Denial : Type 0 where
  state_action_circuit identical_call read_repeat : Denial

-- Which limit `NoProgressCircuitOpen` tells of.
pub data Circuit : Type 0 where
  repeated_action repeated_denials stagnant_calls bookkeeping : Circuit

pub data Outcome : Type 0 where
  returned : Result → Outcome
  circuit_open : Circuit → Outcome
  handler_raised : Outcome

-- `_tool_succeeded`; `_is_non_progress` is its negation.
unfoldable pub tool_succeeded : Result → Bool
tool_succeeded (tool_message content error) = not error
tool_succeeded command = true

unfoldable pub content : Result → String
content (tool_message s error) = s
content command = ""

unfoldable pub same_text : Option String → Option String → Bool
same_text none none = true
same_text (some a) (some b) = str_eq a b
same_text _ _ = false

-- `_refresh_browser_state`, with what the browser shows.
unfoldable pub refresh_browser_state : Option String → Guard → Guard
unfolding same_text
refresh_browser_state observed g =
    let signature = if g.has_browser then observed else none in
    if same_text signature g.browser_signature then g else record g {
      browser_signature = signature;
      state_action_failures = [];
      blocked_state_actions = [];
      identical_attempts = [];
      stagnant_tool_calls = 0;
      stagnant_model_responses = 0;
      action_window = [];
    }

abbrev pub or_zero : Option ℕ → ℕ
or_zero none = 0
or_zero (some n) = n

abbrev pub attempts : String → Guard → ℕ
attempts action g = or_zero (Dict.get action g.identical_attempts)

unfoldable pub count_attempt : String → Guard → Guard
count_attempt action g = record g {
  identical_attempts = Dict.put action (attempts action g + 1) g.identical_attempts;
}

unfoldable pub is_read_repeat : Option String → Guard → Bool
unfolding same_text
is_read_repeat read g = is_some read && same_text read g.last_read_signature

-- The chain of refusals; `none` calls the tool.
unfoldable pub decide : Library → ToolCall → ℕ → String → Guard → Option Denial
unfolding is_read_repeat read_signature is_repeatable_identical_call
decide l c attempt_no action g =
    if g.has_browser && mem_str action g.blocked_state_actions
    then some state_action_circuit
    else if g.has_browser
        && is_some g.browser_signature
        && is_repeatable_identical_call c attempt_no
    then some identical_call
    else if is_read_repeat (read_signature l c) g
    then some read_repeat
    else none

unfoldable pub count_stagnant : ToolCall → Bool → Guard → Guard
count_stagnant c advanced g =
    if advanced || mem_str c.name productive_tool_names
    then record g { stagnant_tool_calls = 0 }
    else record g { stagnant_tool_calls = g.stagnant_tool_calls + 1 }

unfoldable pub note_read : Library → ToolCall → Bool → Guard → Guard
unfolding read_signature
note_read l c succeeded g =
    if not succeeded
    then g
    else if mem_str c.name progress_tool_names
    then record g { last_read_signature = none }
    else if is_some (read_signature l c)
    then record g { last_read_signature = read_signature l c }
    else g

abbrev pub bit : Bool → ℕ
bit true = 1
bit false = 0

-- `action_window.count(signature)`
unfoldable pub count_action : ActionSignature → List (Option ActionSignature) → ℕ
unfolding same_action
count_action s [] = 0
count_action s (none ∷ w) = count_action s w
count_action s (some t ∷ w) = bit (same_action t s) + count_action s w

unfoldable pub is_repeated : Option ActionSignature → Guard → Bool
unfolding count_action
is_repeated none g = false
is_repeated (some s) g = leb g.repetition_threshold (count_action s g.action_window)

unfoldable pub push_action : Option ActionSignature → Guard → Guard
unfolding last_n
push_action s g = record g { action_window = last_n g.window_size (g.action_window ++ (s ∷ [])) }

-- `_track_repeated_action`, with whether it raises.
unfoldable pub track_repeated_action : ToolCall → Bool → Guard → Bool × Guard
unfolding push_action is_repeated action_signature
track_repeated_action c succeeded g =
    let s = if succeeded then action_signature c else none in
    let h = push_action s g in
    if is_repeated s h then (true, record h { action_window = [] }) else (false, h)

-- A failed call of an action in a state.
unfoldable pub count_failure : String → Bool → Guard → Guard
count_failure action succeeded g =
    let failures = or_zero (Dict.get action g.state_action_failures) + 1 in
    if g.has_browser && not succeeded
    then record g {
      state_action_failures = Dict.put action failures g.state_action_failures;
      blocked_state_actions =
          if leb g.max_state_action_failures failures
          then action ∷ g.blocked_state_actions
          else g.blocked_state_actions;
    }
    else g

-- Denied and failed calls in a row, with whether a limit is met.
unfoldable pub count_denial : Result → Guard → Bool × Guard
unfolding tool_succeeded content
count_denial r g =
    let same = if str_eq (content r) g.last_denial then g.same_denials + 1 else 1 in
    let all = g.non_progress + 1 in
    if tool_succeeded r
    then (false, record g { last_denial = ""; same_denials = 0; non_progress = 0 })
    else if leb g.max_identical_denials same || leb g.max_non_progress all
    then (true, record g { last_denial = ""; same_denials = 0; non_progress = 0 })
    else (false, record g { last_denial = content r; same_denials = same; non_progress = all })

abbrev pub reached : Option ℕ → ℕ → Bool
reached none n = false
reached (some limit) n = leb limit n

unfoldable pub check_stagnant : Guard → Bool × Guard
check_stagnant g =
    if reached g.max_stagnant_tool_calls g.stagnant_tool_calls
    then (true, record g { stagnant_tool_calls = 0 })
    else (false, g)

unfoldable pub stop_or : Circuit → Bool × Guard → (Guard → Outcome × Guard) → Outcome × Guard
stop_or circuit (true, g) continue = (circuit_open circuit, g)
stop_or circuit (false, g) continue = continue g

-- `awrap_tool_call` after the result.
unfoldable pub after_result : Library → ToolCall → String → Bool → Result → Guard → Outcome × Guard
unfolding count_stagnant note_read track_repeated_action count_failure count_denial check_stagnant
    tool_succeeded stop_or
after_result l c action advanced r g =
    let ok = tool_succeeded r in
    stop_or repeated_action
      (track_repeated_action c ok (note_read l c ok (count_stagnant c advanced g)))
      (λ h.
        stop_or repeated_denials (count_denial r (count_failure action ok h))
          (λ k. stop_or stagnant_calls (check_stagnant k) (λ m. (returned r, m))))
