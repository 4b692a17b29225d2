-- ===== src/Guard/Tests.antt =====
-- Calls of a guarded agent (src/z_apply_core/agents/no_progress_guard.py), and the theorems at them.
use z_apply_core.Prelude.{
  ◌+◌, ◌<◌, ◌≡◌, refl, String, true, false, none, some, List, [], ◌∷◌, length, arith, mem_str,
}
use z_apply_core.Dict
use z_apply_core.Guard.Call.{
  text, no_fields, field, ToolCall, Library, read_signature, state_action_signature,
}
use z_apply_core.Guard.State.{
  Guard, Result, tool_message, command, tool_succeeded, refresh_browser_state,
}
use z_apply_core.Guard.Wrap.{Surroundings, awrap_tool_call, awrap_tool_calls}
use z_apply_core.Guard.Limits.{IsWithin, awrap_tool_call-IsWithin}
use z_apply_core.Guard.Failures.{IsFailed, failures_end_turn}
use z_apply_core.Guard.Repeats.{Unchanged, second_call_refused, read_refused_when_changed}

abbrev plain : Library
plain = record { dumps = λ fs. "{}"; casefold = λ s. s; str = λ v. "" }

abbrev fresh : Guard
fresh = record {
  max_identical_denials = 2;
  max_non_progress = 3;
  max_state_action_failures = 3;
  max_stagnant_tool_calls = none;
  max_stagnant_model_responses = none;
  window_size = 8;
  repetition_threshold = 4;
  has_browser = true;
  last_denial = "";
  same_denials = 0;
  non_progress = 0;
  last_read_signature = none;
  browser_signature = none;
  state_action_failures = [];
  blocked_state_actions = [];
  identical_attempts = [];
  stagnant_tool_calls = 0;
  stagnant_model_responses = 0;
  action_window = [];
}

abbrev click : ToolCall
click = record { name = "browser_click"; id = "1"; args = field "target" (text "e1") no_fields }

abbrev look : ToolCall
look = record { name = "browser_snapshot"; id = "2"; args = no_fields }

abbrev gives : String → Result → Surroundings
gives page r = record { before = some page; after = some page; handled = some r }

abbrev stays : (r : Result) → Unchanged "p" (gives "p" r)
stays r = record { before = refl; after = refl }

fresh-IsWithin : IsWithin fresh
fresh-IsWithin = record { denials = omega arith; total = omega arith; window = omega arith }

awrap_tool_call-IsWithin_example :
    IsWithin (awrap_tool_call plain click (gives "p" (tool_message "no" true)) fresh).guard
awrap_tool_call-IsWithin_example =
    awrap_tool_call-IsWithin plain click (gives "p" (tool_message "no" true)) fresh fresh-IsWithin

abbrev failing : List (ToolCall × Surroundings)
failing =
    (click, gives "p" (tool_message "no" true)) ∷ (look, gives "p" (tool_message "off" true)) ∷ []

failures_end_turn_example : 0 + length failing < 3
unfolding IsFailed awrap_tool_calls mem_str refresh_browser_state Dict.get Dict.put
    state_action_signature
failures_end_turn_example =
    failures_end_turn plain failing fresh fresh-IsWithin (("no", refl), (("off", refl), tt))

second_call_refused_example :
    (awrap_tool_call plain click
      (gives "p" command)
      (awrap_tool_calls plain
        ((look, gives "p" command) ∷ [])
        (awrap_tool_call plain click (gives "p" command) fresh).guard).1).executed
    ≡ false
unfolding mem_str
second_call_refused_example =
    second_call_refused plain "p" click (gives "p" command) (gives "p" command)
      ((look, gives "p" command) ∷ []) fresh refl refl (stays command) (stays command, tt)
      (stays command)

read_refused_when_changed_example :
    (awrap_tool_call plain look
      (gives "q" command)
      (awrap_tool_call plain look (gives "p" command) fresh).guard).executed
    ≡ false
unfolding read_signature mem_str tool_succeeded awrap_tool_call refresh_browser_state Dict.get
read_refused_when_changed_example =
    read_refused_when_changed plain look (gives "p" command) (gives "q" command) fresh command
      "browser_snapshot:{}" refl refl refl refl
