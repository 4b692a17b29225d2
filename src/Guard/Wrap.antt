-- ===== src/Guard/Wrap.antt =====
-- The two wrappers of `NoProgressGuardMiddleware` (src/z_apply_core/agents/no_progress_guard.py).
use z_apply_core.Prelude.{
  ◌+◌, String, Bool, true, false, ◌||◌, not, Option, none, some, is_some, List, [], ◌∷◌, mem_str,
  if◌then◌else◌,
}
use Prim.Native.String.{◌++◌ as ◌|++|◌}
use z_apply_core.Guard.Call.{ToolCall, Library, state_action_signature, progress_tool_names}
use z_apply_core.Guard.State.{
  Guard, Result, tool_message, Denial, state_action_circuit, identical_call, read_repeat, Outcome,
  handler_raised, refresh_browser_state, attempts, count_attempt, decide, after_result, same_text,
  reached,
}

-- The texts of the refusals.
unfoldable pub reason : ToolCall → Denial → String
reason c state_action_circuit =
    "RUNTIME STATE-ACTION CIRCUIT: this exact action repeatedly failed "
    |++| "against the current browser revision. It is unavailable until "
    |++| "browser evidence changes. Choose a different action or inspect " |++| "fresh evidence."
reason c identical_call =
    "RUNTIME IDENTICAL-CALL SLAP: this is the SECOND time you are "
    |++| "issuing this exact tool call (" |++| c.name
    |++| ") with the exact same parameters against the same unchanged browser "
    |++| "revision. THAT IS A NO-PROGRESS LOOP - you are wasting the turn "
    |++| "repeating yourself. STOP repeating it. Do not call this exact "
    |++| "tool with these exact same parameters again. Instead rotate to a "
    |++| "DIFFERENT strategy class: browser_find over navigation vocabulary "
    |++| "(Next / Continue / Submit / Apply / Back - and beyond, read them "
    |++| "off the page), a SCOPED subtree snapshot of a region you have not "
    |++| "examined (browser_snapshot with target=<ref> from the truncation "
    |++| "coverage list), or act on a different control entirely. Repeating "
    |++| "the same probe class against an unchanged page can never advance " |++| "the application."
reason c read_repeat =
    "RUNTIME NO-PROGRESS: this exact read-only tool call already "
    |++| "succeeded against unchanged state. Reuse its result and choose "
    |++| "a different action."

-- What a call meets: what the browser shows before and after, and what the tool gives back, if it
-- does not raise.
pub record Surroundings : Type 0 where
  pub before : Option String
  pub after : Option String
  pub handled : Option Result

-- Whether the tool was called, and what came of it.
pub record Wrapped : Type 0 where
  pub executed : Bool
  pub outcome : Outcome
  pub guard : Guard

unfoldable pub conclude :
    Library
    → ToolCall
    → Option String
    → String
    → Option String
    → Bool
    → Option Result
    → Guard
    → Wrapped
unfolding after_result same_text
conclude l c before action after executed none g = record {
  executed = executed;
  outcome = handler_raised;
  guard = g;
}
conclude l c before action after executed (some r) g =
    let h = refresh_browser_state after g in
    let (o, k) = after_result l c action (not (same_text h.browser_signature before)) r h in
    record { executed = executed; outcome = o; guard = k }

abbrev pub executes : Option Denial → Bool
executes none = true
executes (some d) = false

abbrev pub result_of : ToolCall → Option Result → Option Denial → Option Result
result_of c handled none = handled
result_of c handled (some d) = some (tool_message (reason c d) true)

-- `awrap_tool_call` once the browser is looked at.
unfoldable pub wrap_refreshed : Library → ToolCall → Surroundings → Guard → Wrapped
unfolding conclude decide count_attempt
wrap_refreshed l c w g =
    let action = state_action_signature l g.browser_signature c in
    let d = decide l c (attempts action g) action (count_attempt action g) in
    conclude l c g.browser_signature action w.after (executes d) (result_of c w.handled d)
      (count_attempt action g)

-- `awrap_tool_call`
unfoldable pub awrap_tool_call : Library → ToolCall → Surroundings → Guard → Wrapped
unfolding wrap_refreshed
awrap_tool_call l c w g = wrap_refreshed l c w (refresh_browser_state w.before g)

unfoldable pub any_progress : List String → Bool
any_progress [] = false
any_progress (n ∷ ns) = mem_str n progress_tool_names || any_progress ns

-- `awrap_model_call`, with the names of the tools that the model chose: whether it raises.
unfoldable pub awrap_model_call : List String → Guard → Bool × Guard
unfolding any_progress
awrap_model_call [] g = (false, g)
awrap_model_call (n ∷ ns) g =
    let responses = g.stagnant_model_responses + 1 in
    if not (is_some g.max_stagnant_model_responses)
    then (false, g)
    else if any_progress (n ∷ ns)
    then (false, record g { stagnant_model_responses = 0 })
    else if reached g.max_stagnant_model_responses responses
    then (true, record g { stagnant_model_responses = 0 })
    else (false, record g { stagnant_model_responses = responses })

-- The calls of tools in a turn, each with its surroundings.
unfoldable pub awrap_tool_calls :
    Library → List (ToolCall × Surroundings) → Guard → List Wrapped × Guard
unfolding awrap_tool_call
awrap_tool_calls l [] g = ([], g)
awrap_tool_calls l ((c, w) ∷ rest) g =
    let x = awrap_tool_call l c w g in let (xs, h) = awrap_tool_calls l rest x.guard in (x ∷ xs, h)
