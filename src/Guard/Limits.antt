-- ===== src/Guard/Limits.antt =====
-- The counters of `NoProgressGuardMiddleware` (src/z_apply_core/agents/no_progress_guard.py) and their limits.
use z_apply_core.Prelude.{
  ◌≤◌, ◌<◌, String, Bool, true, false, not, Option, none, some, [], ◌∷◌, ◌++◌, length, arith,
  if◌then◌else◌, Bool-cases, inl, inr,
}
use z_apply_core.Events.Tails.{length-last_n}
use z_apply_core.Guard.Call.{
  ToolCall, Library, ActionSignature, action_signature, state_action_signature,
}
use z_apply_core.Guard.State.{
  Guard, Result, Circuit, repeated_action, repeated_denials, stagnant_calls, Outcome,
  refresh_browser_state, count_attempt, attempts, decide, same_text, count_stagnant, note_read,
  push_action, is_repeated, track_repeated_action, count_failure, count_denial, check_stagnant,
  stop_or, after_result, tool_succeeded,
}
use z_apply_core.Guard.Wrap.{
  Surroundings, conclude, wrap_refreshed, awrap_tool_call, result_of, executes,
}

-- The counters are below their limits, and the window is within its size.
pub record IsWithin (g : Guard) : Type 0 where
  pub denials : g.same_denials < g.max_identical_denials
  pub total : g.non_progress < g.max_non_progress
  pub window : length g.action_window ≤ g.window_size

refresh-IsWithin :
    (o : Option String) (g : Guard) → IsWithin g → IsWithin (refresh_browser_state o g)
unfolding refresh_browser_state
refresh-IsWithin o g k =
    elim (Bool-cases (same_text (if g.has_browser then o else none) g.browser_signature)) [
      | inl same ↦ rw same k
      | inr other ↦ rw other (record { denials = k.denials; total = k.total; window = omega arith })
    ]

count_stagnant-IsWithin :
    (c : ToolCall) (b : Bool) (g : Guard) → IsWithin g → IsWithin (count_stagnant c b g)
unfolding count_stagnant
count_stagnant-IsWithin c b g k = ground (arith, k.denials, k.total, k.window)

note_read-IsWithin :
    (l : Library) (c : ToolCall) (b : Bool) (g : Guard) → IsWithin g → IsWithin (note_read l c b g)
unfolding note_read
note_read-IsWithin l c b g k = ground (arith, k.denials, k.total, k.window)

push-IsWithin : (s : Option ActionSignature) (g : Guard) → IsWithin g → IsWithin (push_action s g)
unfolding push_action
push-IsWithin s g k = record {
  denials = k.denials;
  total = k.total;
  window = length-last_n g.window_size (g.action_window ++ (s ∷ []));
}

track-IsWithin :
    (c : ToolCall) (b : Bool) (g : Guard) → IsWithin g → IsWithin (track_repeated_action c b g).1
unfolding track_repeated_action
track-IsWithin c b g k =
    let s = if b then action_signature c else none in
    let h = push-IsWithin s g k in
    elim (Bool-cases (is_repeated s (push_action s g))) [
      | inl on ↦ rw on (record { denials = h.denials; total = h.total; window = omega arith })
      | inr off ↦ rw off h
    ]

count_failure-IsWithin :
    (a : String) (b : Bool) (g : Guard) → IsWithin g → IsWithin (count_failure a b g)
unfolding count_failure
count_failure-IsWithin a b g k = ground (arith, k.denials, k.total, k.window)

count_denial-IsWithin : (r : Result) (g : Guard) → IsWithin g → IsWithin (count_denial r g).1
unfolding count_denial
count_denial-IsWithin r g k = ground (arith, k.denials, k.total, k.window)

check_stagnant-IsWithin : (g : Guard) → IsWithin g → IsWithin (check_stagnant g).1
unfolding check_stagnant
check_stagnant-IsWithin g k = ground (arith, k.denials, k.total, k.window)

stop_or-IsWithin :
    (circuit : Circuit) (r : Bool × Guard) (continue : Guard → Outcome × Guard)
    → IsWithin r.1
    → ((g : Guard) → IsWithin g → IsWithin (continue g).1)
    → IsWithin (stop_or circuit r continue).1
unfolding stop_or
stop_or-IsWithin circuit (true, g) continue k keep = k
stop_or-IsWithin circuit (false, g) continue k keep = keep g k

after_result-IsWithin :
    (l : Library) (c : ToolCall) (action : String) (advanced : Bool) (r : Result) (g : Guard)
    → IsWithin g
    → IsWithin (after_result l c action advanced r g).1
unfolding after_result
after_result-IsWithin l c action advanced r g k =
    let ok = tool_succeeded r in
    let counted = count_stagnant c advanced g in
    stop_or-IsWithin repeated_action (track_repeated_action c ok (note_read l c ok counted)) _
      (track-IsWithin c ok (note_read l c ok counted)
        (note_read-IsWithin l c ok counted (count_stagnant-IsWithin c advanced g k)))
      (λ h kh.
        stop_or-IsWithin repeated_denials (count_denial r (count_failure action ok h)) _
          (count_denial-IsWithin r (count_failure action ok h)
            (count_failure-IsWithin action ok h kh))
          (λ i ki.
            stop_or-IsWithin stagnant_calls (check_stagnant i) _ (check_stagnant-IsWithin i ki)
              (λ m km. km)))

conclude-IsWithin :
    (l : Library) (c : ToolCall) (before : Option String) (action : String) (after : Option String)
    (executed : Bool) (r : Option Result) (g : Guard)
    → IsWithin g
    → IsWithin (conclude l c before action after executed r g).guard
unfolding conclude
conclude-IsWithin l c before action after executed none g k = k
conclude-IsWithin l c before action after executed (some r) g k =
    let h = refresh_browser_state after g in
    after_result-IsWithin l c action (not (same_text h.browser_signature before)) r h
      (refresh-IsWithin after g k)

-- A tool call, whether it returns or raises, leaves the counters below their limits and the window
-- within its size.
pub awrap_tool_call-IsWithin :
    (l : Library) (c : ToolCall) (w : Surroundings) (g : Guard)
    → IsWithin g
    → IsWithin (awrap_tool_call l c w g).guard
unfolding awrap_tool_call wrap_refreshed count_attempt
awrap_tool_call-IsWithin l c w g k =
    let h = refresh_browser_state w.before g in
    let kh = refresh-IsWithin w.before g k in
    let action = state_action_signature l h.browser_signature c in
    let d = decide l c (attempts action h) action (count_attempt action h) in
    conclude-IsWithin l c h.browser_signature action w.after (executes d) (result_of c w.handled d)
      (count_attempt action h)
      (record { denials = kh.denials; total = kh.total; window = kh.window })
