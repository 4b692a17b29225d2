-- ===== src/Guard/Failures.antt =====
-- Failures in a row (src/z_apply_core/agents/no_progress_guard.py): how many calls of a turn can fail before
-- the guard ends the turn.
use z_apply_core.Prelude.{
  ℕ, ◌+◌, ◌<◌, ◌≡◌, refl, sym, ap, ◌∙◌, String, Bool, true, false, not, Option, none, some, List,
  [], ◌∷◌, length, arith, All,
}
use z_apply_core.Guard.Call.{ToolCall, Library, state_action_signature}
use z_apply_core.Guard.State.{
  Guard, Result, tool_message, Circuit, repeated_action, repeated_denials, stagnant_calls, Outcome,
  returned, refresh_browser_state, count_attempt, attempts, decide, same_text, count_stagnant,
  note_read, push_action, track_repeated_action, count_failure, count_denial, check_stagnant,
  stop_or, after_result, tool_succeeded,
}
use z_apply_core.Guard.Wrap.{
  Surroundings, Wrapped, conclude, wrap_refreshed, awrap_tool_call, awrap_tool_calls, result_of,
  executes,
}
use z_apply_core.Guard.Limits.{IsWithin, awrap_tool_call-IsWithin}

-- The failures so far, and their limit, move by a number.
record Moves (n : ℕ) (g h : Guard) : Type 0 where
  count : h.non_progress ≡ g.non_progress + n
  limit : h.max_non_progress ≡ g.max_non_progress

then-Moves : {m n : ℕ} {g h k : Guard} → Moves m g h → Moves n h k → Moves (m + n) g k
then-Moves a b = record { count = omega (arith, a.count, b.count); limit = b.limit ∙ a.limit }

refresh-Moves : (o : Option String) (g : Guard) → Moves 0 g (refresh_browser_state o g)
unfolding refresh_browser_state
refresh-Moves o g = ground arith

before-Moves :
    (l : Library) (c : ToolCall) (a b : Bool) (g : Guard)
    → Moves 0 g (note_read l c b (count_stagnant c a g))
unfolding note_read count_stagnant
before-Moves l c a b g = ground arith

track-Moves : (c : ToolCall) (b : Bool) (g : Guard) → Moves 0 g (track_repeated_action c b g).1
unfolding track_repeated_action push_action
track-Moves c b g = ground arith

failure-Moves : (a : String) (b : Bool) (g : Guard) → Moves 0 g (count_failure a b g)
unfolding count_failure
failure-Moves a b g = ground arith

denial-Moves :
    (r : Result) (g : Guard)
    → tool_succeeded r ≡ false
    → (count_denial r g).0 ≡ false
    → Moves 1 g (count_denial r g).1
unfolding count_denial
denial-Moves r g failed on = ground (arith, failed, on)

stagnant-Moves : (g : Guard) → Moves 0 g (check_stagnant g).1
unfolding check_stagnant
stagnant-Moves g = ground arith

-- A wrapper that returns has passed the checks.
stop_or-returned :
    (circuit : Circuit) (p : Bool × Guard) (continue : Guard → Outcome × Guard) (r : Result)
    → (stop_or circuit p continue).0 ≡ returned r
    → (p.0 ≡ false) × (stop_or circuit p continue ≡ continue p.1)
unfolding stop_or
stop_or-returned circuit (true, g) continue r h = ground arith
stop_or-returned circuit (false, g) continue r h = (refl, refl)

stop_or-last :
    (circuit : Circuit) (p : Bool × Guard) (r : Result)
    → (stop_or circuit p (λ m. (returned r, m))).1 ≡ p.1
unfolding stop_or
stop_or-last circuit (true, g) r = refl
stop_or-last circuit (false, g) r = refl

stop_or-result :
    (circuit : Circuit) (p : Bool × Guard) (r r' : Result)
    → (stop_or circuit p (λ m. (returned r, m))).0 ≡ returned r'
    → r ≡ r'
unfolding stop_or
stop_or-result circuit (true, g) r r' h = ground arith
stop_or-result circuit (false, g) r r' h = cc

after_result-Moves :
    (l : Library) (c : ToolCall) (action : String) (advanced : Bool) (r r' : Result) (g : Guard)
    → tool_succeeded r' ≡ false
    → (after_result l c action advanced r g).0 ≡ returned r'
    → Moves 1 g (after_result l c action advanced r g).1
unfolding after_result
after_result-Moves l c action advanced r r' g failed back =
    let ok = tool_succeeded r in
    let noted = note_read l c ok (count_stagnant c advanced g) in
    let tracked = track_repeated_action c ok noted in
    let denied = count_denial r (count_failure action ok tracked.1) in
    let (_, first) = stop_or-returned repeated_action tracked _ r' back in
    let (passed, second) =
      stop_or-returned repeated_denials denied _ r' (ap (λ x. x.0) (sym first) ∙ back) in
    let same =
      stop_or-result stagnant_calls (check_stagnant denied.1) r r'
        (ap (λ x. x.0) (sym (first ∙ second)) ∙ back) in
    rw (first, second)
      (rw (stop_or-last stagnant_calls (check_stagnant denied.1) r) (
        then-Moves (before-Moves l c advanced ok g) (
          then-Moves (track-Moves c ok noted) (
            then-Moves (failure-Moves action ok tracked.1) (
              then-Moves
                (denial-Moves r (count_failure action ok tracked.1)
                  (ap tool_succeeded same ∙ failed) passed)
                (stagnant-Moves denied.1))))))

-- A call fails: the tool gives back an error, or the call is refused.
unfoldable pub IsFailed : Wrapped → Type 0
IsFailed x = (s : String) × (x.outcome ≡ returned (tool_message s true))

conclude-Moves :
    (l : Library) (c : ToolCall) (before : Option String) (action : String) (after : Option String)
    (executed : Bool) (r : Option Result) (g : Guard)
    → IsFailed (conclude l c before action after executed r g)
    → Moves 1 g (conclude l c before action after executed r g).guard
unfolding conclude IsFailed tool_succeeded
conclude-Moves l c before action after executed none g (s, back) = ground arith
conclude-Moves l c before action after executed (some r) g (s, back) =
    let h = refresh_browser_state after g in
    then-Moves (refresh-Moves after g) (
      after_result-Moves l c action (not (same_text h.browser_signature before)) r
        (tool_message s true) h refl back)

count_attempt-Moves : (a : String) (g : Guard) → Moves 0 g (count_attempt a g)
unfolding count_attempt
count_attempt-Moves a g = ground arith

awrap_tool_call-Moves :
    (l : Library) (c : ToolCall) (w : Surroundings) (g : Guard)
    → IsFailed (awrap_tool_call l c w g)
    → Moves 1 g (awrap_tool_call l c w g).guard
unfolding awrap_tool_call wrap_refreshed
awrap_tool_call-Moves l c w g failed =
    let h = refresh_browser_state w.before g in
    let action = state_action_signature l h.browser_signature c in
    let d = decide l c (attempts action h) action (count_attempt action h) in
    then-Moves (refresh-Moves w.before g) (
      then-Moves (count_attempt-Moves action h) (
        conclude-Moves l c h.browser_signature action w.after (executes d) (result_of c w.handled d)
          (count_attempt action h) failed))

calls-Moves :
    (l : Library) (calls : List (ToolCall × Surroundings)) (g : Guard)
    → IsWithin g
    → All IsFailed (awrap_tool_calls l calls g).0
    → Moves (length calls) g (awrap_tool_calls l calls g).1
      × IsWithin (awrap_tool_calls l calls g).1
unfolding awrap_tool_calls
calls-Moves l [] g k failed = (record { count = omega arith; limit = refl }, k)
calls-Moves l ((c, w) ∷ rest) g k failed =
    let x = awrap_tool_call l c w g in
    let first = awrap_tool_call-Moves l c w g failed.0 in
    let (later, k') = calls-Moves l rest x.guard (awrap_tool_call-IsWithin l c w g k) failed.1 in
    (
      record { count = omega (arith, first.count, later.count); limit = later.limit ∙ first.limit },
      k',
    )

-- From counters below their limits, calls that all fail or are refused, each returning to the agent,
-- are fewer than max_non_progress: one more such call in a row ends the turn.
pub failures_end_turn :
    (l : Library) (calls : List (ToolCall × Surroundings)) (g : Guard)
    → IsWithin g
    → All IsFailed (awrap_tool_calls l calls g).0
    → g.non_progress + length calls < g.max_non_progress
failures_end_turn l calls g k failed =
    let (moved, k') = calls-Moves l calls g k failed in
    omega (arith, moved.count, moved.limit, k'.total)
