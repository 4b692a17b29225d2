-- ===== src/Guard/Repeats.antt =====
-- Repeated calls in `NoProgressGuardMiddleware` (src/z_apply_core/agents/no_progress_guard.py).
use z_apply_core.Prelude.{
  ◌+◌, ◌≤◌, ◌≡◌, refl, sym, ap, ◌∙◌, String, Bool, true, false, not, Option, none, some, List, [],
  ◌∷◌, mem_str, arith, if◌then◌else◌, Bool-cases, inl, inr, All, eq_iff, eq_refl,
}
use z_apply_core.Dict
use z_apply_core.Dict.{get-put}
use z_apply_core.Guard.Call.{
  ToolCall, Library, state_action_signature, read_signature, browser_changing_tool_names,
}
use z_apply_core.Guard.State.{
  Guard, Result, Denial, refresh_browser_state, count_attempt, attempts, decide, same_text,
  count_stagnant, note_read, tool_succeeded, or_zero,
}
use z_apply_core.Guard.Wrap.{
  Surroundings, conclude, wrap_refreshed, awrap_tool_call, awrap_tool_calls, result_of, executes,
}
use z_apply_core.Guard.Denials.{
  Keeps, conclude_read, conclude_executed, refresh_read, after_result_keeps, note-Keeps,
  counted_keeps,
}
use z_apply_core.Guard.Refusals.{decide_read, wrap_refused, decide_identical}

executed_read :
    (l : Library) (c : ToolCall) (before : Option String) (action : String) (after : Option String)
    (d : Option Denial) (handled : Option Result) (r : Result) (g : Guard) (s : String)
    → read_signature l c ≡ some s
    → handled ≡ some r
    → tool_succeeded r ≡ true
    → executes d ≡ true
    → (conclude l c before action after
        (executes d)
        (result_of c handled d)
        g).guard.last_read_signature
      ≡ some s
executed_read l c before action after none handled r g s read given ok on =
    rw given (conclude_read l c before action after true r g s read ok)
executed_read l c before action after (some d) handled r g s read given ok on = ground arith

wrap_read :
    (l : Library) (c : ToolCall) (w : Surroundings) (g : Guard) (r : Result) (s : String)
    → read_signature l c ≡ some s
    → w.handled ≡ some r
    → tool_succeeded r ≡ true
    → (wrap_refreshed l c w g).executed ≡ true
    → (wrap_refreshed l c w g).guard.last_read_signature ≡ some s
unfolding wrap_refreshed
wrap_read l c w g r s read given ok on =
    let action = state_action_signature l g.browser_signature c in
    let d = decide l c (attempts action g) action (count_attempt action g) in
    executed_read l c g.browser_signature action w.after d w.handled r (count_attempt action g) s
      read given ok
      (sym (
          conclude_executed l c g.browser_signature action w.after (executes d)
            (result_of c w.handled d) (count_attempt action g))
        ∙ on)

-- A read-only call that was made and succeeded is refused when it comes again next, whatever the
-- browser shows by then.
pub read_refused_when_changed :
    (l : Library) (c : ToolCall) (w w' : Surroundings) (g : Guard) (r : Result) (s : String)
    → read_signature l c ≡ some s
    → w.handled ≡ some r
    → tool_succeeded r ≡ true
    → (awrap_tool_call l c w g).executed ≡ true
    → (awrap_tool_call l c w' (awrap_tool_call l c w g).guard).executed ≡ false
unfolding awrap_tool_call count_attempt
read_refused_when_changed l c w w' g r s read given ok on =
    let first = wrap_read l c w (refresh_browser_state w.before g) r s read given ok on in
    let h = (wrap_refreshed l c w (refresh_browser_state w.before g)).guard in
    wrap_refused l c w' (refresh_browser_state w'.before h) (λ n action _ _.
      decide_read l c n action (count_attempt action (refresh_browser_state w'.before h)) s
        (refresh_read w'.before h ∙ first) read)

-- What is known of an action that was tried in the state that the browser still shows.
record IsTried (page action : String) (g : Guard) : Type 0 where
  browser : g.has_browser ≡ true
  seen : g.browser_signature ≡ some page
  tried : 1 ≤ attempts action g

-- The browser shows the same page before and after a call.
pub record Unchanged (page : String) (w : Surroundings) : Type 0 where
  pub before : w.before ≡ some page
  pub after : w.after ≡ some page

shows_same :
    (b : Bool) (o signature : Option String) (page : String)
    → b ≡ true
    → o ≡ some page
    → signature ≡ some page
    → same_text (if b then o else none) signature ≡ true
unfolding same_text
shows_same b o signature page on shown seen = rw (on, shown, seen) (eq_refl page)

refresh-IsTried :
    (page action : String) (o : Option String) (g : Guard)
    → o ≡ some page
    → IsTried page action g
    → IsTried page action (refresh_browser_state o g)
unfolding refresh_browser_state
refresh-IsTried page action o g same k =
    rw (shows_same g.has_browser o g.browser_signature page k.browser same k.seen) k

count_attempt-IsTried :
    (page action b : String) (g : Guard)
    → IsTried page action g
    → IsTried page action (count_attempt b g)
unfolding count_attempt
count_attempt-IsTried page action b g k = record {
  browser = k.browser;
  seen = k.seen;
  tried = ground (arith, k.tried, get-put b action (attempts b g + 1) g.identical_attempts);
}

Keeps-IsTried :
    (page action : String) (g h : Guard) → Keeps g h → IsTried page action g → IsTried page action h
Keeps-IsTried page action g h same k = record {
  browser = same.browser ∙ k.browser;
  seen = same.seen ∙ k.seen;
  tried = omega (arith, k.tried, ap (λ d. or_zero (Dict.get action d)) same.tried);
}

conclude-IsTried :
    (l : Library) (c : ToolCall) (before : Option String) (action a page : String)
    (after : Option String) (executed : Bool) (r : Option Result) (g : Guard)
    → after ≡ some page
    → IsTried page action g
    → IsTried page action (conclude l c before a after executed r g).guard
unfolding conclude
conclude-IsTried l c before action a page after executed none g same k = k
conclude-IsTried l c before action a page after executed (some r) g same k =
    let h = refresh_browser_state after g in
    let advanced = not (same_text h.browser_signature before) in
    let counted = count_stagnant c advanced h in
    let noted = note_read l c (tool_succeeded r) counted in
    Keeps-IsTried page action noted _ (after_result_keeps l c a advanced r h).keeps (
      Keeps-IsTried page action counted noted (note-Keeps l c (tool_succeeded r) counted) (
        Keeps-IsTried page action h counted (counted_keeps c advanced h).keeps
          (refresh-IsTried page action after g same k)))

awrap_tool_call-IsTried :
    (l : Library) (page action : String) (c : ToolCall) (w : Surroundings) (g : Guard)
    → Unchanged page w
    → IsTried page action g
    → IsTried page action (awrap_tool_call l c w g).guard
unfolding awrap_tool_call wrap_refreshed
awrap_tool_call-IsTried l page action c w g same k =
    let h = refresh_browser_state w.before g in
    let a = state_action_signature l h.browser_signature c in
    let d = decide l c (attempts a h) a (count_attempt a h) in
    conclude-IsTried l c h.browser_signature action a page w.after (executes d)
      (result_of c w.handled d) (count_attempt a h) same.after
      (count_attempt-IsTried page action a h (refresh-IsTried page action w.before g same.before k))

calls-IsTried :
    (l : Library) (page action : String) (calls : List (ToolCall × Surroundings)) (g : Guard)
    → All (λ p. Unchanged page p.1) calls
    → IsTried page action g
    → IsTried page action (awrap_tool_calls l calls g).1
unfolding awrap_tool_calls
calls-IsTried l page action [] g same k = k
calls-IsTried l page action ((c, w) ∷ rest) g same k =
    calls-IsTried l page action rest (awrap_tool_call l c w g).guard same.1
      (awrap_tool_call-IsTried l page action c w g same.0 k)

same_text→eq : (a b : Option String) → same_text a b ≡ true → a ≡ b
unfolding same_text
same_text→eq none none h = refl
same_text→eq none (some b) h = ground arith
same_text→eq (some a) none h = ground arith
same_text→eq (some a) (some b) h = ap some ((eq_iff a b).0 h)

shown_signature :
    (b : Bool) (o : Option String) (page : String)
    → b ≡ true
    → o ≡ some page
    → (if b then o else none) ≡ some page
shown_signature b o page on shown = rw (on, shown) refl

refresh_shows :
    (page : String) (o : Option String) (g : Guard)
    → g.has_browser ≡ true
    → o ≡ some page
    → (refresh_browser_state o g).browser_signature ≡ some page
unfolding refresh_browser_state
refresh_shows page o g on shown =
    let signature = if g.has_browser then o else none in
    elim (Bool-cases (same_text signature g.browser_signature)) [
      | inl same ↦ rw same (
          sym (same_text→eq signature g.browser_signature same)
          ∙ shown_signature g.has_browser o page on shown)
      | inr other ↦ rw other (shown_signature g.has_browser o page on shown)
    ]

refresh_browser :
    (o : Option String) (g : Guard) → (refresh_browser_state o g).has_browser ≡ g.has_browser
unfolding refresh_browser_state
refresh_browser o g = ground arith

counted-IsTried :
    (page a action : String) (g : Guard)
    → g.has_browser ≡ true
    → g.browser_signature ≡ some page
    → a ≡ action
    → IsTried page action (count_attempt a g)
unfolding count_attempt
counted-IsTried page a action g on seen same = record {
  browser = on;
  seen = seen;
  tried =
      ground
        (arith, same, eq_iff a action, get-put a action (attempts a g + 1) g.identical_attempts);
}

-- The first call makes its action a tried one.
first-IsTried :
    (l : Library) (page : String) (c : ToolCall) (w : Surroundings) (g : Guard)
    → g.has_browser ≡ true
    → Unchanged page w
    → IsTried page (state_action_signature l (some page) c) (awrap_tool_call l c w g).guard
unfolding awrap_tool_call wrap_refreshed
first-IsTried l page c w g on same =
    let h = refresh_browser_state w.before g in
    let shows = refresh_shows page w.before g on same.before in
    let a = state_action_signature l h.browser_signature c in
    let known = ap (λ s. state_action_signature l s c) shows in
    let d = decide l c (attempts a h) a (count_attempt a h) in
    conclude-IsTried l c h.browser_signature (state_action_signature l (some page) c) a page w.after
      (executes d) (result_of c w.handled d) (count_attempt a h) same.after
      (counted-IsTried page a (state_action_signature l (some page) c) h
        (refresh_browser w.before g ∙ on) shows known)

-- A call of a tool that changes the browser is not made a second time, whatever calls come in
-- between and whatever comes of them, while the browser shows the same page.
pub second_call_refused :
    (l : Library) (page : String) (c : ToolCall) (w w' : Surroundings)
    (calls : List (ToolCall × Surroundings)) (g : Guard)
    → g.has_browser ≡ true
    → mem_str c.name browser_changing_tool_names ≡ true
    → Unchanged page w
    → All (λ p. Unchanged page p.1) calls
    → Unchanged page w'
    → (awrap_tool_call l c w' (awrap_tool_calls l calls (awrap_tool_call l c w g).guard).1).executed
      ≡ false
unfolding awrap_tool_call count_attempt
second_call_refused l page c w w' calls g on name first between last =
    let h = (awrap_tool_calls l calls (awrap_tool_call l c w g).guard).1 in
    let action = state_action_signature l (some page) c in
    let k = refresh-IsTried page action w'.before h last.before (
      calls-IsTried l page action calls (awrap_tool_call l c w g).guard between
        (first-IsTried l page c w g on first)) in
    wrap_refused l c w' (refresh_browser_state w'.before h) (λ n a tries same.
      let same' : a ≡ action = same ∙ ap (λ s. state_action_signature l s c) k.seen in
      decide_identical l c n a page (count_attempt a (refresh_browser_state w'.before h))
        (omega
          (arith, tries, k.tried, ap (λ b. attempts b (refresh_browser_state w'.before h)) same'))
        k.browser k.seen name)
