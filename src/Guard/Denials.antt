-- ===== src/Guard/Denials.antt =====
-- What `NoProgressGuardMiddleware` (src/z_apply_core/agents/no_progress_guard.py) remembers of the calls of a
-- turn, and what it refuses for it.
use z_apply_core.Prelude.{
  ◌≡◌, refl, ap, ◌∙◌, String, Bool, true, false, not, Option, none, some, arith,
}
use z_apply_core.Guard.Call.{ToolCall, Library, read_signature}
use z_apply_core.Guard.State.{
  Guard, Result, Circuit, repeated_action, repeated_denials, stagnant_calls, Outcome,
  refresh_browser_state, same_text, count_stagnant, note_read, push_action, track_repeated_action,
  count_failure, count_denial, check_stagnant, stop_or, after_result, tool_succeeded,
}
use z_apply_core.Guard.Wrap.{conclude}

stop_or_keeps :
    (P : Guard → Type 0) (circuit : Circuit) (p : Bool × Guard) (continue : Guard → Outcome × Guard)
    → P p.1
    → ((g : Guard) → P g → P (continue g).1)
    → P (stop_or circuit p continue).1
unfolding stop_or
stop_or_keeps P circuit (true, g) continue k keep = k
stop_or_keeps P circuit (false, g) continue k keep = keep g k

-- What is left alone by the counting of a result.
pub record Keeps (g h : Guard) : Type 0 where
  pub browser : h.has_browser ≡ g.has_browser
  pub seen : h.browser_signature ≡ g.browser_signature
  pub tried : h.identical_attempts ≡ g.identical_attempts

-- And what is left alone after the read is noted.
pub record KeepsAll (g h : Guard) : Type 0 where
  pub keeps : Keeps g h
  pub read : h.last_read_signature ≡ g.last_read_signature

and_then : {g h k : Guard} → KeepsAll g h → KeepsAll h k → KeepsAll g k
and_then a b = record {
  keeps = record {
    browser = b.keeps.browser ∙ a.keeps.browser;
    seen = b.keeps.seen ∙ a.keeps.seen;
    tried = b.keeps.tried ∙ a.keeps.tried;
  };
  read = b.read ∙ a.read;
}

track_keeps : (c : ToolCall) (b : Bool) (g : Guard) → KeepsAll g (track_repeated_action c b g).1
unfolding track_repeated_action push_action
track_keeps c b g = ground arith

failure_keeps : (a : String) (b : Bool) (g : Guard) → KeepsAll g (count_failure a b g)
unfolding count_failure
failure_keeps a b g = ground arith

denial_keeps : (r : Result) (g : Guard) → KeepsAll g (count_denial r g).1
unfolding count_denial
denial_keeps r g = ground arith

stagnant_keeps : (g : Guard) → KeepsAll g (check_stagnant g).1
unfolding check_stagnant
stagnant_keeps g = ground arith

pub counted_keeps : (c : ToolCall) (b : Bool) (g : Guard) → KeepsAll g (count_stagnant c b g)
unfolding count_stagnant
counted_keeps c b g = ground arith

pub note-Keeps : (l : Library) (c : ToolCall) (b : Bool) (g : Guard) → Keeps g (note_read l c b g)
unfolding note_read
note-Keeps l c b g = ground arith

pub after_result_keeps :
    (l : Library) (c : ToolCall) (action : String) (advanced : Bool) (r : Result) (g : Guard)
    → KeepsAll
        (note_read l c (tool_succeeded r) (count_stagnant c advanced g))
        (after_result l c action advanced r g).1
unfolding after_result
after_result_keeps l c action advanced r g =
    let ok = tool_succeeded r in
    let noted = note_read l c ok (count_stagnant c advanced g) in
    stop_or_keeps (KeepsAll noted) repeated_action (track_repeated_action c ok noted) _
      (track_keeps c ok noted)
      (λ h kh.
        stop_or_keeps (KeepsAll noted) repeated_denials (count_denial r (count_failure action ok h))
          _
          (and_then kh
            (and_then (failure_keeps action ok h) (denial_keeps r (count_failure action ok h))))
          (λ i ki.
            stop_or_keeps (KeepsAll noted) stagnant_calls (check_stagnant i) _
              (and_then ki (stagnant_keeps i)) (λ m km. km)))

-- The last read of a call that succeeds.
note_read_lem :
    (l : Library) (c : ToolCall) (s : String) (g : Guard)
    → read_signature l c ≡ some s
    → (note_read l c true g).last_read_signature ≡ some s
unfolding note_read read_signature
note_read_lem l c s g read = ground (arith, read)

pub refresh_read :
    (o : Option String) (g : Guard)
    → (refresh_browser_state o g).last_read_signature ≡ g.last_read_signature
unfolding refresh_browser_state
refresh_read o g = ground arith

pub conclude_executed :
    (l : Library) (c : ToolCall) (before : Option String) (action : String) (after : Option String)
    (executed : Bool) (r : Option Result) (g : Guard)
    → (conclude l c before action after executed r g).executed ≡ executed
unfolding conclude
conclude_executed l c before action after executed none g = refl
conclude_executed l c before action after executed (some r) g = refl

pub conclude_read :
    (l : Library) (c : ToolCall) (before : Option String) (action : String) (after : Option String)
    (executed : Bool) (r : Result) (g : Guard) (s : String)
    → read_signature l c ≡ some s
    → tool_succeeded r ≡ true
    → (conclude l c before action after executed (some r) g).guard.last_read_signature ≡ some s
unfolding conclude
conclude_read l c before action after executed r g s read ok =
    let h = refresh_browser_state after g in
    let advanced = not (same_text h.browser_signature before) in
    let counted = count_stagnant c advanced h in
    (after_result_keeps l c action advanced r h).read
    ∙ ap (λ b. (note_read l c b counted).last_read_signature) ok
    ∙ note_read_lem l c s counted read
