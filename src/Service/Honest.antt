-- ===== src/Service/Honest.antt =====
-- The events of a run, and its outcome (src/z_apply_core/integrations/service.py).
use z_apply_core.Prelude.{
  ℕ, ◌⊎◌, ◌≤◌, ◌||◌, Bool, List, All, arith, String, ◌≡◌, refl, sym, true, false, inl, inr, Option,
  none, some, is_some, Bool-cases,
}
use z_apply_core.Star.{Star, here, next}
use z_apply_core.Payload.Json.{no_entries}
use z_apply_core.Service.View.{RunOutcome}
use z_apply_core.Service.Run.{CoreEvent, Run, Python, make_event, emit, artifact_created}
use z_apply_core.Service.Execute.{
  begin_run, page_opened, capture_title_metadata, report_metadata, enter_running, begin_job,
  report_result,
}
use z_apply_core.Service.Title.{role_company_from_title}
use z_apply_core.Service.Methods.{
  StartRunRequest, new_run, queue_run, page_focused, control_taken, snapshot_refreshed,
  control_returned, drain, shut_down, is_closed,
}
use z_apply_core.Service.Steps.{
  RunStep, queues, schedules, begins, announced, escapes, opens, titles, starts, reports, accepts,
  accept_waits, accept_resumes, drains, keeps_artifact, asks, answers, finishes, ends, fails,
  cancelled, releases, focuses, takes, returns, closes, tells, switches, reasons, shuts, cancels,
}
use z_apply_core.Service.Sound.{
  unsent, IsNumbered, saw_submission, IsSound, sent_one, weaken-IsSound,
}
use z_apply_core.Service.Accepted.{accept-IsSound, accept_cut-IsSound, after_phase-IsSound}
use z_apply_core.Service.Sink.{completes}
use z_apply_core.Service.Delivered.{
  Delivered, IsGiven, count_number, Delivered-All, Delivered-count, Numbered-IsGiven,
  Numbered-count,
}
use z_apply_core.Service.Endings.{
  close_tab-IsSound, auto_release-IsSound, terminal-IsSound, finish_job-IsSound,
  human_requested-IsSound, human_resolved-IsSound,
}
use z_apply_core.Service.Leaves.{left}
use z_apply_core.Service.Checks.{
  close_page-IsSound, send_context-IsSound, switch_model-IsSound, set_reasoning-IsSound,
  cancel-IsSound,
}
use z_apply_core.Workspace.Exclusion.{true-false}

titles-IsSound :
    {cut : Bool} (parsed : Option (String × String)) (r : Run)
    → IsSound cut r
    → IsSound cut (capture_title_metadata parsed r)
unfolding capture_title_metadata
titles-IsSound none r k = k
titles-IsSound (some (role, company)) r k = elim (Bool-cases (is_some r.view.company)) [
  | inl known ↦ rw known k
  | inr new ↦ rw new (elim (Bool-cases (is_some r.view.role)) [
    | inl known ↦ rw known k
    | inr new' ↦ rw new' (record { numbered = k.numbered; proved = k.proved; flagged = k.flagged })
  ])
]

begin_job-IsSound :
    {cut : Bool} (py : Python) (now : ℕ) (gateway : String) (r : Run)
    → IsSound cut r
    → IsSound cut (begin_job py now gateway r)
unfolding begin_job enter_running emit make_event
begin_job-IsSound {cut} py now gateway r k =
    let told : IsSound cut (enter_running py now r) =
      sent_one r _ _ k refl refl refl refl refl refl refl in
    record {
      numbered = told.numbered;
      proved = told.proved;
      flagged = λ o. absurd (true-false (sym o));
    }

control_returned-IsSound :
    {cut : Bool} (py : Python) (now : ℕ) (evidence : String) (r : Run)
    → IsSound cut r
    → IsSound cut (control_returned py now evidence r)
unfolding control_returned snapshot_refreshed emit make_event
control_returned-IsSound {cut} py now evidence r k =
    let shown : IsSound cut (snapshot_refreshed py now evidence r) =
      sent_one r _ _ k refl refl refl refl refl refl refl in
    sent_one (snapshot_refreshed py now evidence r) _ _ shown refl refl refl refl refl refl refl

shut_down-IsSound :
    {cut : Bool} (py : Python) (now : ℕ) (r : Run)
    → IsSound cut r
    → IsSound cut (shut_down py now r)
unfolding shut_down
shut_down-IsSound py now r k = elim (Bool-cases (is_closed r.view.browser_tab_state)) [
  | inl shut ↦ rw shut k
  | inr up ↦ rw up (close_tab-IsSound py now "shutdown" r k)
]

or-left : (a b : Bool) → a ≡ true → (a || b) ≡ true
or-left a b h = ground arith

or-cases : (a b : Bool) → (a || b) ≡ true → (a ≡ true) ⊎ (b ≡ true)
or-cases true b h = inl refl
or-cases false b h = inr h

-- Whether a step is a report of a submission that comes to the sink and waits, or is cut off, before its
-- own emission.
abbrev pub is_cut : (py : Python) (r s : Run) → RunStep py r s → Bool
is_cut py r _ (accept_waits now name event state t) = completes py event state
is_cut py r s _ = false

RunStep-IsSound :
    {cut : Bool} (py : Python) (r s : Run) (step : RunStep py r s)
    → IsSound cut r
    → IsSound (is_cut py r s step || cut) s
unfolding queue_run begin_run page_opened report_metadata drain artifact_created report_result
    page_focused control_taken emit make_event
RunStep-IsSound py r _ (queues now) k = sent_one r _ _ k refl refl refl refl refl refl refl
RunStep-IsSound py r _ (schedules s t) k = record {
  numbered = k.numbered;
  proved = k.proved;
  flagged = k.flagged;
}
RunStep-IsSound py r _ (begins now t) k = sent_one r _ _ k refl refl refl refl refl refl refl
RunStep-IsSound py r _ (announced t) k = record {
  numbered = k.numbered;
  proved = k.proved;
  flagged = k.flagged;
}
RunStep-IsSound py r _ (escapes t) k = record {
  numbered = k.numbered;
  proved = k.proved;
  flagged = k.flagged;
}
RunStep-IsSound py r _ (opens now t) k = sent_one r _ _ k refl refl refl refl refl refl refl
RunStep-IsSound py r _ (titles title t) k = titles-IsSound (role_company_from_title title) r k
RunStep-IsSound py r _ (starts now gateway t) k = begin_job-IsSound py now gateway r k
RunStep-IsSound py r _ (reports company role t) k = record {
  numbered = k.numbered;
  proved = k.proved;
  flagged = k.flagged;
}
RunStep-IsSound py r _ (accepts now name event state) k = accept-IsSound py now name event state r k
RunStep-IsSound {cut} py r _ (accept_waits now name event state t) k =
    accept_cut-IsSound py now name event state r (or-left (completes py event state) cut)
      (weaken-IsSound (completes py event state) r k)
RunStep-IsSound py r _ (accept_resumes now kind agent payload) k =
    after_phase-IsSound py now kind agent payload r k
RunStep-IsSound py r _ (drains t) k = record {
  numbered = k.numbered;
  proved = k.proved;
  flagged = k.flagged;
}
RunStep-IsSound py r _ (keeps_artifact a t) k = sent_one r _ _ k refl refl refl refl refl refl refl
RunStep-IsSound py r _ (asks now image q t) k = human_requested-IsSound py now image q r k
RunStep-IsSound py r _ (answers now q t) k = human_resolved-IsSound py now q r k
RunStep-IsSound py r _ (finishes now s ledger t) k = finish_job-IsSound py now s ledger r k
RunStep-IsSound py r _ (ends now count o summary t) k = record {
  numbered = k.numbered;
  proved = k.proved;
  flagged = k.flagged;
}
RunStep-IsSound py r _ (fails now error ledger t) k =
    let over =
      terminal-IsSound py now RunOutcome.failed "Core execution failed." error ledger r refl k in
    record { numbered = over.numbered; proved = over.proved; flagged = over.flagged }
RunStep-IsSound py r _ (cancelled now ledger t) k =
    let over =
      terminal-IsSound py now RunOutcome.cancelled "Run cancelled." no_entries ledger r refl k in
    record { numbered = over.numbered; proved = over.proved; flagged = over.flagged }
RunStep-IsSound py r _ (releases now t) k = auto_release-IsSound py now r k
RunStep-IsSound py r _ (focuses now) k = sent_one r _ _ k refl refl refl refl refl refl refl
RunStep-IsSound py r _ (takes now t) k = sent_one r _ _ k refl refl refl refl refl refl refl
RunStep-IsSound py r _ (returns now evidence t) k = control_returned-IsSound py now evidence r k
RunStep-IsSound py r _ (closes now s h) k = left _ s (close_page-IsSound py now r k) h
RunStep-IsSound py r _ (tells now content source s h) k =
    left _ s (send_context-IsSound py now content source r k) h
RunStep-IsSound py r _ (switches now gateway provider model s h) k =
    left _ s (switch_model-IsSound py now gateway provider model r k) h
RunStep-IsSound py r _ (reasons now reasoning effort s h) k =
    left _ s (set_reasoning-IsSound py now reasoning effort r k) h
RunStep-IsSound py r _ (shuts now) k = shut_down-IsSound py now r k
RunStep-IsSound py r _ (cancels now ledger s h) k = left _ s (cancel-IsSound py now ledger r k) h

none_outcome : none ≡ some RunOutcome.submitted_verified → ⊥
none_outcome e = cc

new_run-IsSound :
    (now : ℕ) (id : String) (gateway model provider : Option String) (request : StartRunRequest)
    → IsSound false (new_run now id gateway model provider request)
unfolding new_run
new_run-IsSound now id gateway model provider request = record {
  numbered = (unsent, refl);
  proved = λ e. absurd (none_outcome e);
  flagged = λ e. absurd (true-false (sym e));
}

-- Whether that has happened in the course of a run.
abbrev pub was_cut : (py : Python) (r s : Run) → Star (RunStep py) r s → Bool
was_cut py r _ here = false
was_cut py r s (next {t} run step) = is_cut py t s step || was_cut py r t run

run-IsSound :
    (py : Python) (r s : Run) (run : Star (RunStep py) r s)
    → IsSound false r
    → IsSound (was_cut py r s run) s
run-IsSound py r _ here k = k
run-IsSound py r s (next {t} run step) k = RunStep-IsSound py t s step (run-IsSound py r t run k)

module _ (py : Python) (now : ℕ) (id : String) (gateway model provider : Option String)
    (request : StartRunRequest) (r : Run) where
  abbrev created : Run
  created = new_run now id gateway model provider request

  -- Whatever happens to a run, the events that it makes for its two streams take the numbers 1, 2, 3 and so
  -- on, each number once, and the latest is in its view. So whatever is handed to the observers of
  -- these, in any order, with any of them lost on the way: no two events that they get have the same
  -- number, and every number is between 1 and the latest.
  pub observed_once :
      (published : List CoreEvent) (number : ℕ)
      → Star (RunStep py) created r
      → Delivered r.events r.live_events published
      → IsNumbered r
        × (count_number number published ≤ 1)
        × All (IsGiven r.view.latest_event_sequence) published
  observed_once published number run delivered =
      let sound =
        run-IsSound py created r run (new_run-IsSound now id gateway model provider request) in
      let given = Numbered-IsGiven sound.numbered.0 in
      (
        sound.numbered,
        omega (arith, Delivered-count number delivered, (Numbered-count number sound.numbered.0).0),
        rw (sound.numbered.1) (Delivered-All (IsGiven r.sequence) delivered given.0 given.1),
      )

  -- Whatever happens to a run, it has the outcome of a verified submission only if an event of a submission
  -- was made, with its number, or if a report of a submission came to the sink of its graph and got no
  -- further at first than to the emission of the change of phase that precedes its own event.
  pub submitted_was_reported :
      (run : Star (RunStep py) created r)
      → r.view.outcome ≡ some RunOutcome.submitted_verified
      → (saw_submission r.events ≡ true) ⊎ (was_cut py created r run ≡ true)
  submitted_was_reported run o = or-cases _ _ (
      (run-IsSound py created r run (new_run-IsSound now id gateway model provider request)).proved
        o)
