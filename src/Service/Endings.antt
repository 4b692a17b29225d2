-- ===== src/Service/Endings.antt =====
-- What the ends of a run keep, and its answers from people (src/z_apply_core/integrations/service.py).
use z_apply_core.Prelude.{
  ℕ, String, ◌≡◌, refl, ap, sym, ◌∙◌, Bool, true, false, not, ◌&&◌, inl, inr, Option, none, some,
  Bool-cases, from_some, if◌then◌else◌, arith,
}
use z_apply_core.Payload.Json.{Entries}
use z_apply_core.Broker.Request.{BrokerRequest}
use z_apply_core.Service.View.{RunOutcome, BrowserTabState}
use z_apply_core.Service.Run.{Run, Task, GraphSink, Python, make_event, core_source, emit}
use z_apply_core.Service.Requests.{is_terminal, human_requested, human_resolved, emit_requested}
use z_apply_core.Service.Execute.{
  finished, terminal_payload, failure_level, with_entries, JobState, status_of, is_submitted,
  claimed_outcome, job_outcome, emit_run_ledger, finish_job, close_tab, is_opened, is_cancelled,
  schedule_retained_browser_release, auto_release, terminal,
}
use z_apply_core.Service.Sound.{IsSound, sent_one, emit-IsSound}
use z_apply_core.Workspace.Exclusion.{true-false}

pub emit_run_ledger-IsSound :
    {cut : Bool} (py : Python) (now : ℕ) (ledger : Option Entries) (r : Run)
    → IsSound cut r
    → IsSound cut (emit_run_ledger py now ledger r)
unfolding emit_run_ledger emit make_event
emit_run_ledger-IsSound py now none r k = k
emit_run_ledger-IsSound py now (some l) r k = sent_one r _ _ k refl refl refl refl refl refl refl

pub close_tab-IsSound :
    {cut : Bool} (py : Python) (now : ℕ) (reason : String) (r : Run)
    → IsSound cut r
    → IsSound cut (close_tab py now reason r)
unfolding close_tab emit make_event
close_tab-IsSound py now reason r k = sent_one r _ _ k refl refl refl refl refl refl refl

schedule-IsSound :
    {cut : Bool} (py : Python) (now : ℕ) (o : RunOutcome) (r : Run)
    → IsSound cut r
    → IsSound cut (schedule_retained_browser_release py now o r)
unfolding schedule_retained_browser_release
schedule-IsSound py now o r k = elim (Bool-cases (is_opened r.view.browser_tab_state)) [
  | inr shut ↦ rw shut k
  | inl opened' ↦ rw opened' (elim (Bool-cases (is_cancelled o)) [
    | inl gone ↦ rw gone (close_tab-IsSound py now "cancelled" r k)
    | inr kept ↦ rw kept (elim (Bool-cases (is_submitted o)) [
      | inl done ↦ rw done k
      | inr held ↦
          rw held (record { numbered = k.numbered; proved = k.proved; flagged = k.flagged })
    ])
  ])
]

pub auto_release-IsSound :
    {cut : Bool} (py : Python) (now : ℕ) (r : Run)
    → IsSound cut r
    → IsSound cut (auto_release py now r)
unfolding auto_release
auto_release-IsSound py now r k =
    elim (Bool-cases (is_terminal r.view.status && is_opened r.view.browser_tab_state)) [
      | inl due ↦ rw due (close_tab-IsSound py now "retention_ttl" r k)
      | inr late ↦ rw late k
    ]

not_submitted :
    (o : RunOutcome) → is_submitted o ≡ false → some o ≡ some RunOutcome.submitted_verified → ⊥
not_submitted o no' e =
    true-false (sym (ap is_submitted (from_some o RunOutcome.submitted_verified e)) ∙ no')

-- `_terminal` claims no submission.
pub terminal-IsSound :
    {cut : Bool} (py : Python) (now : ℕ) (o : RunOutcome) (summary : String) (payload : Entries)
    (ledger : Option Entries) (r : Run)
    → is_submitted o ≡ false
    → IsSound cut r
    → IsSound cut (terminal py now o summary payload ledger r)
unfolding terminal
terminal-IsSound {cut} py now o summary payload ledger r other k =
    let over = record r { view = finished now o summary r.view.browser_tab_state r.view } in
    let noted : IsSound cut over = record {
      numbered = k.numbered;
      proved = λ e. absurd (not_submitted o other e);
      flagged = k.flagged;
    } in
    let written = emit_run_ledger-IsSound py now ledger over noted in
    let told =
      emit-IsSound py now "run.terminal" (with_entries payload (terminal_payload o summary))
        core_source (failure_level o) (emit_run_ledger py now ledger over) written in
    let released = schedule-IsSound py now o _ told in
    record { numbered = released.numbered; proved = released.proved; flagged = released.flagged }

flag-of :
    (o : RunOutcome) (sink : GraphSink)
    → (is_submitted o && not sink.submission_completed) ≡ false
    → o ≡ RunOutcome.submitted_verified
    → sink.submission_completed ≡ true
flag-of o sink free h = ground (arith, free, ap is_submitted h)

-- The outcome gate.
submitted-flag :
    (sink : GraphSink) (s : JobState)
    → (job_outcome sink s).0 ≡ RunOutcome.submitted_verified
    → sink.submission_completed ≡ true
unfolding job_outcome
submitted-flag sink s h =
    elim (Bool-cases
      (is_submitted (claimed_outcome (status_of s)) && not sink.submission_completed)) [
        | inl held ↦ absurd (true-false (sym (ap is_submitted (rw held at h))))
        | inr free ↦ flag-of (claimed_outcome (status_of s)) sink free (rw free at h)
      ]

pub finish_job-IsSound :
    {cut : Bool} (py : Python) (now : ℕ) (s : JobState) (ledger : Option Entries) (r : Run)
    → IsSound cut r
    → IsSound cut (finish_job py now s ledger r)
unfolding finish_job
finish_job-IsSound {cut} py now s ledger r k =
    let (outcome, summary) = job_outcome r.sink s in
    let tab = if is_submitted outcome then BrowserTabState.closed else BrowserTabState.opened in
    let over = record r { view = finished now outcome summary tab r.view; task = Task.finishing } in
    let noted : IsSound cut over = record {
      numbered = k.numbered;
      proved = λ e.
          k.flagged (submitted-flag r.sink s (from_some outcome RunOutcome.submitted_verified e));
      flagged = k.flagged;
    } in
    emit-IsSound py now "run.terminal" (terminal_payload outcome summary) core_source "info"
      (emit_run_ledger py now ledger over) (emit_run_ledger-IsSound py now ledger over noted)

pub human_requested-IsSound :
    {cut : Bool} (py : Python) (now : ℕ) (image : Option String) (q : BrokerRequest) (r : Run)
    → IsSound cut r
    → IsSound cut (human_requested py now image q r)
unfolding human_requested emit_requested emit make_event
human_requested-IsSound py now image q r k = elim (Bool-cases (is_terminal r.view.status)) [
  | inl over ↦ rw over (sent_one r _ _ k refl refl refl refl refl refl refl)
  | inr open' ↦ rw open' (sent_one r _ _ k refl refl refl refl refl refl refl)
]

pub human_resolved-IsSound :
    {cut : Bool} (py : Python) (now : ℕ) (q : BrokerRequest) (r : Run)
    → IsSound cut r
    → IsSound cut (human_resolved py now q r)
unfolding human_resolved emit make_event
human_resolved-IsSound py now q r k = elim (Bool-cases (is_terminal r.view.status)) [
  | inl over ↦ rw over (sent_one r _ _ k refl refl refl refl refl refl refl)
  | inr open' ↦ rw open' (sent_one r _ _ k refl refl refl refl refl refl refl)
]
