-- ===== src/Service/Tests.antt =====
-- Runs of an application (src/z_apply_core/integrations/service.py), and the theorems at them.
use z_apply_core.Prelude.{
  strip, lstrip, rstrip, take_text, strip_prefix, String, ℕ, ◌≡◌, refl, true, false, none, some,
  inl, ◌⊎◌, List, [], ◌∷◌, ◌++◌, ◌≤◌, All, mem_str,
}
use z_apply_core.Star.{Star, here, next}
use z_apply_core.Dict.{put}
use z_apply_core.Payload.Json.{no_entries}
use z_apply_core.Service.View.{RunOutcome, RunStatus}
use z_apply_core.Service.Run.{CoreEvent, Run, Task, Python, emit}
use z_apply_core.Broker.Request.{BrokerRequest, make_request}
use z_apply_core.Service.Pending.{PointsToOldest, reports_point_to_oldest}
use z_apply_core.Service.Requests.{
  human_requested, human_resolved, emit_requested, oldest, oldest_pending, public_human_request,
  resolved_status, invalid_run_transition, is_terminal,
}
use z_apply_core.Service.Sink.{
  accept_cut, accept, accept_kind, forward, persist, set_current_agent, note_model, take_model,
  enter_application,
}
use z_apply_core.Service.Execute.{
  emit_run_ledger, schedule_retained_browser_release, begin_run, page_opened, begin_job,
  enter_running, JobState, finish_job, terminal,
}
use z_apply_core.Service.Methods.{
  StartRunRequest, new_run, queue_run, control_taken, control_returned, snapshot_refreshed, cancel,
  close_page,
}
use z_apply_core.Service.Title.{role_company_from_title, title_parts, partition, clean_job_metadata}
use z_apply_core.Service.Steps.{
  RunStep, set_task, queues, schedules, begins, announced, escapes, opens, starts, accepts,
  finishes, cancels, takes, fails, returns,
}
use z_apply_core.Service.Sound.{IsNumbered, saw_submission}
use z_apply_core.Service.Delivered.{Delivered, nothing, lost, handed, IsGiven, count_number}
use z_apply_core.Service.Honest.{was_cut, observed_once, submitted_was_reported}
use z_apply_core.Service.Stuck.{stuck_for_ever}

abbrev pub python : Python
python = record { lower = λ s. s; iso = λ n. "now"; same = λ a b. false; int = λ v. 0 }

abbrev pub wanted : StartRunRequest
wanted = record { job_url = "https://jobs.example/1"; task = none; provider = none; model = none }

abbrev pub first : Run
first = new_run 2 "r1" (some "router") none none wanted

abbrev pub announcing : Run
announcing = begin_run python 3 (set_task Task.created (queue_run python 2 first))

-- The task is cancelled while it announces the run.
abbrev escaped : Run
escaped = set_task Task.ended announcing

to_escaped : Star (RunStep python) first escaped
unfolding new_run queue_run begin_run emit
to_escaped =
    next (next (next (next here (queues 2)) (schedules refl refl)) (begins 3 refl)) (escapes refl)

abbrev latest_of : List CoreEvent → List CoreEvent
latest_of [] = []
latest_of (e ∷ es) = e ∷ []

-- Of two events that were made, the first is lost.
abbrev shown : List CoreEvent
shown = latest_of escaped.events ++ []

to_shown : Delivered escaped.events escaped.live_events shown
unfolding new_run queue_run begin_run emit
to_shown = handed _ [] [] (lost _ nothing)

observed_once_example :
    IsNumbered escaped
    × (count_number 2 shown ≤ 1)
    × All (IsGiven escaped.view.latest_event_sequence) shown
observed_once_example =
    observed_once python 2 "r1" (some "router") none none wanted escaped shown 2 to_escaped to_shown

abbrev asked : Run
asked = emit python 5 "run.cancel_requested" no_entries (("component", "core") ∷ []) "info" escaped

to_asked : Star (RunStep python) escaped asked
unfolding cancel begin_run emit
to_asked = next here (cancels 5 none asked refl)

escaped_over : escaped.task ≡ Task.ended
escaped_over = refl

stuck_for_ever_example :
    (is_terminal asked.view.status ≡ false)
    × (asked.done ≡ escaped.done)
    × (close_page python 9 asked ≡ inl invalid_run_transition)
unfolding begin_run emit
stuck_for_ever_example = stuck_for_ever python 9 escaped asked refl refl to_asked

abbrev pub working : Run
working = begin_job python 5 "router" (page_opened python 4 (set_task Task.opening announcing))

abbrev clicked : Run
clicked = accept python 6 "orchestrator" "submission_completed" no_entries working

abbrev reported : JobState
reported = record {
  run_status = some "completed";
  orchestrator_summary = some "Sent.";
  auth_summary = none;
}

abbrev submitted : Run
submitted = finish_job python 7 reported none clicked

to_working : Star (RunStep python) first working
unfolding new_run queue_run begin_run page_opened emit
to_working =
    next
      (next
        (next (next (next (next here (queues 2)) (schedules refl refl)) (begins 3 refl))
          (announced refl))
        (opens 4 refl))
      (starts 5 "router" refl)

to_submitted : Star (RunStep python) first submitted
unfolding begin_job accept accept_kind forward persist emit enter_application set_current_agent
    note_model take_model mem_str
to_submitted =
    next (next to_working (accepts 6 "orchestrator" "submission_completed" no_entries))
      (finishes 7 reported none refl)

submitted_was_reported_example :
    (saw_submission submitted.events ≡ true) ⊎ (was_cut python first submitted to_submitted ≡ true)
unfolding finish_job accept mem_str begin_job
submitted_was_reported_example =
    submitted_was_reported python 2 "r1" (some "router") none none wanted submitted to_submitted
      refl

-- The flag is set before the event is made: while the report waits in the emission of the phase, the run
-- can end as submitted.
abbrev too_early : Run
too_early =
    finish_job python 7 reported none
      (accept_cut python 6 "orchestrator" "submission_completed" no_entries working)

too_early_test :
    (too_early.view.outcome ≡ some RunOutcome.submitted_verified)
    × (saw_submission too_early.events ≡ false)
unfolding finish_job accept_cut mem_str begin_job begin_run page_opened enter_running new_run
    queue_run emit enter_application emit_run_ledger
too_early_test = (refl, refl)

abbrev pub held : Run
held = control_taken python 6 working

-- A run fails while a person has control, who then returns it.
abbrev failed : Run
failed =
    set_task Task.ended
      (terminal python 7 RunOutcome.failed "Core execution failed." no_entries none held)

abbrev revived : Run
revived = control_returned python 8 "page" failed

to_revived : Star (RunStep python) first revived
unfolding begin_job begin_run page_opened enter_running control_taken emit terminal emit_run_ledger
    schedule_retained_browser_release
to_revived =
    next (next (next to_working (takes 6 refl)) (fails 7 no_entries none refl))
      (returns 8 "page" refl)

revived_test : (revived.task ≡ Task.ended) × (revived.view.status ≡ RunStatus.running)
unfolding control_returned snapshot_refreshed begin_job begin_run page_opened enter_running
    control_taken emit terminal emit_run_ledger schedule_retained_browser_release new_run queue_run
revived_test = (refl, refl)

abbrev question_at : String → ℕ → BrokerRequest
question_at id now =
    make_request (λ s. s) "r1" id now
      (record {
        kind = "question";
        question = "Notice period?";
        context = "";
        options = [];
        risk = "low";
        image_path = "";
        field_label = "";
        reason = "";
      })

-- The second question is older than the first.
pointer_test :
    (human_requested python 9 none
      (question_at "q2" 6)
      (human_requested python 8 none (question_at "q1" 7) working)).view.pending_human_request_id
    ≡ some "q2"
unfolding human_requested emit_requested emit oldest_pending oldest put make_request
    public_human_request begin_job enter_running page_opened begin_run queue_run new_run
pointer_test = refl

working_live : is_terminal working.view.status ≡ false
unfolding begin_job enter_running emit
working_live = refl

reports_point_to_oldest_example :
    PointsToOldest (human_requested python 8 none (question_at "q1" 7) working)
    × PointsToOldest (human_resolved python 8 (question_at "q1" 7) working)
    × ((human_requested python 8 none (question_at "q1" 7) working).view.status
        ≡ RunStatus.waiting_human)
    × ((human_resolved python 8 (question_at "q1" 7) working).view.status
        ≡ resolved_status working.view.control_mode
            (human_resolved python 8 (question_at "q1" 7) working).view.pending_human_request_id)
reports_point_to_oldest_example =
    reports_point_to_oldest python 8 none (question_at "q1" 7) working working_live

title_test :
    role_company_from_title "Full-stack Engineer - Acme | Careers"
    ≡ some ("Full-stack Engineer - Acme", "Careers")
unfolding role_company_from_title title_parts partition clean_job_metadata strip lstrip rstrip
    take_text strip_prefix
title_test = refl
