-- ===== src/Service/Over.antt =====
-- What a run keeps whose task is over (src/z_apply_core/integrations/service.py).
use z_apply_core.Prelude.{
  ℕ, String, ◌≡◌, refl, ap, sym, ◌∙◌, Bool, true, false, not, ◌&&◌, ◌⊎◌, inl, inr, Option, none,
  some, is_blank, is_some, leb, length, mem_str, strip, Bool-cases,
}
use Prim.Native.String.{count}
use z_apply_core.Payload.Json.{Entries}
use z_apply_core.Broker.Request.{BrokerRequest}
use z_apply_core.Service.View.{RunStatus, BrowserControlMode}
use z_apply_core.Service.Run.{Run, Task, Python, emit, artifact_created}
use z_apply_core.Service.Requests.{
  is_terminal, resolved_status, human_requested, human_resolved, emit_requested,
}
use z_apply_core.Service.Execute.{close_tab, auto_release, is_opened}
use z_apply_core.Service.Methods.{
  queue_run, page_focused, control_taken, returned_status, snapshot_refreshed, control_returned,
  close_page, send_context, switch_model, set_reasoning, shut_down, cancel, has_task, is_closed,
  is_effort, max_pending, reasoning_modes,
}
use z_apply_core.Service.Steps.{
  RunStep, is_guarded, is_unguarded, queues, schedules, begins, announced, escapes, opens, titles,
  starts, reports, accepts, accept_waits, accept_resumes, drains, keeps_artifact, asks, answers,
  finishes, ends, fails, cancelled, releases, focuses, takes, returns, closes, tells, switches,
  reasons, shuts, cancels,
}
use z_apply_core.Service.Aside.{Aside, accept-Aside, accept_cut-Aside, after_phase-Aside}
use z_apply_core.Service.Leaves.{Leaves, raises, leaves, left, guarded}
use z_apply_core.Workspace.Exclusion.{true-false}

-- Neither queued nor terminal.
abbrev pub is_unsettled : RunStatus → Bool
is_unsettled RunStatus.queued = false
is_unsettled RunStatus.terminal = false
is_unsettled _ = true

abbrev pub is_queued : RunStatus → Bool
is_queued RunStatus.queued = true
is_queued _ = false

-- `z` is the run at some earlier time.
pub record IsOver (z r : Run) : Type 0 where
  pub over : r.task ≡ Task.ended
  pub begun : is_queued r.view.status ≡ false
  pub result : r.done ≡ z.done
  pub no_tab :
      is_opened z.view.browser_tab_state ≡ false → is_opened r.view.browser_tab_state ≡ false
  pub unsettled : is_terminal z.view.status ≡ false → is_terminal r.view.status ≡ false

pub not_terminal : (s : RunStatus) → is_unsettled s ≡ true → is_terminal s ≡ false
not_terminal RunStatus.terminal h = absurd (true-false (sym h))
not_terminal RunStatus.queued h = refl
not_terminal RunStatus.starting h = refl
not_terminal RunStatus.running h = refl
not_terminal RunStatus.waiting_human h = refl
not_terminal RunStatus.human_control h = refl

returned-unsettled : (id : Option String) → is_unsettled (returned_status id) ≡ true
returned-unsettled none = refl
returned-unsettled (some s) = refl

resolved-unsettled :
    (m : BrowserControlMode) (id : Option String) → is_unsettled (resolved_status m id) ≡ true
resolved-unsettled BrowserControlMode.human_control id = refl
resolved-unsettled BrowserControlMode.agent_control none = refl
resolved-unsettled BrowserControlMode.agent_control (some s) = refl

pub not_queued : (s : RunStatus) → is_unsettled s ≡ true → is_queued s ≡ false
not_queued RunStatus.queued h = absurd (true-false (sym h))
not_queued RunStatus.terminal h = refl
not_queued RunStatus.starting h = refl
not_queued RunStatus.running h = refl
not_queued RunStatus.waiting_human h = refl
not_queued RunStatus.human_control h = refl

-- A step that leaves the status or makes the run go on, and leaves the tab or closes it.
changed-IsOver :
    {z : Run} (r s : Run)
    → s.task ≡ r.task
    → (s.view.status ≡ r.view.status) ⊎ (is_unsettled s.view.status ≡ true)
    → (s.view.browser_tab_state ≡ r.view.browser_tab_state)
      ⊎ (is_opened s.view.browser_tab_state ≡ false)
    → s.done ≡ r.done
    → IsOver z r
    → IsOver z s
changed-IsOver r s task status tab done k = record {
  over = task ∙ k.over;
  begun = elim status [
    | inl same ↦ ap is_queued same ∙ k.begun
    | inr goes ↦ not_queued s.view.status goes
  ];
  result = done ∙ k.result;
  no_tab = λ h. elim tab [ inl same ↦ ap is_opened same ∙ k.no_tab h | inr shut ↦ shut ];
  unsettled = λ h. elim status [
    | inl same ↦ ap is_terminal same ∙ k.unsettled h
    | inr goes ↦ not_terminal s.view.status goes
  ];
}

Aside-IsOver : {z : Run} (r s : Run) → Aside r s → IsOver z r → IsOver z s
Aside-IsOver r s a k = changed-IsOver r s a.task (inl a.status) (inl a.tab) a.done k

abbrev is_ended : Task → Bool
is_ended Task.ended = true
is_ended _ = false

not_ended : {A : Type 0} (t u : Task) → t ≡ Task.ended → t ≡ u → is_ended u ≡ false → A
not_ended t u over h n = absurd (true-false (sym (ap is_ended over) ∙ ap is_ended h ∙ n))

module _ {z : Run} (py : Python) (now : ℕ) (r : Run) (k : IsOver z r) where
  close_tab-IsOver : (reason : String) → IsOver z (close_tab py now reason r)
  unfolding close_tab emit
  close_tab-IsOver reason = changed-IsOver r _ refl (inl refl) (inr refl) refl k

  release-IsOver : IsOver z (auto_release py now r)
  unfolding auto_release
  release-IsOver =
      elim (Bool-cases (is_terminal r.view.status && is_opened r.view.browser_tab_state)) [
        | inl due ↦ rw due (close_tab-IsOver "retention_ttl")
        | inr late ↦ rw late k
      ]

  shut_down-IsOver : IsOver z (shut_down py now r)
  unfolding shut_down
  shut_down-IsOver = elim (Bool-cases (is_closed r.view.browser_tab_state)) [
    | inl shut ↦ rw shut k
    | inr up ↦ rw up (close_tab-IsOver "shutdown")
  ]

  asks-IsOver :
      (image : Option String) (q : BrokerRequest) → IsOver z (human_requested py now image q r)
  unfolding human_requested emit_requested emit
  asks-IsOver image q = elim (Bool-cases (is_terminal r.view.status)) [
    | inl over ↦ rw over (changed-IsOver r _ refl (inl refl) (inl refl) refl k)
    | inr open' ↦ rw open' (changed-IsOver r _ refl (inr refl) (inl refl) refl k)
  ]

  answers-IsOver : (q : BrokerRequest) → IsOver z (human_resolved py now q r)
  unfolding human_resolved emit
  answers-IsOver q = elim (Bool-cases (is_terminal r.view.status)) [
    | inl over ↦ rw over (changed-IsOver r _ refl (inl refl) (inl refl) refl k)
    | inr open' ↦
        rw open' (
          changed-IsOver r _ refl (inr (resolved-unsettled r.view.control_mode _)) (inl refl) refl
            k)
  ]

  returns-IsOver : (evidence : String) → IsOver z (control_returned py now evidence r)
  unfolding control_returned snapshot_refreshed emit
  returns-IsOver evidence =
      changed-IsOver r _ refl (inr (returned-unsettled r.view.pending_human_request_id)) (inl refl)
        refl k

  closes-IsOver : Leaves (IsOver z) (close_page py now r)
  unfolding close_page emit
  closes-IsOver = elim (Bool-cases (is_terminal r.view.status)) [
    | inl over ↦ rw over (leaves (changed-IsOver r _ refl (inl refl) (inr refl) refl k))
    | inr open' ↦ rw open' raises
  ]

  tells-IsOver :
      (content source : String) → Leaves (IsOver z) (send_context py now content source r)
  unfolding send_context emit
  tells-IsOver content source = guarded (is_terminal r.view.status) _ _ (
      guarded (is_blank (strip content)) _ _ (
        guarded (not (leb (count (strip content)) 8000)) _ _ (
          guarded (leb max_pending (length r.context_inbox)) _ _
            (leaves (changed-IsOver r _ refl (inl refl) (inl refl) refl k)))))

  switches-IsOver :
      (gateway provider model : String)
      → Leaves (IsOver z) (switch_model py now gateway provider model r)
  unfolding switch_model emit
  switches-IsOver gateway provider model =
      guarded (is_terminal r.view.status) _ _
        (leaves (changed-IsOver r _ refl (inl refl) (inl refl) refl k))

  reasons-IsOver :
      (reasoning : String) (effort : Option String)
      → Leaves (IsOver z) (set_reasoning py now reasoning effort r)
  unfolding set_reasoning emit
  reasons-IsOver reasoning effort = guarded (is_terminal r.view.status) _ _ (
      guarded (not (mem_str reasoning reasoning_modes)) _ _ (
        guarded (not (is_effort effort)) _ _ (
          guarded (not (is_some r.provider)) _ _
            (leaves (changed-IsOver r _ refl (inl refl) (inl refl) refl k)))))

  cancels-IsOver : (ledger : Option Entries) → Leaves (IsOver z) (cancel py now ledger r)
  unfolding cancel emit
  cancels-IsOver ledger =
      guarded (is_terminal r.view.status) _ _
        (rw (ap has_task k.over) (leaves (changed-IsOver r _ refl (inl refl) (inl refl) refl k)))

not_guarded : {A : Type 0} (t : Task) → t ≡ Task.ended → is_guarded t ≡ true → A
not_guarded t over h = absurd (true-false (sym h ∙ ap is_guarded over))

pub RunStep-IsOver : {z : Run} (py : Python) (r s : Run) → RunStep py r s → IsOver z r → IsOver z s
unfolding queue_run artifact_created page_focused control_taken emit
RunStep-IsOver py r _ (queues n) k = changed-IsOver r _ refl (inl refl) (inl refl) refl k
RunStep-IsOver py r _ (schedules s t) k = absurd (true-false (sym (ap is_queued s) ∙ k.begun))
RunStep-IsOver py r _ (begins n t) k = not_ended _ _ k.over t refl
RunStep-IsOver py r _ (announced t) k = not_ended _ _ k.over t refl
RunStep-IsOver py r _ (escapes t) k = absurd (true-false (sym t ∙ ap is_unguarded k.over))
RunStep-IsOver py r _ (opens n t) k = not_ended _ _ k.over t refl
RunStep-IsOver py r _ (titles title t) k = not_ended _ _ k.over t refl
RunStep-IsOver py r _ (starts n gateway t) k = not_ended _ _ k.over t refl
RunStep-IsOver py r _ (reports company role t) k = not_ended _ _ k.over t refl
RunStep-IsOver py r _ (accepts n name event state) k =
    Aside-IsOver r _ (accept-Aside py n name event state r) k
RunStep-IsOver py r _ (accept_waits n name event state t) k =
    Aside-IsOver r _ (accept_cut-Aside py n name event state r) k
RunStep-IsOver py r _ (accept_resumes n kind agent payload) k =
    Aside-IsOver r _ (after_phase-Aside py n kind agent payload r) k
RunStep-IsOver py r _ (drains t) k = not_ended _ _ k.over t refl
RunStep-IsOver py r _ (keeps_artifact a t) k = changed-IsOver r _ refl (inl refl) (inl refl) refl k
RunStep-IsOver py r _ (asks n image q t) k = asks-IsOver py n r k image q
RunStep-IsOver py r _ (answers n q t) k = answers-IsOver py n r k q
RunStep-IsOver py r _ (finishes n s ledger t) k = not_ended _ _ k.over t refl
RunStep-IsOver py r _ (ends n events o summary t) k = not_ended _ _ k.over t refl
RunStep-IsOver py r _ (fails n error ledger t) k = not_guarded _ k.over t
RunStep-IsOver py r _ (cancelled n ledger t) k = not_guarded _ k.over t
RunStep-IsOver py r _ (releases n t) k = release-IsOver py n r k
RunStep-IsOver py r _ (focuses n) k = changed-IsOver r _ refl (inl refl) (inl refl) refl k
RunStep-IsOver py r _ (takes n t) k = changed-IsOver r _ refl (inr refl) (inl refl) refl k
RunStep-IsOver py r _ (returns n evidence t) k = returns-IsOver py n r k evidence
RunStep-IsOver py r _ (closes n s h) k = left _ s (closes-IsOver py n r k) h
RunStep-IsOver py r _ (tells n content source s h) k =
    left _ s (tells-IsOver py n r k content source) h
RunStep-IsOver py r _ (switches n gateway provider model s h) k =
    left _ s (switches-IsOver py n r k gateway provider model) h
RunStep-IsOver py r _ (reasons n reasoning effort s h) k =
    left _ s (reasons-IsOver py n r k reasoning effort) h
RunStep-IsOver py r _ (shuts n) k = shut_down-IsOver py n r k
RunStep-IsOver py r _ (cancels n ledger s h) k = left _ s (cancels-IsOver py n r k ledger) h
