-- ===== src/Service/Aside.antt =====
-- What the sink of a run's graph leaves alone (`accept` of src/z_apply_core/integrations/service.py).
use z_apply_core.Prelude.{
  ℕ, String, ◌≡◌, refl, ◌∙◌, inl, inr, Option, some, str_eq, mem_str, Bool-cases, if◌then◌else◌,
  is_blank, true,
}
use z_apply_core.Payload.Json.{Json, text, Entries, boolean, put_entry}
use z_apply_core.Payload.Sanitize.{framework_payload}
use z_apply_core.Service.Run.{Run, Python, emit, emit_live}
use z_apply_core.Service.Typed.{public_agent_name, typed_framework_event}
use z_apply_core.Service.Sink.{
  agent_kinds, enters_application, live_only_events, after_phase, enter_application,
  set_current_agent, note_model, take_model, tool_payload, persist, forward, is_dropped,
  accept_kind, accept, submission_kind, note_kind, accept_cut,
}

-- The task, the status, the tab and the result are the same.
pub record Aside (r s : Run) : Type 0 where
  pub task : s.task ≡ r.task
  pub status : s.view.status ≡ r.view.status
  pub tab : s.view.browser_tab_state ≡ r.view.browser_tab_state
  pub done : s.done ≡ r.done

after-Aside : {r s t : Run} → Aside r s → Aside s t → Aside r t
after-Aside a b = record {
  task = b.task ∙ a.task;
  status = b.status ∙ a.status;
  tab = b.tab ∙ a.tab;
  done = b.done ∙ a.done;
}

take_model-Aside :
    (kind agent : String) (v : Option Json) (r : Run) → Aside r (take_model kind agent v r)
unfolding take_model
take_model-Aside kind agent (some (text model)) r = record {
  task = refl;
  status = refl;
  tab = refl;
  done = refl;
}
take_model-Aside kind agent _ r = record { task = refl; status = refl; tab = refl; done = refl }

set_current_agent-Aside : (kind agent : String) (r : Run) → Aside r (set_current_agent kind agent r)
unfolding set_current_agent
set_current_agent-Aside kind agent r = elim (Bool-cases (mem_str kind agent_kinds)) [
  | inl known ↦ rw known (record { task = refl; status = refl; tab = refl; done = refl })
  | inr other ↦ rw other (record { task = refl; status = refl; tab = refl; done = refl })
]

enter_application-Aside :
    (py : Python) (now : ℕ) (agent : String) (r : Run) → Aside r (enter_application py now agent r)
unfolding enter_application emit
enter_application-Aside py now agent r = elim (Bool-cases (enters_application agent r)) [
  | inl enters ↦ rw enters (record { task = refl; status = refl; tab = refl; done = refl })
  | inr stays ↦ rw stays (record { task = refl; status = refl; tab = refl; done = refl })
]

persist-Aside :
    (py : Python) (now : ℕ) (kind agent : String) (payload : Entries) (r : Run)
    → Aside r (persist py now kind agent payload r)
unfolding persist emit
persist-Aside py now kind agent payload r = elim (Bool-cases (str_eq kind "model.usage")) [
  | inl usage ↦ rw usage (record { task = refl; status = refl; tab = refl; done = refl })
  | inr other ↦ rw other (elim (Bool-cases (str_eq kind "agent.turn.completed")) [
    | inl turn ↦ rw turn (record { task = refl; status = refl; tab = refl; done = refl })
    | inr other' ↦ rw other' (record { task = refl; status = refl; tab = refl; done = refl })
  ])
]

pub after_phase-Aside :
    (py : Python) (now : ℕ) (kind agent : String) (payload : Entries) (r : Run)
    → Aside r (after_phase py now kind agent payload r)
unfolding note_model
after_phase-Aside py now kind agent payload r =
    let noted = note_model kind agent payload (set_current_agent kind agent r) in
    after-Aside (set_current_agent-Aside kind agent r) (
      after-Aside (take_model-Aside kind agent _ _)
        (persist-Aside py now kind agent (tool_payload kind agent noted.sink payload) noted))

forward-Aside :
    (py : Python) (now : ℕ) (kind agent : String) (payload : Entries) (r : Run)
    → Aside r (forward py now kind agent payload r)
unfolding forward emit_live
forward-Aside py now kind agent payload r = elim (Bool-cases (mem_str kind live_only_events)) [
  | inl live ↦ rw live (record { task = refl; status = refl; tab = refl; done = refl })
  | inr kept ↦ rw kept (
      after-Aside (enter_application-Aside py now agent r)
        (after_phase-Aside py now kind agent payload (enter_application py now agent r)))
]

-- A change of the sink only, and then the event is passed on.
forward_noted-Aside :
    (py : Python) (now : ℕ) (kind agent : String) (payload : Entries) (r s : Run)
    → Aside r s
    → Aside r (forward py now kind agent payload s)
forward_noted-Aside py now kind agent payload r s a =
    after-Aside a (forward-Aside py now kind agent payload s)

accept_kind-Aside :
    (py : Python) (now : ℕ) (event agent : String) (payload : Entries) (kind : String) (r : Run)
    → Aside r (accept_kind py now event agent payload kind r)
unfolding accept_kind
accept_kind-Aside py now event agent payload kind r =
    elim (Bool-cases (str_eq kind submission_kind)) [
      | inl done ↦ rw done (
          forward_noted-Aside py now kind agent payload r _
            (record { task = refl; status = refl; tab = refl; done = refl }))
      | inr other ↦ rw other (elim (Bool-cases (str_eq kind "submission.failed")) [
        | inl failed ↦ rw failed (
            forward-Aside py now kind agent (put_entry "submission_failed" (boolean true) payload)
              r)
        | inr other' ↦ rw other' (elim (Bool-cases (str_eq kind "graph.event")) [
          | inr typed ↦ rw typed (forward-Aside py now kind agent payload r)
          | inl graph ↦
              rw graph (elim (Bool-cases (is_dropped py event payload r.sink.last_graph_payload)) [
                | inl dropped ↦
                    rw dropped (record { task = refl; status = refl; tab = refl; done = refl })
                | inr new ↦ rw new (
                    forward_noted-Aside py now kind agent payload r _
                      (record { task = refl; status = refl; tab = refl; done = refl }))
              ])
        ])
      ])
    ]

pub accept-Aside :
    (py : Python) (now : ℕ) (name event : String) (state : Entries) (r : Run)
    → Aside r (accept py now name event state r)
unfolding accept
accept-Aside py now name event state r =
    let payload = framework_payload py.lower event state in
    accept_kind-Aside py now event (public_agent_name (if is_blank name then event else name))
      payload (typed_framework_event event payload) r

note_kind-Aside : (kind : String) (payload : Entries) (r : Run) → Aside r (note_kind kind payload r)
unfolding note_kind
note_kind-Aside kind payload r = elim (Bool-cases (str_eq kind submission_kind)) [
  | inl done ↦ rw done (record { task = refl; status = refl; tab = refl; done = refl })
  | inr other ↦ rw other (elim (Bool-cases (str_eq kind "graph.event")) [
    | inl graph ↦ rw graph (record { task = refl; status = refl; tab = refl; done = refl })
    | inr typed ↦ rw typed (record { task = refl; status = refl; tab = refl; done = refl })
  ])
]

pub accept_cut-Aside :
    (py : Python) (now : ℕ) (name event : String) (state : Entries) (r : Run)
    → Aside r (accept_cut py now name event state r)
unfolding accept_cut
accept_cut-Aside py now name event state r =
    let payload = framework_payload py.lower event state in
    after-Aside (note_kind-Aside (typed_framework_event event payload) payload r)
      (enter_application-Aside py now (public_agent_name (if is_blank name then event else name)) _)
