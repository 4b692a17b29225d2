-- ===== src/Service/Accepted.antt =====
-- What the sink of a run's graph keeps (src/z_apply_core/integrations/service.py).
use z_apply_core.Prelude.{
  ℕ, arith, ◌||◌, sym, subst, eq_iff, String, ◌≡◌, refl, Bool, true, inl, inr, Option, some, str_eq,
  mem_str, Bool-cases, if◌then◌else◌, is_blank,
}
use z_apply_core.Dict.{put}
use z_apply_core.Payload.Json.{Json, text, Entries, boolean, put_entry}
use z_apply_core.Payload.Sanitize.{framework_payload}
use z_apply_core.Service.Run.{Run, Python, make_event, emit}
use z_apply_core.Service.Typed.{public_agent_name, typed_framework_event}
use z_apply_core.Service.Sink.{
  agent_kinds, enters_application, live_only_events, after_phase, enter_application,
  set_current_agent, note_model, take_model, tool_payload, persist, forward, is_dropped,
  accept_kind, accept, submission_kind, completes, note_kind, accept_cut,
}
use z_apply_core.Service.Sound.{
  seen, saw_submission, IsNumbered, IsSound, either_branch, sent_one, emit_live-IsSound,
}

take_model-IsSound :
    {cut : Bool} (kind agent : String) (v : Option Json) (r : Run)
    → IsSound cut r
    → IsSound cut (take_model kind agent v r)
unfolding take_model
take_model-IsSound {cut} kind agent (some (text model)) r k = record {
  numbered = k.numbered;
  proved = k.proved;
  flagged =
      either_branch (λ s. s.submission_completed ≡ true → seen cut r ≡ true)
        (str_eq kind "model.selected")
        (record r.sink { model_by_agent = put agent model r.sink.model_by_agent }) r.sink k.flagged
        k.flagged;
}
take_model-IsSound kind agent _ r k = k

set_current_agent-IsSound :
    {cut : Bool} (kind agent : String) (r : Run)
    → IsSound cut r
    → IsSound cut (set_current_agent kind agent r)
unfolding set_current_agent
set_current_agent-IsSound kind agent r k = elim (Bool-cases (mem_str kind agent_kinds)) [
  | inl known ↦ rw known (record { numbered = k.numbered; proved = k.proved; flagged = k.flagged })
  | inr other ↦ rw other k
]

enter_application-IsSound :
    {cut : Bool} (py : Python) (now : ℕ) (agent : String) (r : Run)
    → IsSound cut r
    → IsSound cut (enter_application py now agent r)
unfolding enter_application emit make_event
enter_application-IsSound py now agent r k = elim (Bool-cases (enters_application agent r)) [
  | inl enters ↦ rw enters (sent_one r _ _ k refl refl refl refl refl refl refl)
  | inr stays ↦ rw stays k
]

persist-IsSound :
    {cut : Bool} (py : Python) (now : ℕ) (kind agent : String) (payload : Entries) (r : Run)
    → IsSound cut r
    → IsSound cut (persist py now kind agent payload r)
unfolding persist emit make_event
persist-IsSound py now kind agent payload r k = elim (Bool-cases (str_eq kind "model.usage")) [
  | inl usage ↦ rw usage (sent_one r _ _ k refl refl refl refl refl refl refl)
  | inr other ↦ rw other (elim (Bool-cases (str_eq kind "agent.turn.completed")) [
    | inl turn ↦ rw turn (sent_one r _ _ k refl refl refl refl refl refl refl)
    | inr other' ↦ rw other' (sent_one r _ _ k refl refl refl refl refl refl refl)
  ])
]

pub after_phase-IsSound :
    {cut : Bool} (py : Python) (now : ℕ) (kind agent : String) (payload : Entries) (r : Run)
    → IsSound cut r
    → IsSound cut (after_phase py now kind agent payload r)
unfolding note_model
after_phase-IsSound py now kind agent payload r k =
    let noted = note_model kind agent payload (set_current_agent kind agent r) in
    persist-IsSound py now kind agent (tool_payload kind agent noted.sink payload) noted
      (take_model-IsSound kind agent _ _ (set_current_agent-IsSound kind agent _ k))

forward-IsSound :
    {cut : Bool} (py : Python) (now : ℕ) (kind agent : String) (payload : Entries) (r : Run)
    → IsSound cut r
    → IsSound cut (forward py now kind agent payload r)
unfolding forward
forward-IsSound py now kind agent payload r k = elim (Bool-cases (mem_str kind live_only_events)) [
  | inl live ↦ rw live (emit_live-IsSound py now kind payload _ r k)
  | inr kept ↦ rw kept (
      after_phase-IsSound py now kind agent payload (enter_application py now agent r)
        (enter_application-IsSound py now agent r k))
]

-- The report of a submission is passed on.
saw-forward :
    (py : Python) (now : ℕ) (agent : String) (payload : Entries) (r : Run)
    → saw_submission (forward py now submission_kind agent payload r).events ≡ true
unfolding forward persist emit make_event mem_str
saw-forward py now agent payload r = refl

or-true : (a : Bool) → (a || true) ≡ true
or-true a = ground arith

or-right : (a b : Bool) → b ≡ true → (a || b) ≡ true
or-right a b h = ground arith

or-left : (a b : Bool) → a ≡ true → (a || b) ≡ true
or-left a b h = ground arith

-- Whatever the sink remembers of it.
forward_completed-IsSound :
    {cut : Bool} (py : Python) (now : ℕ) (kind agent : String) (payload : Entries) (r : Run)
    → kind ≡ submission_kind
    → IsNumbered r
    → IsSound cut (forward py now kind agent payload r)
forward_completed-IsSound {cut} py now kind agent payload r e n =
    let after =
      forward-IsSound {cut = true} py now kind agent payload r
        (record { numbered = n; proved = λ o. or-true _; flagged = λ o. or-true _ }) in
    let saw = or-left _ cut (
      subst (λ j. saw_submission (forward py now j agent payload r).events ≡ true) (sym e)
        (saw-forward py now agent payload r)) in
    record { numbered = after.numbered; proved = λ o. saw; flagged = λ o. saw }

accept_kind-IsSound :
    {cut : Bool} (py : Python) (now : ℕ) (event agent : String) (payload : Entries) (kind : String)
    (r : Run)
    → IsSound cut r
    → IsSound cut (accept_kind py now event agent payload kind r)
unfolding accept_kind
accept_kind-IsSound py now event agent payload kind r k =
    elim (Bool-cases (str_eq kind submission_kind)) [
      | inl done ↦
          let noted = record r { sink = record r.sink { submission_completed = true } } in
          rw done (
            forward_completed-IsSound py now kind agent payload noted
              ((eq_iff kind submission_kind).0 done) k.numbered)
      | inr other ↦ rw other (elim (Bool-cases (str_eq kind "submission.failed")) [
        | inl failed ↦ rw failed (
            forward-IsSound py now kind agent (put_entry "submission_failed" (boolean true) payload)
              r k)
        | inr other' ↦ rw other' (elim (Bool-cases (str_eq kind "graph.event")) [
          | inl graph ↦
              rw graph (elim (Bool-cases (is_dropped py event payload r.sink.last_graph_payload)) [
                | inl dropped ↦ rw dropped k
                | inr new ↦
                    let kept = record r {
                      sink = record r.sink { last_graph_payload = some payload };
                    } in
                    rw new (
                      forward-IsSound py now kind agent payload kept
                        (record { numbered = k.numbered; proved = k.proved; flagged = k.flagged }))
              ])
          | inr typed ↦ rw typed (forward-IsSound py now kind agent payload r k)
        ])
      ])
    ]

pub accept-IsSound :
    {cut : Bool} (py : Python) (now : ℕ) (name event : String) (state : Entries) (r : Run)
    → IsSound cut r
    → IsSound cut (accept py now name event state r)
unfolding accept
accept-IsSound py now name event state r k =
    let payload = framework_payload py.lower event state in
    accept_kind-IsSound py now event (public_agent_name (if is_blank name then event else name))
      payload (typed_framework_event event payload) r k

note_kind-IsSound :
    {cut : Bool} (kind : String) (payload : Entries) (r : Run)
    → (str_eq kind submission_kind ≡ true → cut ≡ true)
    → IsSound cut r
    → IsSound cut (note_kind kind payload r)
unfolding note_kind
note_kind-IsSound kind payload r told k = elim (Bool-cases (str_eq kind submission_kind)) [
  | inl done ↦
      rw done (record {
        numbered = k.numbered;
        proved = k.proved;
        flagged = λ o. or-right _ _ (told done);
      })
  | inr other ↦ rw other (elim (Bool-cases (str_eq kind "graph.event")) [
    | inl graph ↦
        rw graph (record { numbered = k.numbered; proved = k.proved; flagged = k.flagged })
    | inr typed ↦ rw typed k
  ])
]

pub accept_cut-IsSound :
    {cut : Bool} (py : Python) (now : ℕ) (name event : String) (state : Entries) (r : Run)
    → (completes py event state ≡ true → cut ≡ true)
    → IsSound cut r
    → IsSound cut (accept_cut py now name event state r)
unfolding accept_cut
accept_cut-IsSound py now name event state r told k =
    enter_application-IsSound py now _ _ (note_kind-IsSound _ _ r told k)
