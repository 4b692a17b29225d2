-- ===== src/Service/Checks.antt =====
-- What the methods that may refuse keep (src/z_apply_core/integrations/service.py).
use z_apply_core.Prelude.{
  ℕ, String, refl, Bool, not, inl, inr, Option, is_blank, is_some, leb, length, mem_str, strip,
  Bool-cases,
}
use Prim.Native.String.{count}
use z_apply_core.Payload.Json.{Entries, no_entries}
use z_apply_core.Service.View.{RunOutcome}
use z_apply_core.Service.Run.{Run, Python, make_event, core_source, emit}
use z_apply_core.Service.Requests.{is_terminal}
use z_apply_core.Service.Methods.{
  close_page, send_context, switch_model, set_reasoning, cancel, has_task, is_effort, max_pending,
  reasoning_modes,
}
use z_apply_core.Service.Leaves.{Leaves, raises, leaves, guarded}
use z_apply_core.Service.Sound.{IsSound, sent_one, emit-IsSound}
use z_apply_core.Service.Endings.{terminal-IsSound}

pub close_page-IsSound :
    {cut : Bool} (py : Python) (now : ℕ) (r : Run)
    → IsSound cut r
    → Leaves (IsSound cut) (close_page py now r)
unfolding close_page emit make_event
close_page-IsSound py now r k = elim (Bool-cases (is_terminal r.view.status)) [
  | inl over ↦ rw over (leaves (sent_one r _ _ k refl refl refl refl refl refl refl))
  | inr open' ↦ rw open' raises
]

pub send_context-IsSound :
    {cut : Bool} (py : Python) (now : ℕ) (content source : String) (r : Run)
    → IsSound cut r
    → Leaves (IsSound cut) (send_context py now content source r)
unfolding send_context emit make_event
send_context-IsSound py now content source r k = guarded (is_terminal r.view.status) _ _ (
    guarded (is_blank (strip content)) _ _ (
      guarded (not (leb (count (strip content)) 8000)) _ _ (
        guarded (leb max_pending (length r.context_inbox)) _ _
          (leaves (sent_one r _ _ k refl refl refl refl refl refl refl)))))

pub switch_model-IsSound :
    {cut : Bool} (py : Python) (now : ℕ) (gateway provider model : String) (r : Run)
    → IsSound cut r
    → Leaves (IsSound cut) (switch_model py now gateway provider model r)
unfolding switch_model emit make_event
switch_model-IsSound py now gateway provider model r k =
    guarded (is_terminal r.view.status) _ _
      (leaves (sent_one r _ _ k refl refl refl refl refl refl refl))

pub set_reasoning-IsSound :
    {cut : Bool} (py : Python) (now : ℕ) (reasoning : String) (effort : Option String) (r : Run)
    → IsSound cut r
    → Leaves (IsSound cut) (set_reasoning py now reasoning effort r)
unfolding set_reasoning emit make_event
set_reasoning-IsSound py now reasoning effort r k = guarded (is_terminal r.view.status) _ _ (
    guarded (not (mem_str reasoning reasoning_modes)) _ _ (
      guarded (not (is_effort effort)) _ _ (
        guarded (not (is_some r.provider)) _ _
          (leaves (sent_one r _ _ k refl refl refl refl refl refl refl)))))

pub cancel-IsSound :
    {cut : Bool} (py : Python) (now : ℕ) (ledger : Option Entries) (r : Run)
    → IsSound cut r
    → Leaves (IsSound cut) (cancel py now ledger r)
unfolding cancel
cancel-IsSound py now ledger r k =
    let asked = emit-IsSound py now "run.cancel_requested" no_entries core_source "info" r k in
    guarded (is_terminal r.view.status) _ _ (elim (Bool-cases (has_task r.task)) [
      | inl started ↦ rw started (leaves asked)
      | inr fresh ↦
          rw fresh
            (leaves (terminal-IsSound py now RunOutcome.cancelled _ no_entries ledger _ refl asked))
    ])
