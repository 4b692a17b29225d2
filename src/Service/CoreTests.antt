-- ===== src/Service/CoreTests.antt =====
-- Cores with runs (src/z_apply_core/integrations/service.py), and the theorems at them.
use z_apply_core.Prelude.{sym, ◌≤◌, ◌+◌, min, arith, ◌≡◌, refl, true, false, none, some, [], ◌∷◌}
use z_apply_core.Star.{Star, here, next}
use z_apply_core.Dict.{get, put, remove, has}
use z_apply_core.Payload.Json.{no_entries}
use z_apply_core.Workspace.Gate.{Gate, open_gate, end_take, begin_take, can_enter}
use z_apply_core.Service.View.{RunOutcome}
use z_apply_core.Service.Run.{Run, Task, emit}
use z_apply_core.Service.Execute.{begin_run, page_opened, begin_job, enter_running, terminal}
use z_apply_core.Service.Methods.{new_run, queue_run, control_taken}
use z_apply_core.Service.Steps.{set_task, schedules, begins, announced, starts, cancelled}
use z_apply_core.Service.Core.{
  count_executing, schedule_round, Core, start_run, take_browser_control, return_browser_control,
}
use z_apply_core.Service.Rounds.{count_queued, IsFresh, schedule_round_fills}
use z_apply_core.Service.World.{Step, starts_run, goes_on, opens_run, takes_control, closes_run}
use z_apply_core.Service.Leaves.{Fails}
use z_apply_core.Service.Lost.{control_lost_for_ever}
use z_apply_core.Workspace.Exclusion.{true-false}
use z_apply_core.Service.Tests.{python, wanted, first, announcing, working, held}

-- A person takes control, and the run is cancelled.
abbrev empty : Core
empty = record {
  runs = [];
  leases = [];
  gate = open_gate;
  focused_run_id = none;
  control_run_id = none;
  closing = false;
}

abbrev held_gate : Gate
held_gate = end_take (record open_gate { takeover_pending = true })

abbrev gone : Run
gone =
    set_task Task.ended
      (terminal python 7 RunOutcome.cancelled "Run cancelled." no_entries none held)

abbrev core_of : Run → Core
core_of r = record empty { runs = ("r1", r) ∷ [] }

abbrev up : Run → Core
up r = record empty {
  runs = ("r1", r) ∷ [];
  leases = ("r1", some 5900) ∷ [];
  focused_run_id = some "r1";
}

abbrev taken : Run → Core
taken r = record (up r) { gate = held_gate; control_run_id = some "r1" }

abbrev lost_core : Core
lost_core = record (taken gone) { leases = [] }

abbrev queued : Run
queued = queue_run python 2 first

abbrev opening : Run
opening = set_task Task.opening announcing

to_up : Star (Step python) empty (up working)
unfolding start_run new_run queue_run begin_run page_opened emit get put has can_enter
to_up =
    let s1 = next here (starts_run 2 "r1" (some "router") none none wanted (core_of queued) refl) in
    let s2 =
      next s1 (goes_on "r1" queued (set_task Task.created queued) refl (schedules refl refl)) in
    let s3 =
      next s2 (goes_on "r1" (set_task Task.created queued) announcing refl (begins 3 refl)) in
    let s4 = next s3 (goes_on "r1" announcing opening refl (announced refl)) in
    let s5 = next s4 (opens_run 4 1 "r1" opening (some 5900) refl refl refl) in
    next s5 (goes_on "r1" (page_opened python 4 opening) working refl (starts 5 "router" refl))

to_lost : Star (Step python) empty lost_core
unfolding take_browser_control begin_take get put has remove begin_job begin_run page_opened
    enter_running control_taken emit terminal
to_lost =
    next
      (next (next to_up (takes_control 6 "r1" (taken held) refl))
        (goes_on "r1" held gone refl (cancelled 7 none refl)))
      (closes_run "r1")

control_lost_for_ever_example :
    (can_enter 1 lost_core.gate ≡ false)
    × Fails (take_browser_control python 8 "r2" lost_core)
    × Fails (return_browser_control python 8 "r2" "" lost_core)
unfolding get remove terminal emit begin_job page_opened begin_run control_taken end_take
control_lost_for_ever_example =
    control_lost_for_ever python 8 1 "r1" "r2" "" gone lost_core lost_core refl refl refl refl refl
      refl refl here

-- One run works, and two are queued.
abbrev busy : Core
busy = record empty { runs = ("r1", working) ∷ ("r2", queued) ∷ ("r3", queued) ∷ [] }

busy-IsFresh : IsFresh busy.runs
unfolding begin_job enter_running queue_run new_run emit
busy-IsFresh = ((λ w. absurd (true-false (sym w))), ((λ w. refl), ((λ w. refl), tt)))

busy_room : count_executing busy.runs ≤ 2
unfolding count_executing begin_job queue_run new_run emit
busy_room = omega arith

schedule_round_fills_example :
    count_executing (schedule_round 2 busy).runs
    ≡ min 2 (count_executing busy.runs + count_queued busy.runs)
schedule_round_fills_example = schedule_round_fills 2 busy busy-IsFresh busy_room
