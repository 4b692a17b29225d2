-- ===== src/Service/Core.antt =====
-- `ZApplyCore` and its calls of the workspace (src/z_apply_core/integrations/service.py,
-- src/z_apply_core/browser_workspace.py). A wait for the gate is over at once.
use z_apply_core.Prelude.{
  ℕ, ◌+◌, ◌-◌, String, Bool, true, false, not, ◌&&◌, ◌||◌, ◌⊎◌, inl, inr, Option, none, some, List,
  [], ◌∷◌, str_eq, zero, suc, if◌then◌else◌,
}
use package.text.Mathlib.Text.{starts_with}
use z_apply_core.Dict.{Dict, get, put, remove, has}
use z_apply_core.Workspace.Gate.{Gate, begin_take, end_take, release}
use z_apply_core.Service.View.{RunStatus, BrowserControlMode, BrowserTabState}
use z_apply_core.Service.Run.{Run, Task, Python}
use z_apply_core.Service.Requests.{
  Error, run_not_found, browser_unavailable, browser_control_conflict, browser_tool_execution_error,
  runtime_error, core_shutting_down, value_error, invalid_run_transition, is_terminal,
}
use z_apply_core.Service.Execute.{is_opened}
use z_apply_core.Service.Methods.{
  StartRunRequest, new_run, queue_run, page_focused, control_taken, control_returned, close_page,
  shut_down,
}

-- `leases` are those of the workspace, with the port of the live view.
pub record Core : Type 0 where
  pub runs : Dict Run
  pub leases : Dict (Option ℕ)
  pub gate : Gate
  pub focused_run_id : Option String
  pub control_run_id : Option String
  pub closing : Bool

-- `_require_run`
abbrev pub on_run : Option Run → (Run → Error ⊎ Core) → Error ⊎ Core
on_run none f = inl run_not_found
on_run (some run) f = f run

abbrev pub is_same : Option String → String → Bool
is_same none id = false
is_same (some other) id = str_eq other id

abbrev pub is_free_for : Option String → String → Bool
is_free_for none id = true
is_free_for (some other) id = str_eq other id

abbrev pub is_absolute : String → Bool
is_absolute url = starts_with url "https://" || starts_with url "http://"

-- `start_run`, on a core that is started.
unfoldable pub start_run :
    Python
    → ℕ
    → String
    → Option String
    → Option String
    → Option String
    → StartRunRequest
    → Core
    → Error ⊎ Core
unfolding has put new_run queue_run
start_run py now id gateway model provider request core =
    if core.closing
    then inl core_shutting_down
    else if not (is_absolute request.job_url)
    then inl value_error
    else if has id core.runs
    then inl invalid_run_transition
    else inr (record core {
      runs = put id (queue_run py now (new_run now id gateway model provider request)) core.runs;
    })

-- `active_run_ids`
unfoldable pub active_run_ids : Dict Run → List String
active_run_ids [] = []
active_run_ids ((id, run) ∷ rest) =
    let ids = active_run_ids rest in if is_terminal run.view.status then ids else id ∷ ids

abbrev pub is_shown : BrowserTabState → Bool
is_shown BrowserTabState.opened = true
is_shown BrowserTabState.pending = true
is_shown _ = false

abbrev pub focused : Python → ℕ → String → Run → Core → Core
focused py now id run core = record core {
  focused_run_id = some id;
  runs = put id (page_focused py now run) core.runs;
}

-- `focus_run`
unfoldable pub focus_run : Python → ℕ → String → Core → Error ⊎ Core
unfolding get put has
focus_run py now id core = on_run (get id core.runs) (λ run.
    if not (is_shown run.view.browser_tab_state)
    then inl browser_unavailable
    else if is_opened run.view.browser_tab_state && not (has id core.leases)
    then inl browser_tool_execution_error
    else inr (focused py now id run core))

abbrev pub take_gate : Python → ℕ → String → Run → Core → Option Gate → Error ⊎ Core
take_gate py now id run core none = inl browser_control_conflict
take_gate py now id run core (some g) = inr (record core {
  gate = end_take g;
  focused_run_id = some id;
  control_run_id = some id;
  runs = put id (control_taken py now run) core.runs;
})

-- `take_browser_control`
unfoldable pub take_browser_control : Python → ℕ → String → Core → Error ⊎ Core
unfolding get put has begin_take control_taken
take_browser_control py now id core = on_run (get id core.runs) (λ run.
    if not (is_opened run.view.browser_tab_state)
    then inl browser_unavailable
    else if not (is_free_for core.control_run_id id)
    then inl browser_control_conflict
    else if not (has id core.leases)
    then inl browser_tool_execution_error
    else take_gate py now id run core (begin_take core.gate))

abbrev pub return_gate : Python → ℕ → String → String → Run → Core → Option Gate → Error ⊎ Core
return_gate py now id evidence run core none = inl runtime_error
return_gate py now id evidence run core (some g) = inr (record core {
  gate = g;
  focused_run_id = some id;
  control_run_id = none;
  runs = put id (control_returned py now evidence run) core.runs;
})

-- `return_browser_control`, when the page gives its evidence.
unfoldable pub return_browser_control : Python → ℕ → String → String → Core → Error ⊎ Core
unfolding get put has release control_returned
return_browser_control py now id evidence core = on_run (get id core.runs) (λ run.
    if not (is_same core.control_run_id id)
    then inl browser_control_conflict
    else if not (has id core.leases)
    then inl browser_tool_execution_error
    else return_gate py now id evidence run core (release core.gate))

abbrev pub closed_page : String → Core → Error ⊎ Run → Error ⊎ Core
closed_page id core (inl e) = inl e
closed_page id core (inr run) =
    inr (record core { leases = remove id core.leases; runs = put id run core.runs })

-- `close_run_browser`
unfoldable pub close_run_browser : Python → ℕ → String → Core → Error ⊎ Core
unfolding get put remove close_page
close_run_browser py now id core =
    on_run (get id core.runs) (λ run. closed_page id core (close_page py now run))

pub record CoreLiveView : Type 0 where
  pub vnc_port : Option ℕ
  pub control_mode : BrowserControlMode
  pub focused_run_id : Option String

abbrev mode_of : Option String → BrowserControlMode
mode_of none = BrowserControlMode.agent_control
mode_of (some id) = BrowserControlMode.human_control

abbrev port_of : Option (Option ℕ) → Option ℕ
port_of none = none
port_of (some port) = port

abbrev lease_of : Option String → Dict (Option ℕ) → Option (Option ℕ)
lease_of none leases = none
lease_of (some id) leases = get id leases

abbrev view_of : Core → Option ℕ → CoreLiveView
view_of core none = record {
  vnc_port = none;
  control_mode = BrowserControlMode.agent_control;
  focused_run_id = core.focused_run_id;
}
view_of core (some port) = record {
  vnc_port = some port;
  control_mode = mode_of core.control_run_id;
  focused_run_id = core.focused_run_id;
}

-- `live_view`; it is available if it has a port.
unfoldable pub live_view : Core → CoreLiveView
unfolding get
live_view core = view_of core (port_of (lease_of core.focused_run_id core.leases))

unfoldable pub shut_all : Python → ℕ → Dict Run → Dict Run
unfolding shut_down
shut_all py now [] = []
shut_all py now ((id, run) ∷ rest) = (id, shut_down py now run) ∷ shut_all py now rest

abbrev is_empty : List String → Bool
is_empty [] = true
is_empty _ = false

-- `shutdown_browser_workspace`
unfoldable pub shutdown_browser_workspace : Python → ℕ → Bool → Core → Error ⊎ Core
unfolding active_run_ids shut_all
shutdown_browser_workspace py now force core =
    if not (is_empty (active_run_ids core.runs)) && not force
    then inl invalid_run_transition
    else inr (record core { leases = []; runs = shut_all py now core.runs })

-- A round of `_schedule`: how many runs execute, and the tasks that it makes.
abbrev pub is_executing : Task → Bool
is_executing Task.no_task = false
is_executing Task.ended = false
is_executing _ = true

abbrev pub is_queued : RunStatus → Bool
is_queued RunStatus.queued = true
is_queued _ = false

unfoldable pub count_executing : Dict Run → ℕ
count_executing [] = 0
count_executing ((id, run) ∷ rest) =
    let count = count_executing rest in if is_executing run.task then count + 1 else count

unfoldable pub make_tasks : ℕ → Dict Run → Dict Run
make_tasks n [] = []
make_tasks zero (entry' ∷ rest) = entry' ∷ rest
make_tasks (suc n) ((id, run) ∷ rest) =
    let fewer = make_tasks n rest in
    let same = make_tasks (suc n) rest in
    if is_queued run.view.status
    then (id, record run { task = Task.created }) ∷ fewer
    else (id, run) ∷ same

unfoldable pub schedule_round : ℕ → Core → Core
unfolding count_executing make_tasks
schedule_round max_active_runs core = record core {
  runs = make_tasks (max_active_runs - count_executing core.runs) core.runs;
}
