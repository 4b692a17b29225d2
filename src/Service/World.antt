-- ===== src/Service/World.antt =====
-- What may happen to the core: its clients, its runs and their agents (src/z_apply_core/integrations/service.py).
use z_apply_core.Prelude.{ℕ, String, ◌≡◌, true, Option, some, inr}
use z_apply_core.Dict.{get, put, remove}
use z_apply_core.Workspace.Gate.{can_enter, enter, leave}
use z_apply_core.Service.Run.{Run, Task, Python}
use z_apply_core.Service.Execute.{page_opened}
use z_apply_core.Service.Methods.{StartRunRequest}
use z_apply_core.Service.Steps.{RunStep}
use z_apply_core.Service.Core.{
  Core, start_run, focus_run, take_browser_control, return_browser_control, close_run_browser,
}

abbrev pub with_run : String → Run → Core → Core
with_run id r c = record c { runs = put id r c.runs }

-- `goes_on` is any step of a run. `opens_run` needs a mutation of the gate. `closes_run` is `close_run` of the
-- workspace. `enters` and `leaves` are the mutations of the agents.
pub data Step (py : Python) (c : Core) : Core → Type 0 where
  starts_run :
      (now : ℕ) (id : String) (gateway model provider : Option String) (request : StartRunRequest)
      (d : Core)
      → start_run py now id gateway model provider request c ≡ inr d
      → Step py c d
  goes_on :
      (id : String) (r s : Run)
      → get id c.runs ≡ some r
      → RunStep py r s
      → Step py c (with_run id s c)
  opens_run :
      (now task : ℕ) (id : String) (r : Run) (port : Option ℕ)
      → get id c.runs ≡ some r
      → r.task ≡ Task.opening
      → can_enter task c.gate ≡ true
      → Step py c (record c {
        leases = put id port c.leases;
        focused_run_id = some id;
        runs = put id (page_opened py now r) c.runs;
      })
  closes_run : (id : String) → Step py c (record c { leases = remove id c.leases })
  focuses_run : (now : ℕ) (id : String) (d : Core) → focus_run py now id c ≡ inr d → Step py c d
  takes_control :
      (now : ℕ) (id : String) (d : Core) → take_browser_control py now id c ≡ inr d → Step py c d
  returns_control :
      (now : ℕ) (id evidence : String) (d : Core)
      → return_browser_control py now id evidence c ≡ inr d
      → Step py c d
  closes_browser :
      (now : ℕ) (id : String) (d : Core) → close_run_browser py now id c ≡ inr d → Step py c d
  enters_gate :
      (task : ℕ) → can_enter task c.gate ≡ true → Step py c (record c { gate = enter task c.gate })
  leaves_gate : Step py c (record c { gate = leave c.gate })
  shuts_core : Step py c (record c { closing = true })
