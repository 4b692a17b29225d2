-- ===== src/Serializer/Batch.antt =====
-- `SerializeBrowserMutationsMiddleware` (src/z_apply_core/agents/browser_mutation_serializer.py). Tool calls
-- of a response run concurrently: a call that passed the check waits for the lock in `queue`; the
-- lock goes to waiters in their order. `executed` and `skipped` tell which calls were made.
use z_apply_core.Prelude.{
  String, Bool, false, ◌&&◌, ◌||◌, not, Option, none, some, List, [], ◌∷◌, ◌++◌, mem_str,
  if◌then◌else◌,
}
use z_apply_core.Guard.Call.{ToolCall, browser_changing_tool_names}

pub record Serializer : Type 0 where
  pub batch_mutation_ids : List String
  pub batch_failed : Bool
  pub running : Option ToolCall
  pub queue : List ToolCall
  pub executed : List String
  pub skipped : List String

unfoldable pub is_mutation : ToolCall → Bool
unfolding mem_str
is_mutation c = mem_str c.name browser_changing_tool_names

unfoldable pub mutation_ids : List ToolCall → List String
unfolding is_mutation
mutation_ids [] = []
mutation_ids (c ∷ cs) = let rest = mutation_ids cs in if is_mutation c then c.id ∷ rest else rest

-- `awrap_model_call` before the model answers, and after it, with the calls of the answer.
unfoldable pub begin_response : Serializer → Serializer
begin_response s = record s { batch_mutation_ids = []; batch_failed = false }

unfoldable pub end_response : List ToolCall → Serializer → Serializer
unfolding mutation_ids
end_response cs s = record s { batch_mutation_ids = mutation_ids cs }

-- The lock goes to a waiter if it is free; the tool is called.
unfoldable pub grant : Option ToolCall → List ToolCall → Serializer → Serializer
grant none (c ∷ q) s = record s {
  running = some c;
  queue = q;
  executed = s.executed ++ (c.id ∷ []);
}
grant holder q s = record s { running = holder; queue = q }

unfoldable pub execute : ToolCall → Serializer → Serializer
execute c s = record s { executed = s.executed ++ (c.id ∷ []) }

unfoldable pub skip : ToolCall → Serializer → Serializer
skip c s = record s { skipped = s.skipped ++ (c.id ∷ []) }

-- `awrap_tool_call` up to the place where it waits for the lock, or for the tool.
unfoldable pub start_call : ToolCall → Serializer → Serializer
unfolding is_mutation grant execute skip
start_call c s =
    if not (is_mutation c)
    then execute c s
    else if mem_str c.id s.batch_mutation_ids && s.batch_failed
    then skip c s
    else grant s.running (s.queue ++ (c ∷ [])) s

unfoldable pub after_call : Bool → Option ToolCall → Serializer → Serializer
unfolding grant
after_call error none s = s
after_call error (some c) s =
    grant none s.queue
      (record s { batch_failed = s.batch_failed || (mem_str c.id s.batch_mutation_ids && error) })

-- `awrap_tool_call` when the tool that holds the lock gives its result, with whether its status is
-- "error". The next waiter has the lock.
unfoldable pub finish_call : Bool → Serializer → Serializer
unfolding after_call
finish_call error s = after_call error s.running s

pub data Event : Type 0 where
  starts : ToolCall → Event
  finishes : Bool → Event

unfoldable pub run : List Event → Serializer → Serializer
unfolding start_call finish_call
run [] s = s
run (starts c ∷ es) s = run es (start_call c s)
run (finishes error ∷ es) s = run es (finish_call error s)
