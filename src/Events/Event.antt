-- ===== src/Events/Event.antt =====
-- `CoreEvent` (src/z_apply_core/integrations/models.py) as src/z_apply_core/integrations/events.py uses it.
use z_apply_core.Prelude.{ℕ, String, Bool, List, [], ◌∷◌, mem_str}
use z_apply_core.Dict.{Dict}

-- The values that a payload is read for; an integer is not negative. Any other value is `opaque`, with
-- its truth value and what `str` makes of it.
pub data Value : Type 0 where
  null : Value
  text : String → Value
  num : ℕ → Value
  texts : List String → Value
  opaque : Bool → String → Value

pub record CoreEvent : Type 0 where
  pub run_id : String
  pub sequence : ℕ
  pub occurred_at : ℕ
  pub kind : String
  pub source : Dict String
  pub level : String
  pub payload : Dict Value

-- `_COALESCIBLE_EVENTS`
abbrev pub coalescible_events : List String
coalescible_events = "agent.message.delta" ∷ "model.tool_call.delta" ∷ []

unfoldable pub is_coalescible : CoreEvent → Bool
unfolding mem_str
is_coalescible e = mem_str e.kind coalescible_events
