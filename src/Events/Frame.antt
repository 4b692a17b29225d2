-- ===== src/Events/Frame.antt =====
-- `_DeltaFrame` and the functions on it (src/z_apply_core/integrations/events.py). Times are in
-- milliseconds.
use z_apply_core.Prelude.{
  ℕ, ◌+◌, ◌*◌, String, Bool, true, false, ◌&&◌, ◌||◌, not, Option, none, some, List, [], ◌∷◌, ◌++◌,
  str_eq, ◌==◌, leb, is_blank, if◌then◌else◌,
}
use Prim.Native.String
use z_apply_core.Dict
use z_apply_core.Dict.{Dict}
use z_apply_core.Events.Event.{Value, null, text, num, texts, opaque, CoreEvent}

abbrev pub max_deltas_per_frame : ℕ
max_deltas_per_frame = 64

abbrev pub max_frame_bytes : ℕ
max_frame_bytes = 32 * 1024

abbrev pub frame_flush_ms : ℕ
frame_flush_ms = 60

-- The last parts of a merge key.
pub data Channel : Type 0 where
  message : String → Channel
  tool : ℕ → Channel

pub record MergeKey : Type 0 where
  pub run_id : String
  pub agent : Option String
  pub channel : Channel

pub record DeltaFrame : Type 0 where
  pub run_id : String
  pub source : Dict String
  pub level : String
  pub event_type : String
  pub merge_key : MergeKey
  pub sequence : ℕ
  pub occurred_at : ℕ
  pub base : Dict Value
  pub deltas : List String
  pub count : ℕ
  pub bytes : ℕ
  pub started : ℕ

-- `payload.get(key)`; a missing key is None.
unfoldable pub read : String → Dict Value → Value
unfolding Dict.get
read key d = elim (Dict.get key d) [ none ↦ null | some v ↦ v ]

unfoldable pub is_truthy : Value → Bool
is_truthy null = false
is_truthy (text s) = not (is_blank s)
is_truthy (num n) = not (n == 0)
is_truthy (texts []) = false
is_truthy (texts (t ∷ ts)) = true
is_truthy (opaque truth s) = truth

-- `str(value)`, with what Python's `str` makes of integers and lists.
unfoldable pub shown : (Value → String) → Value → String
shown str (text s) = s
shown str (opaque truth s) = s
shown str v = str v

-- `str(value or default)`
unfoldable pub text_or : (Value → String) → String → Value → String
unfolding is_truthy shown
text_or str default v = if is_truthy v then shown str v else default

unfoldable pub message_frame : (Value → String) → ℕ → CoreEvent → Value → Option DeltaFrame
unfolding read text_or
message_frame str now e (text delta) =
    let kind = text_or str "text" (read "kind" e.payload) in
    some (record {
      run_id = e.run_id;
      source = e.source;
      level = e.level;
      event_type = e.kind;
      merge_key = record {
        run_id = e.run_id;
        agent = Dict.get "agent" e.source;
        channel = message kind;
      };
      sequence = e.sequence;
      occurred_at = e.occurred_at;
      base =
          ("kind", text kind)
          ∷ ("message_id", read "message_id" e.payload)
          ∷ ("turn_index", read "turn_index" e.payload)
          ∷ [];
      deltas = delta ∷ [];
      count = 1;
      bytes = String.count delta + 32;
      started = now;
    })
message_frame str now e _ = none

-- The index is a natural number, as a model's tool calls are numbered; the source takes any int here, negative
-- ones and the two booleans too.
unfoldable pub tool_frame : (Value → String) → ℕ → CoreEvent → Value → Value → Option DeltaFrame
unfolding read text_or
tool_frame str now e (num index) (text args) = some (record {
  run_id = e.run_id;
  source = e.source;
  level = e.level;
  event_type = e.kind;
  merge_key = record { run_id = e.run_id; agent = Dict.get "agent" e.source; channel = tool index };
  sequence = e.sequence;
  occurred_at = e.occurred_at;
  base =
      ("index", num index)
      ∷ ("id", text (text_or str "" (read "id" e.payload)))
      ∷ ("name", text (text_or str "" (read "name" e.payload)))
      ∷ [];
  deltas = args ∷ [];
  count = 1;
  bytes = String.count args + 32;
  started = now;
})
tool_frame str now e _ _ = none

-- `_frame_from_event`, at a time, with Python's `str`.
unfoldable pub frame_from_event : (Value → String) → ℕ → CoreEvent → Option DeltaFrame
unfolding message_frame tool_frame
frame_from_event str now e =
    if str_eq e.kind "agent.message.delta"
    then message_frame str now e (read "delta" e.payload)
    else if str_eq e.kind "model.tool_call.delta"
    then tool_frame str now e (read "index" e.payload) (read "args" e.payload)
    else none

unfoldable pub append_text : DeltaFrame → CoreEvent → Value → DeltaFrame
append_text f e (text delta) = record f {
  deltas = f.deltas ++ (delta ∷ []);
  bytes = f.bytes + String.count delta + 8;
  count = f.count + 1;
  sequence = e.sequence;
  occurred_at = e.occurred_at;
}
append_text f e _ = f

-- `_frame_append`
unfoldable pub frame_append : DeltaFrame → CoreEvent → DeltaFrame
unfolding append_text read
frame_append f e = append_text f e (
    if str_eq f.event_type "agent.message.delta"
    then read "delta" e.payload
    else read "args" e.payload)

-- `_frame_full`
unfoldable pub frame_full : DeltaFrame → Bool
frame_full f = leb max_deltas_per_frame f.count || leb max_frame_bytes f.bytes

-- `_flush_frame`
unfoldable pub flush_frame : DeltaFrame → CoreEvent
flush_frame f = record {
  run_id = f.run_id;
  sequence = f.sequence;
  occurred_at = f.occurred_at;
  kind = f.event_type;
  source = f.source;
  level = f.level;
  payload =
      Dict.put (if str_eq f.event_type "agent.message.delta" then "deltas" else "args_deltas")
        (texts f.deltas) f.base;
}

abbrev pub same_agent : Option String → Option String → Bool
same_agent none none = true
same_agent (some a) (some b) = str_eq a b
same_agent _ _ = false

abbrev pub same_channel : Channel → Channel → Bool
same_channel (message a) (message b) = str_eq a b
same_channel (tool i) (tool j) = i == j
same_channel _ _ = false

-- Equality of merge keys.
unfoldable pub same_key : MergeKey → MergeKey → Bool
same_key k l =
    str_eq k.run_id l.run_id && same_agent k.agent l.agent && same_channel k.channel l.channel
