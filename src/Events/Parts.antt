-- ===== src/Events/Parts.antt =====
-- What the stream of one observer carries (src/z_apply_core/integrations/events.py): the events and the
-- deltas in it, in order, whether or not the deltas are merged into frames.
use z_apply_core.Prelude.{
  ℕ, ◌+◌, ◌≡◌, refl, ap, ◌∙◌, String, Bool, true, false, ◌&&◌, Option, none, some, is_some, List,
  [], ◌∷◌, ◌++◌, length, arith, str_eq, eq_iff, ==→eq, if◌then◌else◌, Bool-cases, inl, inr,
  from_some,
}
use z_apply_core.Events.Event.{Value, null, text, num, texts, opaque, CoreEvent, is_coalescible}
use z_apply_core.Events.Frame.{
  DeltaFrame, MergeKey, Channel, message, tool, frame_from_event, message_frame, tool_frame,
  frame_append, append_text, read, same_key, same_agent, same_channel,
}
use z_apply_core.Events.Coalesce.{Emission, batch, single, keepalive, Arrival, event, timeout}

pub data Part : Type 0 where
  delta : MergeKey → String → Part
  whole : CoreEvent → Part

unfoldable pub delta_parts : MergeKey → List String → List Part
delta_parts k [] = []
delta_parts k (t ∷ ts) = delta k t ∷ delta_parts k ts

unfoldable pub frame_parts : Option DeltaFrame → List Part
unfolding delta_parts
frame_parts none = []
frame_parts (some f) = delta_parts f.merge_key f.deltas

unfoldable pub emission_parts : Emission → List Part
unfolding delta_parts
emission_parts (batch f) = delta_parts f.merge_key f.deltas
emission_parts (single e) = whole e ∷ []
emission_parts keepalive = []

unfoldable pub all_parts : List Emission → List Part
unfolding emission_parts
all_parts [] = []
all_parts (x ∷ xs) = emission_parts x ++ all_parts xs

-- The parts of an event: its delta, if it is to be merged.
unfoldable pub event_parts : Bool → CoreEvent → Option DeltaFrame → List Part
unfolding frame_parts
event_parts true e (some c) = frame_parts (some c)
event_parts _ e _ = whole e ∷ []

unfoldable pub arrival_parts : (Value → String) → Bool → Arrival → List Part
unfolding event_parts
arrival_parts str coalesce (event now e) =
    event_parts (coalesce && is_coalescible e) e (frame_from_event str now e)
arrival_parts str coalesce (timeout now) = []

unfoldable pub input_parts : (Value → String) → Bool → List Arrival → List Part
unfolding arrival_parts
input_parts str coalesce [] = []
input_parts str coalesce (a ∷ as') = arrival_parts str coalesce a ++ input_parts str coalesce as'

-- A delta event that a frame can take.
abbrev pub IsMergeable : (Value → String) → Arrival → Type 0
IsMergeable str (event now e) =
    is_coalescible e ≡ true → is_some (frame_from_event str now e) ≡ true
IsMergeable str (timeout now) = Unit

pub delta_parts-append :
    (k : MergeKey) (xs ys : List String)
    → delta_parts k (xs ++ ys) ≡ delta_parts k xs ++ delta_parts k ys
unfolding delta_parts
delta_parts-append k [] ys = refl
delta_parts-append k (x ∷ xs) ys = ap (λ ps. delta k x ∷ ps) (delta_parts-append k xs ys)

same_agent→eq : (a b : Option String) → same_agent a b ≡ true → a ≡ b
same_agent→eq none none h = refl
same_agent→eq none (some b) h = ground arith
same_agent→eq (some a) none h = ground arith
same_agent→eq (some a) (some b) h = ap some ((eq_iff a b).0 h)

same_channel→eq : (a b : Channel) → same_channel a b ≡ true → a ≡ b
same_channel→eq (message a) (message b) h = ap message ((eq_iff a b).0 h)
same_channel→eq (message a) (tool j) h = ground arith
same_channel→eq (tool i) (message b) h = ground arith
same_channel→eq (tool i) (tool j) h = ap tool (==→eq i j h)

pub both : (a b : Bool) → a && b ≡ true → (a ≡ true) × (b ≡ true)
both true b h = (refl, h)
both false b h = ground arith

pub same_key→eq : (k l : MergeKey) → same_key k l ≡ true → k ≡ l
unfolding same_key
same_key→eq k l h =
    let first = str_eq k.run_id l.run_id in
    let second = same_agent k.agent l.agent in
    let third = same_channel k.channel l.channel in
    let (rest, channel) = both (first && second) third h in
    let (run, agent) = both first second rest in
    λ i. record {
      run_id = (eq_iff k.run_id l.run_id).0 run i;
      agent = same_agent→eq k.agent l.agent agent i;
      channel = same_channel→eq k.channel l.channel channel i;
    }

-- The event type that goes with a channel.
unfoldable pub type_of : Channel → String
type_of (message kind) = "agent.message.delta"
type_of (tool i) = "model.tool_call.delta"

-- What `_frame_from_event` makes of an event: its one delta is what `_frame_append` would take.
pub record IsCandidate (e : CoreEvent) (c : DeltaFrame) : Type 0 where
  pub typed : c.event_type ≡ type_of c.merge_key.channel
  pub one : c.count ≡ 1
  pub fresh : length c.deltas ≡ 1
  pub taken :
      (f : DeltaFrame)
      → f.merge_key ≡ c.merge_key
      → f.event_type ≡ type_of f.merge_key.channel
      → ((frame_append f e).deltas ≡ f.deltas ++ c.deltas)
        × ((frame_append f e).count ≡ f.count + 1)
        × ((frame_append f e).merge_key ≡ f.merge_key)
        × ((frame_append f e).event_type ≡ f.event_type)

abbrev delta_type : String
delta_type = "agent.message.delta"

if_message :
    (s : String) (v w : Value) → s ≡ delta_type → (if str_eq s delta_type then v else w) ≡ v
if_message s v w h = rw h refl

if_tool :
    (s : String) (v w : Value)
    → s ≡ "model.tool_call.delta"
    → (if str_eq s delta_type then v else w) ≡ w
if_tool s v w h = rw h refl

-- `append_text` on a text.
append_text-taken :
    (f : DeltaFrame) (e : CoreEvent) (v : Value) (d : String)
    → v ≡ text d
    → ((append_text f e v).deltas ≡ f.deltas ++ (d ∷ []))
      × ((append_text f e v).count ≡ f.count + 1)
      × ((append_text f e v).merge_key ≡ f.merge_key)
      × ((append_text f e v).event_type ≡ f.event_type)
unfolding append_text
append_text-taken f e v d h = rw h (refl, refl, refl, refl)

message_frame-IsCandidate :
    (str : Value → String) (now : ℕ) (e : CoreEvent) (c : DeltaFrame) (v : Value)
    → e.kind ≡ "agent.message.delta"
    → read "delta" e.payload ≡ v
    → message_frame str now e v ≡ some c
    → IsCandidate e c
unfolding message_frame frame_append type_of
message_frame-IsCandidate str now e c (text d) kind found h = rw (← from_some _ c h) (record {
  typed = kind;
  one = refl;
  fresh = refl;
  taken = λ f same typed.
      append_text-taken f e _ d
        (if_message f.event_type _ _ (typed ∙ ap (λ k. type_of k.channel) same) ∙ found);
})
message_frame-IsCandidate str now e c null kind found h = ground arith
message_frame-IsCandidate str now e c (num n) kind found h = ground arith
message_frame-IsCandidate str now e c (texts l) kind found h = ground arith
message_frame-IsCandidate str now e c (opaque t s) kind found h = ground arith

tool_frame-IsCandidate :
    (str : Value → String) (now : ℕ) (e : CoreEvent) (c : DeltaFrame) (i v : Value)
    → e.kind ≡ "model.tool_call.delta"
    → read "args" e.payload ≡ v
    → tool_frame str now e i v ≡ some c
    → IsCandidate e c
unfolding tool_frame frame_append type_of
tool_frame-IsCandidate str now e c (num i) (text d) kind found h = rw (← from_some _ c h) (record {
  typed = kind;
  one = refl;
  fresh = refl;
  taken = λ f same typed.
      append_text-taken f e _ d
        (if_tool f.event_type _ _ (typed ∙ ap (λ k. type_of k.channel) same) ∙ found);
})
tool_frame-IsCandidate str now e c i v kind found h = ground arith

no_frame : {e : CoreEvent} (c : DeltaFrame) → none ≡ some c → IsCandidate e c
no_frame c h = ground arith

pub frame_from_event-IsCandidate :
    (str : Value → String) (now : ℕ) (e : CoreEvent) (c : DeltaFrame)
    → frame_from_event str now e ≡ some c
    → IsCandidate e c
unfolding frame_from_event
frame_from_event-IsCandidate str now e c h =
    elim (Bool-cases (str_eq e.kind "agent.message.delta")) [
      | inl is_message ↦
          message_frame-IsCandidate str now e c _ ((eq_iff _ _).0 is_message) refl
            (rw is_message at h)
      | inr other ↦ elim (Bool-cases (str_eq e.kind "model.tool_call.delta")) [
        | inl is_tool ↦
            tool_frame-IsCandidate str now e c _ _ ((eq_iff _ _).0 is_tool) refl
              (rw (other, is_tool) at h)
        | inr neither ↦ no_frame c (rw (other, neither) at h)
      ]
    ]
