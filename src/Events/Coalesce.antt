-- ===== src/Events/Coalesce.antt =====
-- The iterator of `EventBroadcaster.subscription` (src/z_apply_core/integrations/events.py). A frame that
-- is flushed stands in the output as the frame; `flush_frame` makes the event that goes out.
use z_apply_core.Prelude.{
  ℕ, ◌+◌, Bool, ◌&&◌, Option, none, some, List, [], ◌∷◌, ◌++◌, leb, if◌then◌else◌,
}
use Prim.Native.String.{String}
use z_apply_core.Events.Event.{Value, CoreEvent, is_coalescible}
use z_apply_core.Events.Frame.{
  DeltaFrame, frame_from_event, frame_append, frame_full, flush_frame, same_key, frame_flush_ms,
}

-- What the iterator yields.
pub data Emission : Type 0 where
  batch : DeltaFrame → Emission
  single : CoreEvent → Emission
  keepalive : Emission

-- What is sent to the observer: an event, or None.
unfoldable pub emitted_event : Emission → Option CoreEvent
unfolding flush_frame
emitted_event (batch f) = some (flush_frame f)
emitted_event (single e) = some e
emitted_event keepalive = none

-- `emit_frame`, as what is yielded.
unfoldable pub emit_frame : Option DeltaFrame → List Emission
emit_frame none = []
emit_frame (some f) = batch f ∷ []

abbrev pub merged : DeltaFrame → List Emission × Option DeltaFrame
merged f = if frame_full f then (batch f ∷ [], none) else ([], some f)

unfoldable pub merge_delta :
    CoreEvent → DeltaFrame → Option DeltaFrame → List Emission × Option DeltaFrame
merge_delta e candidate none = ([], some candidate)
merge_delta e candidate (some f) =
    if same_key f.merge_key candidate.merge_key
    then merged (frame_append f e)
    else (batch f ∷ [], some candidate)

-- `flushed if flushed is not None else event`
unfoldable pub emit_or_event : CoreEvent → Option DeltaFrame → List Emission × Option DeltaFrame
emit_or_event e none = (single e ∷ [], none)
emit_or_event e (some f) = (batch f ∷ [], none)

unfoldable pub handle_candidate :
    CoreEvent → Option DeltaFrame → Option DeltaFrame → List Emission × Option DeltaFrame
unfolding merge_delta emit_or_event
handle_candidate e none frame = emit_or_event e frame
handle_candidate e (some candidate) frame = merge_delta e candidate frame

-- `handle_delta`
unfoldable pub handle_delta :
    (Value → String) → ℕ → CoreEvent → Option DeltaFrame → List Emission × Option DeltaFrame
unfolding handle_candidate
handle_delta str now e frame = handle_candidate e (frame_from_event str now e) frame

-- The body of both loops for one event.
unfoldable pub on_event :
    (Value → String) → Bool → ℕ → CoreEvent → Option DeltaFrame → List Emission × Option DeltaFrame
unfolding handle_delta emit_frame
on_event str coalesce now e frame =
    if coalesce && is_coalescible e
    then handle_delta str now e frame
    else (emit_frame frame ++ (single e ∷ []), none)

-- What the wait for the queue ends with, at a time.
pub data Arrival : Type 0 where
  event : ℕ → CoreEvent → Arrival
  timeout : ℕ → Arrival

-- The handler of `TimeoutError`.
unfoldable pub on_timeout : ℕ → Option DeltaFrame → List Emission × Option DeltaFrame
on_timeout now none = (keepalive ∷ [], none)
on_timeout now (some f) =
    if leb (f.started + frame_flush_ms) now then (batch f ∷ [], none) else (keepalive ∷ [], some f)

unfoldable pub on_arrival :
    (Value → String) → Bool → Arrival → Option DeltaFrame → List Emission × Option DeltaFrame
unfolding on_event on_timeout
on_arrival str coalesce (event now e) frame = on_event str coalesce now e frame
on_arrival str coalesce (timeout now) frame = on_timeout now frame

-- The loops over the replay and over the queue, up to some arrival: what has been yielded, and the
-- frame that is pending.
unfoldable pub iterate :
    (Value → String) → Bool → List Arrival → Option DeltaFrame → List Emission × Option DeltaFrame
unfolding on_arrival
iterate str coalesce [] frame = ([], frame)
iterate str coalesce (a ∷ as') frame =
    let (out, frame') = on_arrival str coalesce a frame in
    let (rest, last) = iterate str coalesce as' frame' in (out ++ rest, last)

-- The end of the stream: the None in the queue.
unfoldable pub finish : List Emission × Option DeltaFrame → List Emission
unfolding emit_frame
finish (out, frame) = out ++ emit_frame frame
