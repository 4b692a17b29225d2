-- ===== src/Events/Tests.antt =====
-- Runs of the event fan-out (src/z_apply_core/integrations/events.py) on small streams, and the theorems
-- applied to them.
use z_apply_core.Prelude.{
  ℕ, ◌+◌, ◌*◌, ◌≤◌, ◌≡◌, refl, String, true, none, some, List, [], ◌∷◌, All, length, arith,
}
use z_apply_core.Dict
use z_apply_core.Star.{here, next}
use z_apply_core.Events.Event.{Value, null, text, num, CoreEvent, is_coalescible}
use z_apply_core.Events.Frame
use z_apply_core.Events.Frame.{DeltaFrame, frame_from_event}
use z_apply_core.Events.Coalesce.{Arrival, event, timeout, iterate, finish}
use z_apply_core.Events.Parts.{all_parts, input_parts}
use z_apply_core.Events.Lossless.{IsBounded}
use z_apply_core.Events.Stream.{coalescing_lossless, frames-IsBounded, malformed_lost}
use z_apply_core.Events.Broadcast.{last_n, EventBroadcaster, new, subscribe, publish, snapshot}
use z_apply_core.Events.Queues.{publish_all, replay_then_live}
use z_apply_core.Events.Snapshot.{waiting, publish_all-conserves}
use z_apply_core.Events.Sound.{publishes, subscribes, snapshot_bounds}

abbrev no_str : Value → String
no_str v = "?"

abbrev message : ℕ → String → CoreEvent
message n s = record {
  run_id = "r";
  sequence = n;
  occurred_at = n;
  kind = "agent.message.delta";
  source = ("agent", "orchestrator") ∷ [];
  level = "info";
  payload = ("delta", text s) ∷ [];
}

-- A message whose delta is no text.
abbrev malformed : ℕ → CoreEvent
malformed n = record {
  run_id = "r";
  sequence = n;
  occurred_at = n;
  kind = "agent.message.delta";
  source = [];
  level = "info";
  payload = ("delta", num n) ∷ [];
}

abbrev turn : ℕ → CoreEvent
turn n = record {
  run_id = "r";
  sequence = n;
  occurred_at = n;
  kind = "agent.turn.end";
  source = [];
  level = "info";
  payload = [];
}

abbrev stream : List Arrival
stream =
    event 0 (message 1 "ab")
    ∷ event 5 (message 2 "c")
    ∷ timeout 70
    ∷ event 71 (message 3 "d")
    ∷ event 72 (turn 4)
    ∷ []

abbrev pending_frame : DeltaFrame
pending_frame = record {
  run_id = "r";
  source = ("agent", "orchestrator") ∷ [];
  level = "info";
  event_type = "agent.message.delta";
  merge_key = record { run_id = "r"; agent = some "orchestrator"; channel = Frame.message "text" };
  sequence = 1;
  occurred_at = 1;
  base = ("kind", text "text") ∷ ("message_id", null) ∷ ("turn_index", null) ∷ [];
  deltas = "ab" ∷ [];
  count = 1;
  bytes = 34;
  started = 0;
}

abbrev two : List CoreEvent
two = message 1 "ab" ∷ turn 2 ∷ []

coalescing_lossless_example :
    all_parts (finish (iterate no_str true stream none)) ≡ input_parts no_str true stream
unfolding is_coalescible frame_from_event
coalescing_lossless_example =
    coalescing_lossless no_str true stream
      (λ h. refl, (λ h. refl, (tt, (λ h. refl, (λ h. ground (arith, h), tt)))))

frames-IsBounded_example : All IsBounded (finish (iterate no_str true stream none))
frames-IsBounded_example = frames-IsBounded no_str true stream

malformed_lost_example :
    finish (
      iterate no_str true
        (event 0 (message 1 "ab") ∷ event 5 (malformed 2) ∷ event 6 (turn 4) ∷ [])
        none)
    ≡ finish (
        iterate no_str true
          (event 0 (message 1 "ab") ∷ event 5 (malformed 3) ∷ event 6 (turn 4) ∷ [])
          none)
unfolding iterate is_coalescible frame_from_event
malformed_lost_example =
    malformed_lost no_str 5 (malformed 2) (malformed 3) pending_frame
      (event 0 (message 1 "ab") ∷ []) (event 6 (turn 4) ∷ []) refl refl refl refl refl

abbrev watched : EventBroadcaster
watched = (subscribe "a" (publish_all two (new 1 2 true))).1

replay_then_live_example :
    ((subscribe "a" (publish_all two (new 1 2 true))).0 ≡ last_n 2 two)
    × (Dict.get "a" (publish_all two watched).subscribers ≡ some (last_n 1 two))
replay_then_live_example = replay_then_live "a" two two 1 2 true (omega arith)

publish_all-conserves_example :
    waiting (publish_all two watched).subscribers
      + (snapshot (publish_all two watched)).total_dropped_events
    ≡ waiting watched.subscribers
      + (snapshot watched).total_dropped_events
      + length two * (snapshot watched).subscribers
unfolding subscribe publish new
publish_all-conserves_example = publish_all-conserves two watched refl

abbrev served : EventBroadcaster
served = publish (turn 7) (publish (turn 6) (subscribe "a" (new 1 1 true)).1)

snapshot_bounds_example :
    ((snapshot served).replay_size ≤ 1)
    × ((snapshot served).dropped_events ≤ (snapshot served).total_dropped_events)
    × ((name : String) (q : List CoreEvent)
        → Dict.get name served.subscribers ≡ some q
        → length q ≤ 1)
snapshot_bounds_example =
    snapshot_bounds 1 1 true served (omega arith)
      (next (next (next here (subscribes "a")) (publishes (turn 6))) (publishes (turn 7)))
