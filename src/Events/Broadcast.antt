-- ===== src/Events/Broadcast.antt =====
-- `EventBroadcaster` (src/z_apply_core/integrations/events.py): its replay tail and the queues of its
-- observers. A subscription is named by a text, in place of the identity of its queue. Nothing that
-- `publish` does between its locks awaits anything but the free lock, so it is one step.
use z_apply_core.Prelude.{
  ℕ, ◌+◌, ◌-◌, String, Bool, true, false, ◌&&◌, Option, none, some, List, [], ◌∷◌, ◌++◌, leb, ltb,
  length, drop, if◌then◌else◌,
}
use z_apply_core.Dict
use z_apply_core.Dict.{Dict}
use z_apply_core.Events.Event.{CoreEvent}

pub record EventBroadcaster : Type 0 where
  pub queue_size : ℕ
  pub replay_limit : ℕ
  pub replay : List CoreEvent
  pub subscribers : Dict (List CoreEvent)
  pub drops : Dict ℕ
  pub total_drops : ℕ
  pub drop_counter : Bool

-- `__init__`
unfoldable pub new : ℕ → ℕ → Bool → EventBroadcaster
new queue_size replay_limit drop_counter = record {
  queue_size = queue_size;
  replay_limit = replay_limit;
  replay = [];
  subscribers = [];
  drops = [];
  total_drops = 0;
  drop_counter = drop_counter;
}

-- The last `n` of a list: what a `deque(maxlen=n)` keeps of what is appended to it.
unfoldable pub last_n {ℓ} : {A : Type ℓ} → ℕ → List A → List A
last_n n xs = drop (length xs - n) xs

-- `deque.append` with `maxlen`.
unfoldable pub deque_append : ℕ → CoreEvent → List CoreEvent → List CoreEvent
unfolding last_n
deque_append n e es = last_n n (es ++ (e ∷ []))

-- `asyncio.Queue.full`: a maxsize of 0 is no bound.
unfoldable pub is_full : ℕ → List CoreEvent → Bool
is_full size q = ltb 0 size && leb size (length q)

-- The body of the loop of `publish`: the queue, and whether an event was dropped.
unfoldable pub offer : ℕ → CoreEvent → List CoreEvent → List CoreEvent × Bool
unfolding is_full
offer size e q = if is_full size q then (drop 1 q ++ (e ∷ []), true) else (q ++ (e ∷ []), false)

abbrev pub or_zero : Option ℕ → ℕ
or_zero none = 0
or_zero (some n) = n

unfoldable pub count_drop : Bool → String → EventBroadcaster → EventBroadcaster
count_drop false name b = b
count_drop true name b =
    if b.drop_counter
    then record b {
      drops = Dict.put name (or_zero (Dict.get name b.drops) + 1) b.drops;
      total_drops = b.total_drops + 1;
    }
    else b

-- The loop of `publish` over the subscribers: their queues, which it changes in place,
unfoldable pub offer_all : ℕ → CoreEvent → Dict (List CoreEvent) → Dict (List CoreEvent)
unfolding offer
offer_all size e [] = []
offer_all size e ((name, q) ∷ rest) = (name, (offer size e q).0) ∷ offer_all size e rest

-- and the drops it counts.
unfoldable pub count_drops : CoreEvent → Dict (List CoreEvent) → EventBroadcaster → EventBroadcaster
unfolding offer count_drop
count_drops e [] b = b
count_drops e ((name, q) ∷ rest) b =
    count_drops e rest (count_drop (offer b.queue_size e q).1 name b)

unfoldable pub publish : CoreEvent → EventBroadcaster → EventBroadcaster
unfolding offer_all count_drops deque_append
publish e b =
    let c = count_drops e b.subscribers b in
    record c {
      replay = deque_append b.replay_limit e b.replay;
      subscribers = offer_all b.queue_size e b.subscribers;
    }

-- The start of `subscription`: the replay that the observer gets first.
unfoldable pub subscribe : String → EventBroadcaster → List CoreEvent × EventBroadcaster
subscribe name b = (b.replay, record b { subscribers = Dict.put name [] b.subscribers })

-- The end of `subscription`.
unfoldable pub unsubscribe : String → EventBroadcaster → EventBroadcaster
unsubscribe name b = record b {
  subscribers = Dict.remove name b.subscribers;
  drops = Dict.remove name b.drops;
}

unfoldable pub receive_from :
    String → EventBroadcaster → Option (List CoreEvent) → Option CoreEvent × EventBroadcaster
receive_from name b none = (none, b)
receive_from name b (some []) = (none, b)
receive_from name b (some (e ∷ q)) =
    (some e, record b { subscribers = Dict.put name q b.subscribers })

-- `queue.get`
unfoldable pub receive : String → EventBroadcaster → Option CoreEvent × EventBroadcaster
unfolding receive_from
receive name b = receive_from name b (Dict.get name b.subscribers)

pub record Snapshot : Type 0 where
  pub subscribers : ℕ
  pub dropped_events : ℕ
  pub total_dropped_events : ℕ
  pub replay_limit : ℕ
  pub replay_size : ℕ
  pub replay_newest_seq : Option ℕ

unfoldable pub sum_values : Dict ℕ → ℕ
sum_values [] = 0
sum_values ((_, n) ∷ d) = n + sum_values d

unfoldable pub newest_seq : List CoreEvent → Option ℕ
newest_seq [] = none
newest_seq (e ∷ []) = some e.sequence
newest_seq (e ∷ f ∷ es) = newest_seq (f ∷ es)

unfoldable pub snapshot : EventBroadcaster → Snapshot
unfolding sum_values newest_seq
snapshot b = record {
  subscribers = length b.subscribers;
  dropped_events = sum_values b.drops;
  total_dropped_events = b.total_drops;
  replay_limit = b.replay_limit;
  replay_size = length b.replay;
  replay_newest_seq = newest_seq b.replay;
}
