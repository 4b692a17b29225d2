-- ===== src/Events/Sound.antt =====
-- The bounds of `EventBroadcaster` (src/z_apply_core/integrations/events.py) in every state that
-- publishers and observers reach.
use z_apply_core.Prelude.{
  ℕ, ◌≤◌, ◌<◌, ◌≡◌, refl, ap, ◌∙◌, String, Bool, Option, none, some, List, [], ◌∷◌, ◌++◌, length,
  drop, arith, length-append, length-drop, str_eq, Bool-cases, inl, inr, All, from_some,
}
use z_apply_core.Dict
use z_apply_core.Dict.{Dict}
use z_apply_core.Star.{Star, Star_keeps}
use z_apply_core.Events.Event.{CoreEvent}
use z_apply_core.Events.Broadcast.{
  EventBroadcaster, is_full, offer, offer_all, publish, subscribe, unsubscribe, receive,
  receive_from, sum_values, snapshot, new,
}
use z_apply_core.Events.Tails.{length-last_n}
use z_apply_core.Events.Queues.{count_drops-SameBut, publish-replay}
use z_apply_core.Events.Snapshot.{sum-count_drops, sum-remove}

-- What observers and publishers do.
pub data Step (b : EventBroadcaster) : EventBroadcaster → Type 0 where
  publishes : (e : CoreEvent) → Step b (publish e b)
  subscribes : (name : String) → Step b (subscribe name b).1
  unsubscribes : (name : String) → Step b (unsubscribe name b)
  receives : (name : String) → Step b (receive name b).1

-- Every queue is within a bound.
Fits : ℕ → Dict (List CoreEvent) → Type 0
Fits n qs = All (λ p. length p.1 ≤ n) qs

record IsSound (size limit : ℕ) (b : EventBroadcaster) : Type 0 where
  bound : b.queue_size ≡ size
  tail : b.replay_limit ≡ limit
  fits : Fits size b.subscribers
  replayed : length b.replay ≤ limit
  counted : sum_values b.drops ≤ b.total_drops

offer-fits :
    (size : ℕ) (e : CoreEvent) (q : List CoreEvent)
    → 0 < size
    → length q ≤ size
    → length (offer size e q).0 ≤ size
unfolding offer is_full
offer-fits size e q pos h =
    ground (arith, length-append q (e ∷ []), length-append (drop 1 q) (e ∷ []), length-drop 1 q)

offer_all-Fits :
    (size : ℕ) (e : CoreEvent) (qs : Dict (List CoreEvent))
    → 0 < size
    → Fits size qs
    → Fits size (offer_all size e qs)
unfolding offer_all Fits
offer_all-Fits size e [] pos h = tt
offer_all-Fits size e ((name, q) ∷ qs) pos h =
    (offer-fits size e q pos h.0, offer_all-Fits size e qs pos h.1)

put-Fits :
    (size : ℕ) (name : String) (q : List CoreEvent) (qs : Dict (List CoreEvent))
    → length q ≤ size
    → Fits size qs
    → Fits size (Dict.put name q qs)
unfolding Fits Dict.put
put-Fits size name q [] short h = (short, tt)
put-Fits size name q ((j, k) ∷ qs) short h = elim (Bool-cases (str_eq j name)) [
  | inl on ↦ rw on (short, h.1)
  | inr off ↦ rw off (h.0, put-Fits size name q qs short h.1)
]

remove-Fits :
    (size : ℕ) (name : String) (qs : Dict (List CoreEvent))
    → Fits size qs
    → Fits size (Dict.remove name qs)
unfolding Fits Dict.remove
remove-Fits size name [] h = tt
remove-Fits size name ((j, k) ∷ qs) h = elim (Bool-cases (str_eq j name)) [
  | inl on ↦ rw on (remove-Fits size name qs h.1)
  | inr off ↦ rw off (h.0, remove-Fits size name qs h.1)
]

get-Fits :
    (size : ℕ) (name : String) (q : List CoreEvent) (qs : Dict (List CoreEvent))
    → Fits size qs
    → Dict.get name qs ≡ some q
    → length q ≤ size
unfolding Fits Dict.get
get-Fits size name q [] h e = ground arith
get-Fits size name q ((j, k) ∷ qs) h e = elim (Bool-cases (str_eq j name)) [
  | inl on ↦ rw (← from_some k q (rw on at e)) h.0
  | inr off ↦ get-Fits size name q qs h.1 (rw off at e)
]

publish-IsSound :
    (size limit : ℕ) (e : CoreEvent) (b : EventBroadcaster)
    → 0 < size
    → IsSound size limit b
    → IsSound size limit (publish e b)
unfolding publish
publish-IsSound size limit e b pos k =
    let same = count_drops-SameBut e b.subscribers b in
    record {
      bound = same.size ∙ k.bound;
      tail = same.limit ∙ k.tail;
      fits = rw k.bound (offer_all-Fits size e b.subscribers pos k.fits);
      replayed = omega (
        arith,
        k.tail,
        ap length (publish-replay e b),
        length-last_n b.replay_limit (b.replay ++ (e ∷ [])),
      );
      counted = sum-count_drops e b.subscribers b k.counted;
    }

receive_from-IsSound :
    (size limit : ℕ) (name : String) (b : EventBroadcaster) (o : Option (List CoreEvent))
    → Dict.get name b.subscribers ≡ o
    → IsSound size limit b
    → IsSound size limit (receive_from name b o).1
unfolding receive_from
receive_from-IsSound size limit name b none found k = k
receive_from-IsSound size limit name b (some []) found k = k
receive_from-IsSound size limit name b (some (e ∷ q)) found k =
    let short = get-Fits size name (e ∷ q) b.subscribers k.fits found in
    record {
      bound = k.bound;
      tail = k.tail;
      fits = put-Fits size name q b.subscribers (omega (arith, short)) k.fits;
      replayed = k.replayed;
      counted = k.counted;
    }

receive-IsSound :
    (size limit : ℕ) (name : String) (b : EventBroadcaster)
    → IsSound size limit b
    → IsSound size limit (receive name b).1
unfolding receive
receive-IsSound size limit name b k =
    receive_from-IsSound size limit name b (Dict.get name b.subscribers) refl k

new-IsSound : (size limit : ℕ) (counting : Bool) → IsSound size limit (new size limit counting)
unfolding new Fits sum_values
new-IsSound size limit counting = record {
  bound = refl;
  tail = refl;
  fits = tt;
  replayed = omega arith;
  counted = omega arith;
}

Step-IsSound :
    (size limit : ℕ)
    → 0 < size
    → (b c : EventBroadcaster) → Step b c
    → IsSound size limit b
    → IsSound size limit c
unfolding subscribe unsubscribe
Step-IsSound size limit pos b _ (publishes e) k = publish-IsSound size limit e b pos k
Step-IsSound size limit pos b _ (subscribes name) k = record {
  bound = k.bound;
  tail = k.tail;
  fits = put-Fits size name [] b.subscribers (omega arith) k.fits;
  replayed = k.replayed;
  counted = k.counted;
}
Step-IsSound size limit pos b _ (unsubscribes name) k = record {
  bound = k.bound;
  tail = k.tail;
  fits = remove-Fits size name b.subscribers k.fits;
  replayed = k.replayed;
  counted = omega (arith, k.counted, sum-remove name b.drops);
}
Step-IsSound size limit pos b _ (receives name) k = receive-IsSound size limit name b k

-- However publishers and observers come and go, the replay keeps to its limit, the queue of each
-- observer to its size, and the drops of the observers of the moment to the total.
pub snapshot_bounds :
    (size limit : ℕ) (counting : Bool) (b : EventBroadcaster)
    → 0 < size
    → Star Step (new size limit counting) b
    → ((snapshot b).replay_size ≤ limit)
      × ((snapshot b).dropped_events ≤ (snapshot b).total_dropped_events)
      × ((name : String) (q : List CoreEvent)
          → Dict.get name b.subscribers ≡ some q
          → length q ≤ size)
unfolding snapshot
snapshot_bounds size limit counting b pos run =
    let k =
      Star_keeps (IsSound size limit) (Step-IsSound size limit pos) run
        (new-IsSound size limit counting) in
    (k.replayed, k.counted, λ name q found. get-Fits size name q b.subscribers k.fits found)
