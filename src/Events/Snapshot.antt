-- ===== src/Events/Snapshot.antt =====
-- The counts of `EventBroadcaster.snapshot` (src/z_apply_core/integrations/events.py).
use z_apply_core.Prelude.{
  ℕ, ◌+◌, ◌*◌, ◌≤◌, ◌≡◌, refl, ap, ◌∙◌, String, Bool, true, false, Option, none, some, List, [],
  ◌∷◌, length, drop, arith, length-append, length-drop, eq_iff,
}
use z_apply_core.Dict
use z_apply_core.Dict.{Dict}
use z_apply_core.Events.Event.{CoreEvent}
use z_apply_core.Events.Broadcast.{
  EventBroadcaster, is_full, offer, offer_all, count_drop, count_drops, publish, sum_values,
  or_zero, snapshot,
}
use z_apply_core.Events.Queues.{publish_all, count_drop-SameBut, publish-counter, length-offer_all}

-- The events that wait in the queues.
unfoldable pub waiting : Dict (List CoreEvent) → ℕ
waiting [] = 0
waiting ((_, q) ∷ qs) = length q + waiting qs

abbrev bit : Bool → ℕ
bit true = 1
bit false = 0

length-offer :
    (size : ℕ) (e : CoreEvent) (q : List CoreEvent)
    → length (offer size e q).0 + bit (offer size e q).1 ≡ length q + 1
unfolding offer is_full
length-offer size e q =
    ground (arith, length-append q (e ∷ []), length-append (drop 1 q) (e ∷ []), length-drop 1 q)

total-count_drop :
    (d : Bool) (name : String) (b : EventBroadcaster)
    → b.drop_counter ≡ true
    → (count_drop d name b).total_drops ≡ b.total_drops + bit d
unfolding count_drop
total-count_drop true name b on = ground arith
total-count_drop false name b on = omega arith

count_drops-conserves :
    (size : ℕ) (e : CoreEvent) (qs : Dict (List CoreEvent)) (b : EventBroadcaster)
    → b.queue_size ≡ size
    → b.drop_counter ≡ true
    → waiting (offer_all size e qs) + (count_drops e qs b).total_drops
      ≡ waiting qs + b.total_drops + length qs
unfolding count_drops offer_all waiting
count_drops-conserves size e [] b same on = omega arith
count_drops-conserves size e ((name, q) ∷ qs) b same on =
    let d = (offer b.queue_size e q).1 in
    let first = count_drop-SameBut d name b in
    let rest =
      count_drops-conserves size e qs (count_drop d name b) (first.size ∙ same)
        (first.counter ∙ on) in
    omega (
      arith,
      rest,
      total-count_drop d name b on,
      length-offer size e q,
      ap (λ s. bit (offer s e q).1) same,
    )

publish-waiting :
    (e : CoreEvent) (b : EventBroadcaster)
    → b.drop_counter ≡ true
    → waiting (publish e b).subscribers + (publish e b).total_drops
      ≡ waiting b.subscribers + b.total_drops + length b.subscribers
unfolding publish
publish-waiting e b on = count_drops-conserves b.queue_size e b.subscribers b refl on

publish-observers :
    (e : CoreEvent) (b : EventBroadcaster) → length (publish e b).subscribers ≡ length b.subscribers
unfolding publish
publish-observers e b = length-offer_all b.queue_size e b.subscribers

-- With the drop counter on, each event that is published is, for each observer, either waiting in
-- its queue or counted as dropped, and counted drops are events that waited or were published.
pub publish_all-conserves :
    (es : List CoreEvent) (b : EventBroadcaster)
    → b.drop_counter ≡ true
    → waiting (publish_all es b).subscribers + (snapshot (publish_all es b)).total_dropped_events
      ≡ waiting b.subscribers
        + (snapshot b).total_dropped_events
        + length es * (snapshot b).subscribers
unfolding snapshot
publish_all-conserves [] b on = omega arith
publish_all-conserves (e ∷ es) b on =
    let rest = publish_all-conserves es (publish e b) (publish-counter e b ∙ on) in
    omega (
      arith,
      rest,
      publish-waiting e b on,
      publish-observers e b,
      ap (λ n. length es * n) (publish-observers e b),
    )

-- The sum of the drops of the observers.
sum-count :
    (name : String) (d : Dict ℕ) (n : Option ℕ)
    → Dict.get name d ≡ n
    → sum_values (Dict.put name (or_zero n + 1) d) ≡ sum_values d + 1
unfolding sum_values Dict.put Dict.get
sum-count name [] none h = omega arith
sum-count name [] (some n) h = ground arith
sum-count name ((j, k) ∷ d) n h = ground (arith, eq_iff j name, sum-count name d n)

pub sum-remove : (name : String) (d : Dict ℕ) → sum_values (Dict.remove name d) ≤ sum_values d
unfolding sum_values Dict.remove
sum-remove name [] = omega arith
sum-remove name ((j, k) ∷ d) = ground (arith, sum-remove name d)

sum-count_drop :
    (d : Bool) (name : String) (b : EventBroadcaster)
    → sum_values b.drops ≤ b.total_drops
    → sum_values (count_drop d name b).drops ≤ (count_drop d name b).total_drops
unfolding count_drop
sum-count_drop false name b h = h
sum-count_drop true name b h = ground (arith, sum-count name b.drops (Dict.get name b.drops) refl)

pub sum-count_drops :
    (e : CoreEvent) (qs : Dict (List CoreEvent)) (b : EventBroadcaster)
    → sum_values b.drops ≤ b.total_drops
    → sum_values (count_drops e qs b).drops ≤ (count_drops e qs b).total_drops
unfolding count_drops
sum-count_drops e [] b h = h
sum-count_drops e ((name, q) ∷ qs) b h =
    let d = (offer b.queue_size e q).1 in
    sum-count_drops e qs (count_drop d name b) (sum-count_drop d name b h)
