-- ===== src/Events/Queues.antt =====
-- What an observer of `EventBroadcaster` gets (src/z_apply_core/integrations/events.py).
use z_apply_core.Prelude.{
  ℕ, ◌≤◌, ◌<◌, ◌≡◌, refl, sym, ap, ◌∙◌, String, Bool, true, false, some, List, [], ◌∷◌, ◌++◌,
  length, arith, eq_iff, Bool-cases, inl, inr,
}
use z_apply_core.Dict
use z_apply_core.Dict.{Dict, get-put}
use z_apply_core.Events.Event.{CoreEvent}
use z_apply_core.Events.Broadcast.{
  EventBroadcaster, last_n, offer, offer_all, count_drop, count_drops, deque_append, publish,
  subscribe, new,
}
use z_apply_core.Events.Tails.{
  append_assoc, append_nil, last_n-append, last_n-short, length-last_n, offer_lem,
}

-- What `count_drops` leaves alone.
pub record SameBut (b c : EventBroadcaster) : Type 0 where
  pub size : c.queue_size ≡ b.queue_size
  pub limit : c.replay_limit ≡ b.replay_limit
  pub counter : c.drop_counter ≡ b.drop_counter

pub count_drop-SameBut :
    (d : Bool) (name : String) (b : EventBroadcaster) → SameBut b (count_drop d name b)
unfolding count_drop
count_drop-SameBut false name b = record { size = refl; limit = refl; counter = refl }
count_drop-SameBut true name b = elim (Bool-cases b.drop_counter) [
  | inl on ↦ rw on (record { size = refl; limit = refl; counter = refl })
  | inr off ↦ rw off (record { size = refl; limit = refl; counter = refl })
]

pub count_drops-SameBut :
    (e : CoreEvent) (qs : Dict (List CoreEvent)) (b : EventBroadcaster)
    → SameBut b (count_drops e qs b)
unfolding count_drops
count_drops-SameBut e [] b = record { size = refl; limit = refl; counter = refl }
count_drops-SameBut e ((name, q) ∷ qs) b =
    let d = (offer b.queue_size e q).1 in
    let first = count_drop-SameBut d name b in
    let rest = count_drops-SameBut e qs (count_drop d name b) in
    record {
      size = rest.size ∙ first.size;
      limit = rest.limit ∙ first.limit;
      counter = rest.counter ∙ first.counter;
    }

get-offer_all :
    (size : ℕ) (e : CoreEvent) (name : String) (qs : Dict (List CoreEvent)) (q : List CoreEvent)
    → Dict.get name qs ≡ some q
    → Dict.get name (offer_all size e qs) ≡ some (offer size e q).0
unfolding offer_all Dict.get
get-offer_all size e name [] q h = cc
get-offer_all size e name ((n, q') ∷ qs) q h = ground (arith, get-offer_all size e name qs q)

-- Publishing of several events, one after the other.
abbrev pub publish_all : List CoreEvent → EventBroadcaster → EventBroadcaster
publish_all [] b = b
publish_all (e ∷ es) b = publish_all es (publish e b)

publish-limit : (e : CoreEvent) (b : EventBroadcaster) → (publish e b).replay_limit ≡ b.replay_limit
unfolding publish
publish-limit e b = (count_drops-SameBut e b.subscribers b).limit

publish-size : (e : CoreEvent) (b : EventBroadcaster) → (publish e b).queue_size ≡ b.queue_size
unfolding publish
publish-size e b = (count_drops-SameBut e b.subscribers b).size

pub publish-replay :
    (e : CoreEvent) (b : EventBroadcaster)
    → (publish e b).replay ≡ last_n b.replay_limit (b.replay ++ (e ∷ []))
unfolding publish deque_append
publish-replay e b = refl

-- What a full deque or queue keeps of two batches in turn.
last_n-step :
    (n : ℕ) (xs : List CoreEvent) (e : CoreEvent) (es : List CoreEvent)
    → last_n n (last_n n (xs ++ (e ∷ [])) ++ es) ≡ last_n n (xs ++ (e ∷ es))
last_n-step n xs e es =
    last_n-append n (xs ++ (e ∷ [])) es ∙ ap (last_n n) (append_assoc xs (e ∷ []) es)

-- A deque or queue that is not over its bound keeps all of what it holds.
last_n-nil : (n : ℕ) (xs : List CoreEvent) → length xs ≤ n → last_n n (xs ++ []) ≡ xs
last_n-nil n xs h = ap (last_n n) (append_nil xs) ∙ last_n-short n xs h

replay-publish_all :
    (es : List CoreEvent) (b : EventBroadcaster)
    → length b.replay ≤ b.replay_limit
    → (publish_all es b).replay ≡ last_n b.replay_limit (b.replay ++ es)
replay-publish_all [] b h = sym (last_n-nil b.replay_limit b.replay h)
replay-publish_all (e ∷ es) b h =
    let n = b.replay_limit in
    let short : length (publish e b).replay ≤ (publish e b).replay_limit = omega (
      arith,
      publish-limit e b,
      ap length (publish-replay e b),
      length-last_n n (b.replay ++ (e ∷ [])),
    ) in
    cc (
      replay-publish_all es (publish e b) short,
      publish-limit e b,
      publish-replay e b,
      last_n-step n b.replay e es,
    )

publish-queue :
    (name : String) (e : CoreEvent) (b : EventBroadcaster) (q : List CoreEvent)
    → 0 < b.queue_size
    → length q ≤ b.queue_size
    → Dict.get name b.subscribers ≡ some q
    → Dict.get name (publish e b).subscribers ≡ some (last_n b.queue_size (q ++ (e ∷ [])))
unfolding publish
publish-queue name e b q pos h found =
    get-offer_all b.queue_size e name b.subscribers q found
    ∙ ap some (offer_lem b.queue_size e q pos h)

queue-publish_all :
    (name : String) (es : List CoreEvent) (b : EventBroadcaster) (q : List CoreEvent)
    → 0 < b.queue_size
    → length q ≤ b.queue_size
    → Dict.get name b.subscribers ≡ some q
    → Dict.get name (publish_all es b).subscribers ≡ some (last_n b.queue_size (q ++ es))
queue-publish_all name [] b q pos h found = found ∙ ap some (sym (last_n-nil b.queue_size q h))
queue-publish_all name (e ∷ es) b q pos h found =
    let n = b.queue_size in
    let next = last_n n (q ++ (e ∷ [])) in
    let short : length next ≤ (publish e b).queue_size =
      omega (arith, publish-size e b, length-last_n n (q ++ (e ∷ []))) in
    let later =
      queue-publish_all name es (publish e b) next (omega (arith, publish-size e b)) short
        (publish-queue name e b q pos h found) in
    cc (later, publish-size e b, last_n-step n q e es)

publish_all-size :
    (es : List CoreEvent) (b : EventBroadcaster) → (publish_all es b).queue_size ≡ b.queue_size
publish_all-size [] b = refl
publish_all-size (e ∷ es) b = publish_all-size es (publish e b) ∙ publish-size e b

subscribe-queue :
    (name : String) (b : EventBroadcaster)
    → Dict.get name (subscribe name b).1.subscribers ≡ some []
unfolding subscribe
subscribe-queue name b = ground (arith, eq_iff name name, get-put name name [] b.subscribers)

-- After any events, an observer subscribes; then more events are published. It gets as its replay
-- the last `replay_limit` of the former, in order, and then the latter, each once: those that
-- fit in its queue, the last ones.
pub replay_then_live :
    (name : String) (before after : List CoreEvent) (size limit : ℕ) (counting : Bool)
    → 0 < size
    → let (replay, b) = subscribe name (publish_all before (new size limit counting)) in
      (replay ≡ last_n limit before)
      × (Dict.get name (publish_all after b).subscribers ≡ some (last_n size after))
unfolding subscribe new
replay_then_live name before after size limit counting pos =
    let b = publish_all before (new size limit counting) in
    let c = (subscribe name b).1 in
    let room : c.queue_size ≡ size = publish_all-size before (new size limit counting) in
    let live =
      queue-publish_all name after c [] (omega (arith, room)) (omega arith)
        (subscribe-queue name b) in
    (replay-publish_all before (new size limit counting) (omega arith), cc (live, room))

pub publish-counter :
    (e : CoreEvent) (b : EventBroadcaster) → (publish e b).drop_counter ≡ b.drop_counter
unfolding publish
publish-counter e b = (count_drops-SameBut e b.subscribers b).counter

pub length-offer_all :
    (size : ℕ) (e : CoreEvent) (qs : Dict (List CoreEvent))
    → length (offer_all size e qs) ≡ length qs
unfolding offer_all
length-offer_all size e [] = refl
length-offer_all size e (_ ∷ qs) = omega (arith, length-offer_all size e qs)
