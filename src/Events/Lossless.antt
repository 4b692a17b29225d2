-- ===== src/Events/Lossless.antt =====
-- Coalescing (src/z_apply_core/integrations/events.py) keeps every delta, and its frames are bounded.
use z_apply_core.Prelude.{
  ℕ, ◌+◌, ◌≤◌, ◌<◌, ◌≡◌, refl, sym, ap, ◌∙◌, String, Bool, true, false, ◌&&◌, Option, none, some,
  is_some, List, [], ◌∷◌, ◌++◌, length, arith, length-append, leb, Bool-cases, inl, inr, All,
  append_assoc, append-nil,
}
use z_apply_core.Events.Event.{Value, CoreEvent, is_coalescible}
use z_apply_core.Events.Frame.{
  DeltaFrame, frame_from_event, frame_append, frame_full, same_key, max_deltas_per_frame,
  frame_flush_ms,
}
use z_apply_core.Events.Coalesce.{
  Emission, batch, single, keepalive, Arrival, event, timeout, emit_frame, merged, merge_delta,
  emit_or_event, handle_candidate, handle_delta, on_event, on_timeout, on_arrival,
}
use z_apply_core.Events.Parts.{
  Part, whole, delta_parts, frame_parts, emission_parts, all_parts, event_parts, arrival_parts,
  IsMergeable, delta_parts-append, same_key→eq, both, type_of, IsCandidate,
  frame_from_event-IsCandidate,
}

-- A frame that waits for more deltas.
pub record IsPending (f : DeltaFrame) : Type 0 where
  pub typed : f.event_type ≡ type_of f.merge_key.channel
  pub counted : f.count ≡ length f.deltas
  pub begun : 1 ≤ f.count
  pub room : f.count < max_deltas_per_frame

abbrev pub IsPendingOption : Option DeltaFrame → Type 0
IsPendingOption none = Unit
IsPendingOption (some f) = IsPending f

-- A frame in the output has one delta to 64.
unfoldable pub IsBounded : Emission → Type 0
IsBounded (batch f) = (1 ≤ length f.deltas) × (length f.deltas ≤ 64)
IsBounded (single e) = Unit
IsBounded keepalive = Unit

-- A result that is bounded, and, under a condition, carries given parts.
pub record IsResult (P : Type 0) (parts : List Part) (r : List Emission × Option DeltaFrame)
    : Type 0 where
  pub pending : IsPendingOption r.1
  pub bounded : All IsBounded r.0
  pub carries : P → all_parts r.0 ++ frame_parts r.1 ≡ parts

pub all_parts-append : (xs ys : List Emission) → all_parts (xs ++ ys) ≡ all_parts xs ++ all_parts ys
unfolding all_parts
all_parts-append [] ys = refl
all_parts-append (x ∷ xs) ys =
    ap (λ ps. emission_parts x ++ ps) (all_parts-append xs ys)
    ∙ sym (append_assoc (emission_parts x) (all_parts xs) (all_parts ys))

pub IsPending-IsBounded : (f : DeltaFrame) → IsPending f → IsBounded (batch f)
unfolding IsBounded
IsPending-IsBounded f k = (omega (arith, k.counted, k.begun), omega (arith, k.counted, k.room))

candidate-IsPending : (e : CoreEvent) (c : DeltaFrame) → IsCandidate e c → IsPending c
candidate-IsPending e c k = record {
  typed = k.typed;
  counted = k.one ∙ sym k.fresh;
  begun = omega (arith, k.one);
  room = omega (arith, k.one);
}

not_full : (f : DeltaFrame) → frame_full f ≡ false → f.count < max_deltas_per_frame
unfolding frame_full
not_full f h = ground (arith, h)

merged-IsResult :
    (P : Type 0) (f : DeltaFrame)
    → f.event_type ≡ type_of f.merge_key.channel
    → f.count ≡ length f.deltas
    → 1 ≤ f.count
    → f.count ≤ 64
    → IsResult P (delta_parts f.merge_key f.deltas) (merged f)
unfolding all_parts frame_parts IsBounded
merged-IsResult P f typed counted begun bound = elim (Bool-cases (frame_full f)) [
  | inl full ↦ rw full (record {
    pending = tt;
    bounded = ((omega (arith, begun, counted), omega (arith, bound, counted)), tt);
    carries = λ p. append-nil _ ∙ append-nil (delta_parts f.merge_key f.deltas);
  })
  | inr room ↦ rw room (record {
    pending = record { typed = typed; counted = counted; begun = begun; room = not_full f room };
    bounded = tt;
    carries = λ p. refl;
  })
]

merge_delta-IsResult :
    (P : Type 0) (e : CoreEvent) (c : DeltaFrame) (frame : Option DeltaFrame)
    → IsCandidate e c
    → IsPendingOption frame
    → IsResult P (frame_parts frame ++ frame_parts (some c)) (merge_delta e c frame)
unfolding merge_delta frame_parts all_parts
merge_delta-IsResult P e c none k waits = record {
  pending = candidate-IsPending e c k;
  bounded = tt;
  carries = λ p. refl;
}
merge_delta-IsResult P e c (some f) k waits = elim (Bool-cases (same_key f.merge_key c.merge_key)) [
  | inl same ↦
      let key = same_key→eq f.merge_key c.merge_key same in
      let (texts, count, key', type') = k.taken f key waits.typed in
      let g = frame_append f e in
      let parts : delta_parts g.merge_key g.deltas
          ≡ delta_parts f.merge_key f.deltas ++ delta_parts c.merge_key c.deltas =
        rw (key', texts, ← key) (delta_parts-append f.merge_key f.deltas c.deltas) in
      rw (same, ← parts)
        (merged-IsResult P g (type' ∙ waits.typed ∙ ap (λ k. type_of k.channel) (sym key'))
          (omega (
            arith,
            count,
            waits.counted,
            ap length texts,
            length-append f.deltas c.deltas,
            k.fresh,
          ))
          (omega (arith, count)) (omega (arith, count, waits.room)))
  | inr other ↦ rw other (record {
    pending = candidate-IsPending e c k;
    bounded = (IsPending-IsBounded f waits, tt);
    carries = λ p.
        ap (λ ps. ps ++ delta_parts c.merge_key c.deltas)
          (append-nil (delta_parts f.merge_key f.deltas));
  })
]

emit_or_event-IsResult :
    (e : CoreEvent) (frame : Option DeltaFrame) (Q : Type 0)
    → ¬ Q
    → IsPendingOption frame
    → (ps : List Part) → IsResult Q ps (emit_or_event e frame)
unfolding emit_or_event IsBounded
emit_or_event-IsResult e none Q never waits ps = record {
  pending = tt;
  bounded = (tt, tt);
  carries = λ q. elim (never q) [ ];
}
emit_or_event-IsResult e (some f) Q never waits ps = record {
  pending = tt;
  bounded = (IsPending-IsBounded f waits, tt);
  carries = λ q. elim (never q) [ ];
}

handle_candidate-IsResult :
    (e : CoreEvent) (candidate frame : Option DeltaFrame)
    → ((c : DeltaFrame) → candidate ≡ some c → IsCandidate e c)
    → IsPendingOption frame
    → IsResult
        (is_some candidate ≡ true)
        (frame_parts frame ++ event_parts true e candidate)
        (handle_candidate e candidate frame)
unfolding handle_candidate event_parts
handle_candidate-IsResult e none frame k waits =
    emit_or_event-IsResult e frame _ (ground arith) waits _
handle_candidate-IsResult e (some c) frame k waits =
    merge_delta-IsResult _ e c frame (k c refl) waits

emit_frame-IsResult :
    (P : Type 0) (e : CoreEvent) (frame : Option DeltaFrame)
    → IsPendingOption frame
    → IsResult P (frame_parts frame ++ (whole e ∷ [])) (emit_frame frame ++ (single e ∷ []), none)
unfolding emit_frame all_parts frame_parts IsBounded
emit_frame-IsResult P e none waits = record {
  pending = tt;
  bounded = (tt, tt);
  carries = λ p. refl;
}
emit_frame-IsResult P e (some f) waits = record {
  pending = tt;
  bounded = (IsPending-IsBounded f waits, (tt, tt));
  carries = λ p. append-nil _;
}

on_timeout-IsResult :
    (str : Value → String) (coalesce : Bool) (now : ℕ) (frame : Option DeltaFrame)
    → IsPendingOption frame
    → IsResult Unit
        (frame_parts frame ++ arrival_parts str coalesce (timeout now))
        (on_timeout now frame)
unfolding on_timeout all_parts frame_parts IsBounded arrival_parts
on_timeout-IsResult str coalesce now none waits = record {
  pending = tt;
  bounded = (tt, tt);
  carries = λ p. refl;
}
on_timeout-IsResult str coalesce now (some f) waits =
    elim (Bool-cases (leb (f.started + frame_flush_ms) now)) [
      | inl due ↦ rw due (record {
        pending = tt;
        bounded = (IsPending-IsBounded f waits, tt);
        carries = λ p. append-nil _;
      })
      | inr early ↦
          rw early
            (record { pending = waits; bounded = (tt, tt); carries = λ p. sym (append-nil _) })
    ]

handle_delta-IsResult :
    (str : Value → String) (now : ℕ) (e : CoreEvent) (frame : Option DeltaFrame)
    → IsPendingOption frame
    → IsResult
        (is_some (frame_from_event str now e) ≡ true)
        (frame_parts frame ++ event_parts true e (frame_from_event str now e))
        (handle_delta str now e frame)
unfolding handle_delta
handle_delta-IsResult str now e frame waits =
    handle_candidate-IsResult e (frame_from_event str now e) frame
      (λ c found. frame_from_event-IsCandidate str now e c found) waits

weaken :
    {P Q : Type 0} {ps : List Part} {r : List Emission × Option DeltaFrame}
    → (P → Q)
    → IsResult Q ps r
    → IsResult P ps r
weaken give k = record {
  pending = k.pending;
  bounded = k.bounded;
  carries = λ p. k.carries (give p);
}

on_event-IsResult :
    (str : Value → String) (coalesce : Bool) (now : ℕ) (e : CoreEvent) (frame : Option DeltaFrame)
    → IsPendingOption frame
    → IsResult
        (IsMergeable str (event now e))
        (frame_parts frame ++ arrival_parts str coalesce (event now e))
        (on_event str coalesce now e frame)
unfolding on_event arrival_parts
on_event-IsResult str coalesce now e frame waits =
    elim (Bool-cases (coalesce && is_coalescible e)) [
      | inl on ↦ rw on (
          weaken (λ m. m (both coalesce (is_coalescible e) on).1)
            (handle_delta-IsResult str now e frame waits))
      | inr off ↦ rw off (emit_frame-IsResult _ e frame waits)
    ]

pub on_arrival-IsResult :
    (str : Value → String) (coalesce : Bool) (a : Arrival) (frame : Option DeltaFrame)
    → IsPendingOption frame
    → IsResult
        (IsMergeable str a)
        (frame_parts frame ++ arrival_parts str coalesce a)
        (on_arrival str coalesce a frame)
unfolding on_arrival
on_arrival-IsResult str coalesce (event now e) frame waits =
    on_event-IsResult str coalesce now e frame waits
on_arrival-IsResult str coalesce (timeout now) frame waits =
    on_timeout-IsResult str coalesce now frame waits
