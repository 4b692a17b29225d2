-- ===== src/Events/Stream.antt =====
-- The whole stream of one observer (src/z_apply_core/integrations/events.py), from its first event on.
use z_apply_core.Prelude.{
  ℕ, ◌≡◌, refl, sym, ap, ◌∙◌, String, Bool, true, Option, none, some, List, [], ◌∷◌, ◌++◌, All,
  All-append, append_assoc, append-nil,
}
use z_apply_core.Events.Event.{Value, CoreEvent, is_coalescible}
use z_apply_core.Events.Frame.{DeltaFrame, frame_from_event}
use z_apply_core.Events.Coalesce.{
  batch, Arrival, event, emit_frame, handle_candidate, handle_delta, emit_or_event, on_event,
  on_arrival, iterate, finish,
}
use z_apply_core.Events.Parts.{
  Part, frame_parts, all_parts, arrival_parts, input_parts, IsMergeable,
}
use z_apply_core.Events.Lossless.{
  IsPendingOption, IsBounded, IsResult, IsPending-IsBounded, all_parts-append, on_arrival-IsResult,
}

-- The parts of two results in turn.
in_turn :
    (xs ys f as' f' bs g : List Part)
    → xs ++ f' ≡ f ++ as'
    → ys ++ g ≡ f' ++ bs
    → (xs ++ ys) ++ g ≡ f ++ (as' ++ bs)
in_turn xs ys f as' f' bs g first second =
    append_assoc xs ys g
    ∙ ap (λ ps. xs ++ ps) second
    ∙ sym (append_assoc xs f' bs)
    ∙ ap (λ ps. ps ++ bs) first
    ∙ append_assoc f as' bs

iterate-IsResult :
    (str : Value → String) (coalesce : Bool) (as' : List Arrival) (frame : Option DeltaFrame)
    → IsPendingOption frame
    → IsResult
        (All (IsMergeable str) as')
        (frame_parts frame ++ input_parts str coalesce as')
        (iterate str coalesce as' frame)
unfolding iterate input_parts all_parts
iterate-IsResult str coalesce [] frame waits = record {
  pending = waits;
  bounded = tt;
  carries = λ p. sym (append-nil (frame_parts frame));
}
iterate-IsResult str coalesce (a ∷ as') frame waits =
    let r = on_arrival str coalesce a frame in
    let s = iterate str coalesce as' r.1 in
    let first = on_arrival-IsResult str coalesce a frame waits in
    let rest = iterate-IsResult str coalesce as' r.1 first.pending in
    record {
      pending = rest.pending;
      bounded = All-append IsBounded r.0 s.0 first.bounded rest.bounded;
      carries = λ p.
          ap (λ ps. ps ++ frame_parts s.1) (all_parts-append r.0 s.0)
          ∙ in_turn (all_parts r.0) (all_parts s.0) (frame_parts frame)
              (arrival_parts str coalesce a) (frame_parts r.1) (input_parts str coalesce as')
              (frame_parts s.1) (first.carries p.0) (rest.carries p.1);
    }

parts-emit_frame : (frame : Option DeltaFrame) → all_parts (emit_frame frame) ≡ frame_parts frame
unfolding all_parts emit_frame frame_parts
parts-emit_frame none = refl
parts-emit_frame (some f) = append-nil _

emit_frame-IsBounded :
    (frame : Option DeltaFrame) → IsPendingOption frame → All IsBounded (emit_frame frame)
unfolding emit_frame
emit_frame-IsBounded none waits = tt
emit_frame-IsBounded (some f) waits = (IsPending-IsBounded f waits, tt)

-- Whatever arrives and whenever, if each delta event can be taken by a frame, the stream carries
-- exactly what arrived: every other event and every delta under its key, each once and in order.
pub coalescing_lossless :
    (str : Value → String) (coalesce : Bool) (as' : List Arrival)
    → All (IsMergeable str) as'
    → all_parts (finish (iterate str coalesce as' none)) ≡ input_parts str coalesce as'
unfolding finish input_parts frame_parts
coalescing_lossless str coalesce as' mergeable =
    let (out, frame) = iterate str coalesce as' none in
    all_parts-append out (emit_frame frame)
    ∙ ap (λ ps. all_parts out ++ ps) (parts-emit_frame frame)
    ∙ (iterate-IsResult str coalesce as' none tt).carries mergeable

-- Whatever arrives and whenever, every frame in the stream has at least one delta and at most 64.
pub frames-IsBounded :
    (str : Value → String) (coalesce : Bool) (as' : List Arrival)
    → All IsBounded (finish (iterate str coalesce as' none))
unfolding finish
frames-IsBounded str coalesce as' =
    let (out, frame) = iterate str coalesce as' none in
    let k = iterate-IsResult str coalesce as' none tt in
    All-append IsBounded out (emit_frame frame) k.bounded (emit_frame-IsBounded frame k.pending)

handle_malformed :
    (str : Value → String) (now : ℕ) (e : CoreEvent) (f : DeltaFrame)
    → is_coalescible e ≡ true
    → frame_from_event str now e ≡ none
    → on_arrival str true (event now e) (some f) ≡ (batch f ∷ [], none)
unfolding on_arrival on_event handle_delta handle_candidate emit_or_event
handle_malformed str now e f kind malformed = rw (kind, malformed) refl

-- What a pending frame does not tell apart, the stream does not.
same_stream :
    (str : Value → String) (a b : Arrival) (after : List Arrival) (f : DeltaFrame)
    → on_arrival str true a (some f) ≡ on_arrival str true b (some f)
    → (before : List Arrival) (frame : Option DeltaFrame)
    → (iterate str true before frame).1 ≡ some f
    → iterate str true (before ++ (a ∷ after)) frame
      ≡ iterate str true (before ++ (b ∷ after)) frame
unfolding iterate
same_stream str a b after f same [] frame waits =
    rw waits
      (ap (λ r. (r.0 ++ (iterate str true after r.1).0, (iterate str true after r.1).1)) same)
same_stream str a b after f same (c ∷ before) frame waits =
    let r = on_arrival str true c frame in
    ap (λ s. (r.0 ++ s.0, s.1)) (same_stream str a b after f same before r.1 waits)

-- While a frame is pending, a delta event that no frame can take is not passed on: the stream is
-- the same for any two such events in its place.
pub malformed_lost :
    (str : Value → String) (now : ℕ) (e e' : CoreEvent) (f : DeltaFrame)
    (before after : List Arrival)
    → (iterate str true before none).1 ≡ some f
    → is_coalescible e ≡ true
    → frame_from_event str now e ≡ none
    → is_coalescible e' ≡ true
    → frame_from_event str now e' ≡ none
    → finish (iterate str true (before ++ (event now e ∷ after)) none)
      ≡ finish (iterate str true (before ++ (event now e' ∷ after)) none)
malformed_lost str now e e' f before after waits kind malformed kind' malformed' = ap finish (
    same_stream str (event now e) (event now e') after f
      (handle_malformed str now e f kind malformed
        ∙ sym (handle_malformed str now e' f kind' malformed'))
      before none waits)
