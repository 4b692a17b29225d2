-- ===== src/Service/Sound.antt =====
-- What each operation of a run keeps (src/z_apply_core/integrations/service.py).
use z_apply_core.Prelude.{
  str_eq, ◌||◌, ap, arith, false, ℕ, ◌+◌, String, ◌≡◌, refl, sym, ◌∙◌, subst, Bool, true, some,
  List, [], ◌∷◌, if◌then◌else◌,
}
use z_apply_core.Dict.{Dict}
use z_apply_core.Payload.Json.{Entries}
use z_apply_core.Service.View.{RunOutcome}
use z_apply_core.Service.Sink.{submission_kind}
use z_apply_core.Service.Run.{CoreEvent, Run, Python, make_event, emit, emit_live}

-- The numbers of the events are 1, 2, 3 and so on, each one in one of the two lists, the newest first.
pub data Numbered : ℕ → List CoreEvent → List CoreEvent → Type 0 where
  unsent : Numbered 0 [] []
  sent :
      {m n : ℕ} {es ls : List CoreEvent} (e : CoreEvent)
      → e.sequence ≡ m
      → m ≡ n + 1
      → Numbered n es ls
      → Numbered m (e ∷ es) ls
  sent_live :
      {m n : ℕ} {es ls : List CoreEvent} (e : CoreEvent)
      → e.sequence ≡ m
      → m ≡ n + 1
      → Numbered n es ls
      → Numbered m es (e ∷ ls)

abbrev pub IsNumbered : Run → Type 0
IsNumbered r =
    Numbered r.sequence r.events r.live_events × (r.view.latest_event_sequence ≡ r.sequence)

-- Whether an event of a submission was made.
abbrev pub saw_submission : List CoreEvent → Bool
saw_submission [] = false
saw_submission (e ∷ es) = str_eq e.kind submission_kind || saw_submission es

-- Whether an event of a submission was made, or a report of one was cut off.
abbrev pub seen : Bool → Run → Bool
seen cut r = saw_submission r.events || cut

-- An outcome of a verified submission, and the flag of the sink, come only with an event of a submission, if
-- no report of one was cut off.
pub record IsSound (cut : Bool) (r : Run) : Type 0 where
  pub numbered : IsNumbered r
  pub proved : r.view.outcome ≡ some RunOutcome.submitted_verified → seen cut r ≡ true
  pub flagged : r.sink.submission_completed ≡ true → seen cut r ≡ true

or-more : (a b c : Bool) → (b || c) ≡ true → ((a || b) || c) ≡ true
or-more a b c h = ground arith

or-weaken : (a b c : Bool) → (a || c) ≡ true → (a || (b || c)) ≡ true
or-weaken a b c h = ground arith

pub weaken-IsSound : {cut : Bool} (b : Bool) (r : Run) → IsSound cut r → IsSound (b || cut) r
weaken-IsSound {cut} b r k = record {
  numbered = k.numbered;
  proved = λ o. or-weaken (saw_submission r.events) b cut (k.proved o);
  flagged = λ o. or-weaken (saw_submission r.events) b cut (k.flagged o);
}

pub either_branch :
    {A : Type 0} (P : A → Type 0) (b : Bool) (x y : A) → P x → P y → P (if b then x else y)
either_branch P true x y px py = px
either_branch P false x y px py = py

-- A run that has one event more.
pub sent_one :
    {cut : Bool} (r s : Run) (e : CoreEvent)
    → IsSound cut r
    → s.events ≡ e ∷ r.events
    → s.live_events ≡ r.live_events
    → s.sequence ≡ r.sequence + 1
    → e.sequence ≡ s.sequence
    → s.view.latest_event_sequence ≡ s.sequence
    → s.view.outcome ≡ r.view.outcome
    → s.sink.submission_completed ≡ r.sink.submission_completed
    → IsSound cut s
sent_one {cut} r s e k events live sequence number latest outcome flag = record {
  numbered = (
    subst (λ es. Numbered s.sequence es s.live_events) (sym events)
        (subst (λ ls. Numbered s.sequence (e ∷ r.events) ls) (sym live)
          (sent e number sequence k.numbered.0)),
    latest,
  );
  proved = λ o.
      ap (λ es. saw_submission es || cut) events
      ∙ or-more (str_eq e.kind submission_kind) (saw_submission r.events) cut
          (k.proved (sym outcome ∙ o));
  flagged = λ o.
      ap (λ es. saw_submission es || cut) events
      ∙ or-more (str_eq e.kind submission_kind) (saw_submission r.events) cut
          (k.flagged (sym flag ∙ o));
}

pub emit-IsSound :
    {cut : Bool} (py : Python) (now : ℕ) (kind : String) (payload : Entries) (source : Dict String)
    (level : String) (r : Run)
    → IsSound cut r
    → IsSound cut (emit py now kind payload source level r)
unfolding emit make_event
emit-IsSound py now kind payload source level r k =
    sent_one r _ _ k refl refl refl refl refl refl refl

pub emit_live-IsSound :
    {cut : Bool} (py : Python) (now : ℕ) (kind : String) (payload : Entries) (source : Dict String)
    (r : Run)
    → IsSound cut r
    → IsSound cut (emit_live py now kind payload source r)
unfolding emit_live make_event
emit_live-IsSound py now kind payload source r k = record {
  numbered = (sent_live _ refl refl k.numbered.0, refl);
  proved = k.proved;
  flagged = k.flagged;
}
