-- ===== src/Slots/Leasing.antt =====
-- What the pool's operations keep, and what `acquire` hands out.
use z_apply_core.Prelude.{
  ℕ, zero, suc, ◌≡◌, ◌⊎◌, inl, inr, refl, String, true, false, Option, none, some, List, [], ◌∷◌,
  ◌∙◌, ◌++◌, ap, All, Option-cases, Bool-cases, ◌==◌,
}
use z_apply_core.Slots.Profile.{Profile, Host, SlotError, verify_manifest}
use z_apply_core.Slots.Slot.{
  Slot, SlotState, pristine, leased, resetting, quarantined, is_pristine, mark_leased, clear_lease,
  reset, quarantine,
}
use z_apply_core.Slots.Pool.{
  after_lease, SlotPool, Disk, slots_from, provision_slots, provision, lease_first, acquire,
  release_slot, release_at, release,
}
use z_apply_core.Slots.Reset.{SoundAt, IsSound, reset_outcome}

abbrev pub IsSoundPool : Host → SlotPool → Type 0
IsSoundPool h p = All (IsSound h) p.slots

-- Ready to be leased: pristine, and sound as such.
abbrev pub IsReady : Host → Slot → Type 0
IsReady h s = (s.state ≡ pristine) × SoundAt h s pristine

module _ (h : Host) where
  soundness : (s : Slot) (st : SlotState) → s.state ≡ st → SoundAt h s st → IsSound h s
  soundness s st e k = rw e k

  soundness_of : (s : Slot) (st : SlotState) → s.state ≡ st → IsSound h s → SoundAt h s st
  soundness_of s st e k = rw e at k

  -- What `reset` says of a slot once the caller has cleared its lease or its marker.
  reset_ready :
      (master : Option Profile) (s : Slot)
      → (reset h master s).0 ≡ none
      → ((reset h master s).1.state ≡ pristine)
        × (verify_manifest h true (reset h master s).1.profile ≡ none)
  reset_ready master s e = elim (reset_outcome h master s).0 [
    | inl ok ↦ (ok.1, ok.2)
    | inr bad ↦ cc (bad.1)
  ]

  reset_raised :
      (master : Option Profile) (s : Slot) (x : SlotError)
      → (reset h master s).0 ≡ some x
      → (reset h master s).1.state ≡ quarantined
  reset_raised master s x e = elim (reset_outcome h master s).0 [
    | inl ok ↦ cc (ok.0)
    | inr bad ↦ bad.2
  ]

  provision_slots-IsReady :
      (master : Option Profile) (ss : List Slot)
      → All (λ s. s.run_id ≡ none) ss
      → (provision_slots h master ss).0 ≡ none
      → All (IsReady h) (provision_slots h master ss).1
  unfolding provision_slots
  provision_slots-IsReady master [] n e = tt
  provision_slots-IsReady master (s ∷ ss) n e = elim (Option-cases (reset h master s).0) [
    | inl done ↦
        rw (done, All)
          (
            (
              (reset_ready master s done).0,
              ((reset_outcome h master s).1 ∙ n.0, refl, (reset_ready master s done).1),
            ),
            provision_slots-IsReady master ss n.1 (rw (done, provision_slots) at e),
          )
    | inr (x, raised) ↦ cc (raised, e)
  ]

  slots_from_fresh : (disk : Disk) (n i : ℕ) → All (λ s. s.run_id ≡ none) (slots_from disk n i)
  unfolding slots_from
  slots_from_fresh disk zero i = tt
  slots_from_fresh disk (suc n) i = (refl, slots_from_fresh disk n (suc i))

  -- When `provision` returns, whatever the directories and markers of an earlier process held, each
  -- slot is pristine, names no run, has no lease marker, and its profile passes the checks.
  pub provision-IsReady :
      (master : Option Profile) (disk : Disk) (n : ℕ)
      → (provision h master disk n).0 ≡ none
      → All (IsReady h) (provision h master disk n).1.slots
  unfolding provision
  provision-IsReady master disk n e =
      provision_slots-IsReady master (slots_from disk n 0) (slots_from_fresh disk n 0) e

abbrev pub IsBusy : Slot → Type 0
IsBusy s = is_pristine s.state ≡ false

-- The slots `ss'` are `ss` with the first pristine one leased to the run as `t`.
pub record LeasesFirst (run : String) (ss : List Slot) (t : Slot) (ss' : List Slot) : Type 0 where
  pub before : List Slot
  pub chosen : Slot
  pub after : List Slot
  pub split : ss ≡ before ++ (chosen ∷ after)
  pub busy : All IsBusy before
  pub free : chosen.state ≡ pristine
  pub marked : t ≡ mark_leased run chosen
  pub result : ss' ≡ before ++ (t ∷ after)

abbrev pub FirstFree : String → List Slot → Option (Slot × List Slot) → Type 0
FirstFree run ss none = All IsBusy ss
FirstFree run ss (some (t, ss')) = LeasesFirst run ss t ss'

pristine_of : (st : SlotState) → is_pristine st ≡ true → st ≡ pristine
unfolding is_pristine
pristine_of pristine e = refl
pristine_of leased e = cc
pristine_of resetting e = cc
pristine_of quarantined e = cc

abbrev onto : Slot → Option (Slot × List Slot) → Option (Slot × List Slot)
onto s o = elim o [ none ↦ none | some (t, ts) ↦ some (t, s ∷ ts) ]

FirstFree-onto :
    (run : String) (s : Slot) (ss : List Slot) (o : Option (Slot × List Slot))
    → IsBusy s
    → FirstFree run ss o
    → FirstFree run (s ∷ ss) (onto s o)
FirstFree-onto run s ss none b f = (b, f)
FirstFree-onto run s ss (some (t, ts)) b f = record {
  before = s ∷ f.before;
  chosen = f.chosen;
  after = f.after;
  split = ap (◌∷◌ s) f.split;
  busy = (b, f.busy);
  free = f.free;
  marked = f.marked;
  result = ap (◌∷◌ s) f.result;
}

lease_first_lem : (run : String) (ss : List Slot) → FirstFree run ss (lease_first run ss)
unfolding lease_first
lease_first_lem run [] = tt
lease_first_lem run (s ∷ ss) = elim (Bool-cases (is_pristine s.state)) [
  | inl free ↦ rw free (record {
    before = [];
    chosen = s;
    after = ss;
    split = refl;
    busy = tt;
    free = pristine_of s.state free;
    marked = refl;
    result = refl;
  })
  | inr busy ↦ rw busy (FirstFree-onto run s ss (lease_first run ss) busy (lease_first_lem run ss))
]

lease_first-skips :
    (run : String) (before : List Slot) (s : Slot) (after : List Slot)
    → All IsBusy before
    → is_pristine s.state ≡ true
    → lease_first run (before ++ (s ∷ after))
      ≡ some (mark_leased run s, before ++ (mark_leased run s ∷ after))
unfolding lease_first
lease_first-skips run [] s after busy free = rw free refl
lease_first-skips run (b ∷ before) s after busy free =
    rw (busy.0, lease_first-skips run before s after busy.1 free) refl

module _ (P : Slot → Type 0) where
  All-replace :
      (before after : List Slot) {s t : Slot}
      → (P s → P t)
      → All P (before ++ (s ∷ after))
      → All P (before ++ (t ∷ after))
  All-replace [] after f k = (f k.0, k.1)
  All-replace (b ∷ before) after f k = (k.0, All-replace before after f k.1)

-- What `acquire` returns and leaves.
abbrev pub TakesFirst : String → SlotPool → Option Slot × SlotPool → Type 0
TakesFirst run p (o, q) =
    (o ≡ none) × (q ≡ p) × All IsBusy p.slots
    ⊎ (t : Slot) × (o ≡ some t) × (q.master ≡ p.master) × LeasesFirst run p.slots t q.slots

-- `acquire` returns no slot, and then the pool is as it was and none of its slots is pristine; or it
-- returns the first pristine slot, marked for the run inside and in its marker, and every other slot is
-- as it was.
pub acquire_first : (run : String) (p : SlotPool) → TakesFirst run p (acquire run p)
unfolding acquire
acquire_first run p = go (lease_first run p.slots) (lease_first_lem run p.slots)
  where
    go :
        (o : Option (Slot × List Slot))
        → FirstFree run p.slots o
        → TakesFirst run p (after_lease p o)
    go none f = inl (refl, refl, f)
    go (some (t, ss)) f = inr (t, refl, refl, f)

module _ (h : Host) where
  LeasesFirst-IsSound :
      (run : String) (ss ss' : List Slot) (t : Slot)
      → LeasesFirst run ss t ss'
      → All (IsSound h) ss
      → All (IsSound h) ss'
  unfolding mark_leased
  LeasesFirst-IsSound run ss ss' t f k = rw f.result (
      All-replace (IsSound h) f.before f.after (λ _. rw f.marked (run, refl, refl))
        (rw f.split at k))

  -- A pool whose slots are sound stays so when a run asks for a slot, whether it gets one or not.
  pub acquire-IsSoundPool :
      (run : String) (p : SlotPool) → IsSoundPool h p → IsSoundPool h (acquire run p).1
  acquire-IsSoundPool run p k = elim (acquire_first run p) [
    | inl (_, same, _) ↦ rw same k
    | inr (t, _, _, f) ↦ LeasesFirst-IsSound run p.slots (acquire run p).1.slots t f k
  ]

  release_slot-IsReady :
      (master : Option Profile) (s : Slot)
      → (release_slot h master s).0 ≡ none
      → IsReady h (release_slot h master s).1
  unfolding release_slot clear_lease
  release_slot-IsReady master s e = elim (Option-cases (reset h master s).0) [
    | inl done ↦ rw (done, release_slot) (refl, (refl, refl, (reset_ready h master s done).1))
    | inr (x, raised) ↦ cc (raised, e)
  ]

  release_slot-IsSound :
      (master : Option Profile) (s : Slot) → IsSound h (release_slot h master s).1
  unfolding release_slot clear_lease
  release_slot-IsSound master s = elim (Option-cases (reset h master s).0) [
    | inl done ↦ rw (done, release_slot) (refl, refl, (reset_ready h master s done).1)
    | inr (x, raised) ↦ rw (raised, release_slot) (rw (reset_raised h master s x raised) tt)
  ]

  release_at-IsSound :
      (master : Option Profile) (i : ℕ) (ss : List Slot)
      → All (IsSound h) ss
      → All (IsSound h) (release_at h master i ss).1
  unfolding release_at
  release_at-IsSound master i [] k = tt
  release_at-IsSound master i (s ∷ ss) k = elim (Bool-cases (s.index == i)) [
    | inl here ↦ rw (here, All) (release_slot-IsSound master s, k.1)
    | inr there ↦ rw (there, All) (k.0, release_at-IsSound master i ss k.1)
  ]

  -- A pool whose slots are sound stays so when a slot is released, whether its reset succeeds or
  -- raises.
  pub release-IsSoundPool :
      (i : ℕ) (p : SlotPool) → IsSoundPool h p → IsSoundPool h (release h i p).1
  unfolding release
  release-IsSoundPool i p k = release_at-IsSound p.master i p.slots k

-- `quarantine` does not withdraw its slot. In a pool of any slots, where those before it are busy, the
-- next run that asks gets the slot that was quarantined, with the profile for which it was.
pub quarantine-acquire :
    (run : String) (before : List Slot) (s : Slot) (after : List Slot) (master : Option Profile)
    → All IsBusy before
    → (acquire run (record { master = master; slots = before ++ (quarantine s ∷ after) }) ≡ (
      some (mark_leased run (quarantine s)),
      record { master = master; slots = before ++ (mark_leased run (quarantine s) ∷ after) },
    ))
      × ((mark_leased run (quarantine s)).profile ≡ s.profile)
unfolding acquire quarantine is_pristine mark_leased
quarantine-acquire run before s after master busy = (
  ap (after_lease (record { master = master; slots = before ++ (quarantine s ∷ after) }))
      (lease_first-skips run before (quarantine s) after busy refl),
  refl,
)
