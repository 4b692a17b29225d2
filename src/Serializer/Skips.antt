-- ===== src/Serializer/Skips.antt =====
-- Mutations of a response that come one after the other
-- (src/z_apply_core/agents/browser_mutation_serializer.py): the next one starts when the one before has ended.
use z_apply_core.Prelude.{
  ◌≡◌, refl, ap, sym, ◌∙◌, String, Bool, true, false, none, inl, inr, List, [], ◌∷◌, ◌++◌, mem_str,
  All, arith, Bool-cases, eq_refl,
}
use z_apply_core.Events.Tails.{append_assoc, append_nil}
use z_apply_core.Guard.Call.{ToolCall}
use z_apply_core.Serializer.Batch.{
  Serializer, Event, starts, finishes, run, is_mutation, mutation_ids, begin_response, end_response,
  start_call, finish_call, skip, after_call, grant,
}

abbrev pub calls : List (ToolCall × Bool) → List ToolCall
calls [] = []
calls ((c, _) ∷ cs) = c ∷ calls cs

-- Each call, with whether its tool would fail, is started and ended before the next one.
abbrev pub in_turn : List (ToolCall × Bool) → List Event
in_turn [] = []
in_turn ((c, error) ∷ cs) = starts c ∷ finishes error ∷ in_turn cs

abbrev pub ids : List (ToolCall × Bool) → List String
ids [] = []
ids ((c, _) ∷ cs) = c.id ∷ ids cs

-- The calls up to the first one that fails, that one included, and those after it.
abbrev pub up_to_failure : List (ToolCall × Bool) → List String
up_to_failure [] = []
up_to_failure ((c, true) ∷ cs) = c.id ∷ []
up_to_failure ((c, false) ∷ cs) = c.id ∷ up_to_failure cs

abbrev pub after_failure : List (ToolCall × Bool) → List String
after_failure [] = []
after_failure ((c, true) ∷ cs) = ids cs
after_failure ((c, false) ∷ cs) = after_failure cs

abbrev OfBatch : List String → ToolCall → Type 0
OfBatch batch c = (is_mutation c ≡ true) × (mem_str c.id batch ≡ true)

-- A mutation that comes after a failure is skipped, and its end changes nothing.
turn_skipped :
    (c : ToolCall) (error : Bool) (s : Serializer)
    → OfBatch s.batch_mutation_ids c
    → s.batch_failed ≡ true
    → s.running ≡ none
    → finish_call error (start_call c s) ≡ skip c s
unfolding start_call finish_call after_call skip
turn_skipped c error s batch failed idle =
    rw (batch.0, batch.1, failed) (rw (idle, after_call) refl)

-- One that comes while nothing has failed and the lock is free is executed, and gives the lock back.
turn_executed :
    (c : ToolCall) (error : Bool) (s : Serializer)
    → OfBatch s.batch_mutation_ids c
    → s.batch_failed ≡ false
    → s.running ≡ none
    → s.queue ≡ []
    → finish_call error (start_call c s)
      ≡ record s { batch_failed = error; executed = s.executed ++ (c.id ∷ []) }
unfolding start_call finish_call after_call grant
turn_executed c error s batch clear idle empty =
    ground (arith, batch.0, batch.1, clear, idle, empty)

skipped_in_turn :
    (cs : List (ToolCall × Bool)) (s : Serializer)
    → All (OfBatch s.batch_mutation_ids) (calls cs)
    → s.batch_failed ≡ true
    → s.running ≡ none
    → ((run (in_turn cs) s).executed ≡ s.executed)
      × ((run (in_turn cs) s).skipped ≡ s.skipped ++ ids cs)
unfolding run skip
skipped_in_turn [] s batch failed idle = (refl, sym (append_nil s.skipped))
skipped_in_turn ((c, error) ∷ cs) s batch failed idle =
    let e = turn_skipped c error s batch.0 failed idle in
    let rest = skipped_in_turn cs (skip c s) batch.1 failed idle in
    (
      ap (λ x. (run (in_turn cs) x).executed) e ∙ rest.0,
      ap (λ x. (run (in_turn cs) x).skipped) e
          ∙ rest.1
          ∙ append_assoc s.skipped (c.id ∷ []) (ids cs),
    )

run_in_turn :
    (cs : List (ToolCall × Bool)) (s : Serializer)
    → All (OfBatch s.batch_mutation_ids) (calls cs)
    → s.batch_failed ≡ false
    → s.running ≡ none
    → s.queue ≡ []
    → ((run (in_turn cs) s).executed ≡ s.executed ++ up_to_failure cs)
      × ((run (in_turn cs) s).skipped ≡ s.skipped ++ after_failure cs)
unfolding run
run_in_turn [] s batch clear idle empty = (sym (append_nil s.executed), sym (append_nil s.skipped))
run_in_turn ((c, true) ∷ cs) s batch clear idle empty =
    let e = turn_executed c true s batch.0 clear idle empty in
    let t : Serializer = record s { batch_failed = true; executed = s.executed ++ (c.id ∷ []) } in
    let rest = skipped_in_turn cs t batch.1 refl idle in
    (
      ap (λ x. (run (in_turn cs) x).executed) e ∙ rest.0,
      ap (λ x. (run (in_turn cs) x).skipped) e ∙ rest.1,
    )
run_in_turn ((c, false) ∷ cs) s batch clear idle empty =
    let e = turn_executed c false s batch.0 clear idle empty in
    let t : Serializer = record s { batch_failed = false; executed = s.executed ++ (c.id ∷ []) } in
    let rest = run_in_turn cs t batch.1 refl idle empty in
    (
      ap (λ x. (run (in_turn cs) x).executed) e
          ∙ rest.0
          ∙ append_assoc s.executed (c.id ∷ []) (up_to_failure cs),
      ap (λ x. (run (in_turn cs) x).skipped) e ∙ rest.1,
    )

abbrev Mutations : List ToolCall → Type 0
Mutations cs = All (λ c. is_mutation c ≡ true) cs

mem-later :
    (x : String) (c : ToolCall) (cs : List ToolCall)
    → mem_str x (mutation_ids cs) ≡ true
    → mem_str x (mutation_ids (c ∷ cs)) ≡ true
unfolding mutation_ids mem_str
mem-later x c cs h = elim (Bool-cases (is_mutation c)) [
  | inl yes' ↦ ground (arith, yes', h)
  | inr no' ↦ rw no' h
]

OfBatch-later :
    (c : ToolCall) (ds cs : List ToolCall)
    → All (OfBatch (mutation_ids cs)) ds
    → All (OfBatch (mutation_ids (c ∷ cs))) ds
OfBatch-later c [] cs k = tt
OfBatch-later c (d ∷ ds) cs k = ((k.0.0, mem-later d.id c cs k.0.1), OfBatch-later c ds cs k.1)

Mutations-OfBatch : (cs : List ToolCall) → Mutations cs → All (OfBatch (mutation_ids cs)) cs
unfolding mutation_ids mem_str
Mutations-OfBatch [] k = tt
Mutations-OfBatch (c ∷ cs) k =
    ((k.0, rw (k.0) (simp eq_refl refl)), OfBatch-later c cs cs (Mutations-OfBatch cs k.1))

-- The response is given, then its calls come.
abbrev pub after_response : List (ToolCall × Bool) → Serializer → Serializer
after_response cs s = run (in_turn cs) (end_response (calls cs) (begin_response s))

-- A response of mutations only, which the model gives while no call holds the lock or waits, and whose
-- calls come one after the other: those up to and including the first one that fails are executed, in
-- their order, and all after it are skipped, in theirs, whatever the responses before were.
pub executed_up_to_failure :
    (cs : List (ToolCall × Bool)) (s : Serializer)
    → Mutations (calls cs)
    → s.running ≡ none
    → s.queue ≡ []
    → ((after_response cs s).executed ≡ s.executed ++ up_to_failure cs)
      × ((after_response cs s).skipped ≡ s.skipped ++ after_failure cs)
unfolding end_response begin_response
executed_up_to_failure cs s mutations idle empty =
    run_in_turn cs (end_response (calls cs) (begin_response s))
      (Mutations-OfBatch (calls cs) mutations) refl idle empty
