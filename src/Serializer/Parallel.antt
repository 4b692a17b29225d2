-- ===== src/Serializer/Parallel.antt =====
-- Calls of one response that start together (src/z_apply_core/agents/browser_mutation_serializer.py).
use z_apply_core.Prelude.{
  ◌≡◌, refl, sym, ap, ◌∙◌, String, Bool, true, false, ◌&&◌, ◌||◌, none, some, List, [], ◌∷◌, ◌++◌,
  mem_str, All, arith, length, length-append, ◌+◌,
}
use z_apply_core.Events.Tails.{append_assoc, append_nil}
use z_apply_core.Guard.Call.{ToolCall}
use z_apply_core.Serializer.Batch.{
  Serializer, Event, starts, finishes, run, is_mutation, start_call, finish_call, grant, after_call,
}

unfoldable pub all_start : List ToolCall → List Event
all_start [] = []
all_start (c ∷ cs) = starts c ∷ all_start cs

unfoldable pub all_finish : List Bool → List Event
all_finish [] = []
all_finish (e ∷ es) = finishes e ∷ all_finish es

unfoldable pub ids : List ToolCall → List String
ids [] = []
ids (c ∷ cs) = c.id ∷ ids cs

-- While a call holds the lock and no mutation of the batch has failed, a mutation that starts waits.
start_waits :
    (c d : ToolCall) (s : Serializer)
    → s.batch_failed ≡ false
    → s.running ≡ some d
    → is_mutation c ≡ true
    → start_call c s ≡ record s { running = some d; queue = s.queue ++ (c ∷ []) }
unfolding start_call grant
start_waits c d s clear held mutation = ground (arith, clear, held, mutation)

finish_next :
    (e : Bool) (c d : ToolCall) (cs : List ToolCall) (s : Serializer)
    → s.running ≡ some c
    → s.queue ≡ d ∷ cs
    → finish_call e s ≡ record s {
      batch_failed = s.batch_failed || (mem_str c.id s.batch_mutation_ids && e);
      running = some d;
      queue = cs;
      executed = s.executed ++ (d.id ∷ []);
    }
unfolding finish_call after_call grant
finish_next e c d cs s held waits =
    let b = s.batch_failed || (mem_str c.id s.batch_mutation_ids && e) in
    ap (λ r. after_call e r s) held ∙ ap (λ q. grant none q (record s { batch_failed = b })) waits

-- The waiters get the lock in turn, whatever the results are.
waiters_run :
    (cs : List ToolCall) (errors : List Bool) (c : ToolCall) (s : Serializer)
    → s.running ≡ some c
    → s.queue ≡ cs
    → length errors ≡ length cs
    → (run (all_finish errors) s).executed ≡ s.executed ++ ids cs
unfolding run all_finish ids
waiters_run [] [] c s held waits same = sym (append_nil s.executed)
waiters_run [] (e ∷ errors) c s held waits same = ground arith
waiters_run (d ∷ cs) [] c s held waits same = ground arith
waiters_run (d ∷ cs) (e ∷ errors) c s held waits same =
    let t : Serializer = record s {
      batch_failed = s.batch_failed || (mem_str c.id s.batch_mutation_ids && e);
      running = some d;
      queue = cs;
      executed = s.executed ++ (d.id ∷ []);
    } in
    ap (λ x. (run (all_finish errors) x).executed) (finish_next e c d cs s held waits)
    ∙ waiters_run cs errors d t refl refl (ground (arith, same))
    ∙ append_assoc s.executed (d.id ∷ []) (ids cs)

ids-append : (xs ys : List ToolCall) → ids (xs ++ ys) ≡ ids xs ++ ids ys
unfolding ids
ids-append [] ys = refl
ids-append (x ∷ xs) ys = ap (λ zs. x.id ∷ zs) (ids-append xs ys)

starters_wait :
    (cs : List ToolCall) (errors : List Bool) (c : ToolCall) (s : Serializer)
    → s.batch_failed ≡ false
    → s.running ≡ some c
    → All (λ d. is_mutation d ≡ true) cs
    → length errors ≡ length s.queue + length cs
    → (run (all_start cs ++ all_finish errors) s).executed ≡ (s.executed ++ ids s.queue) ++ ids cs
unfolding run all_start ids
starters_wait [] errors c s clear held mutations same =
    waiters_run s.queue errors c s held refl (omega (arith, same)) ∙ sym (append_nil _)
starters_wait (d ∷ cs) errors c s clear held mutations same =
    let t : Serializer = record s { running = some c; queue = s.queue ++ (d ∷ []) } in
    ap (λ x. (run (all_start cs ++ all_finish errors) x).executed)
      (start_waits d c s clear held mutations.0)
    ∙ starters_wait cs errors c t clear refl mutations.1
        (omega (arith, same, length-append s.queue (d ∷ [])))
    ∙ ap (λ xs. (s.executed ++ xs) ++ ids cs) (ids-append s.queue (d ∷ []))
    ∙ ap (λ xs. xs ++ ids cs) (sym (append_assoc s.executed (ids s.queue) (d.id ∷ [])))
    ∙ append_assoc (s.executed ++ ids s.queue) (d.id ∷ []) (ids cs)

start_idle :
    (c : ToolCall) (s : Serializer)
    → s.batch_failed ≡ false
    → s.running ≡ none
    → s.queue ≡ []
    → is_mutation c ≡ true
    → start_call c s
      ≡ record s { running = some c; queue = []; executed = s.executed ++ (c.id ∷ []) }
unfolding start_call grant
start_idle c s clear idle empty mutation = ground (arith, clear, idle, empty, mutation)

-- When mutations of a response start together, before the first has ended, and the lock is free,
-- they are executed one after the other in their order, each once, whatever the results of those
-- before are, errors included.
pub parallel_calls_run :
    (c : ToolCall) (cs : List ToolCall) (errors : List Bool) (s : Serializer)
    → s.batch_failed ≡ false
    → s.running ≡ none
    → s.queue ≡ []
    → All (λ d. is_mutation d ≡ true) (c ∷ cs)
    → length errors ≡ length cs
    → (run (all_start (c ∷ cs) ++ all_finish errors) s).executed ≡ s.executed ++ ids (c ∷ cs)
unfolding run all_start ids
parallel_calls_run c cs errors s clear idle empty mutations same =
    let t : Serializer = record s {
      running = some c;
      queue = [];
      executed = s.executed ++ (c.id ∷ []);
    } in
    ap (λ x. (run (all_start cs ++ all_finish errors) x).executed)
      (start_idle c s clear idle empty mutations.0)
    ∙ starters_wait cs errors c t clear refl mutations.1 (omega (arith, same))
    ∙ ap (λ xs. xs ++ ids cs) (append_nil (s.executed ++ (c.id ∷ [])))
    ∙ append_assoc s.executed (c.id ∷ []) (ids cs)
