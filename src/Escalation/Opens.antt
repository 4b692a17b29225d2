-- ===== src/Escalation/Opens.antt =====
-- When failed delegations let an agent ask for a fact (src/z_apply_core/agents/delegation_guard.py,
-- src/z_apply_core/agents/human_escalation_guard.py).
use z_apply_core.Prelude.{
  ℕ, ◌+◌, ◌≡◌, refl, String, false, some, List, [], ◌∷◌, mem_str, leb, arith, is_blank, strip,
  if◌then◌else◌, Bool-cases, inl, inr,
}
use z_apply_core.Guard.Call.{ToolCall, field, no_fields, text}
use z_apply_core.Escalation.Ladder.{
  DelegationFailureLadder, record_failure, tripped, Output, is_failed_delegation, after_delegation,
  after_delegations,
}
use z_apply_core.Escalation.Ask.{called, not_for_this_agent, ask_verdict, check_reason}

-- The failed delegations of a list.
unfoldable pub count_failed : String → List (ToolCall × Output) → ℕ
count_failed role [] = 0
count_failed role ((c, o) ∷ rest) =
    (if is_failed_delegation role c o then 1 else 0) + count_failed role rest

-- A question for a candidate fact, about a field.
abbrev pub fact_question : String → String → ToolCall
fact_question id label = record {
  name = "ask_human";
  id = id;
  args =
      field "reason" (text "missing_candidate_fact") (field "field_label" (text label) no_fields);
}

record Moved (n : ℕ) (l m : DelegationFailureLadder) : Type 0 where
  threshold : m.threshold ≡ l.threshold
  count : m.count ≡ l.count + n

delegations-Moved :
    (role : String) (ds : List (ToolCall × Output)) (l : DelegationFailureLadder)
    → Moved (count_failed role ds) l (after_delegations role ds l)
unfolding after_delegations after_delegation count_failed record_failure
delegations-Moved role [] l = record { threshold = refl; count = omega arith }
delegations-Moved role ((c, o) ∷ ds) l = elim (Bool-cases (is_failed_delegation role c o)) [
  | inl on ↦
      let k = delegations-Moved role ds (record_failure l) in
      rw on (record { threshold = k.threshold; count = omega (arith, k.count) })
  | inr off ↦
      let k = delegations-Moved role ds l in
      rw off (record { threshold = k.threshold; count = omega (arith, k.count) })
]

-- For an agent that may not ask for candidate facts, a question for one that names a field goes
-- through exactly when the failed delegations have come to the threshold.
pub ladder_opens :
    (role id label : String) (allowed : List String) (ds : List (ToolCall × Output))
    (l : DelegationFailureLadder)
    → is_blank (strip label) ≡ false
    → mem_str "missing_candidate_fact" allowed ≡ false
    → ask_verdict allowed (some (after_delegations role ds l)) (fact_question id label)
      ≡ (if leb l.threshold (l.count + count_failed role ds) then called else not_for_this_agent)
unfolding ask_verdict check_reason tripped
ladder_opens role id label allowed ds l named other =
    let k = delegations-Moved role ds l in ground (arith, k.threshold, k.count, named, other)
