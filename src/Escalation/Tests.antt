-- ===== src/Escalation/Tests.antt =====
-- Two empty delegations, and the theorem at them (src/z_apply_core/agents/delegation_guard.py).
use z_apply_core.Prelude.{◌+◌, ◌≡◌, refl, some, List, [], ◌∷◌, leb, if◌then◌else◌, strip, mem_str}
use z_apply_core.Guard.Call.{ToolCall, text, field, no_fields}
use z_apply_core.Escalation.Ladder.{DelegationFailureLadder, Output, message, after_delegations}
use z_apply_core.Escalation.Ask.{ask_verdict, called, not_for_this_agent}
use z_apply_core.Escalation.Opens.{fact_question, count_failed, ladder_opens}

abbrev empty_twice : List (ToolCall × Output)
empty_twice =
    (
      record {
        name = "task";
        id = "1";
        args = field "subagent_type" (text "AnswerWriter") no_fields;
      },
      message " ",
    )
    ∷ (
      record {
        name = "task";
        id = "2";
        args = field "subagent_type" (text "AnswerWriter") no_fields;
      },
      message "",
    )
    ∷ []

abbrev ladder : DelegationFailureLadder
ladder = record { threshold = 2; count = 0 }

ladder_opens_example :
    ask_verdict
      ("human_challenge" ∷ [])
      (some (after_delegations "AnswerWriter" empty_twice ladder))
      (fact_question "3" "Salary")
    ≡ (if leb 2 (0 + count_failed "AnswerWriter" empty_twice) then called else not_for_this_agent)
unfolding strip mem_str
ladder_opens_example =
    ladder_opens "AnswerWriter" "3" "Salary" ("human_challenge" ∷ []) empty_twice ladder refl refl
