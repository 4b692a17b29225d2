-- ===== src/Broker/Tests.antt =====
-- A broker with one question, and the theorems at it.
use z_apply_core.Prelude.{
  ◌+◌, ◌≤◌, ◌≡◌, ◌≢◌, inr, refl, String, true, false, none, some, List, [], ◌∷◌, mem_str, strip,
}
use z_apply_core.Dict
use z_apply_core.Star.{Star, here, next}
use z_apply_core.Broker.Request.{BrokerRequest, make_request, resolved}
use z_apply_core.Broker.Methods.{
  Broker, Claim, Notice, resolution, BrokerError, Future, waiting, result, claim_answer,
  claim_cancel, deliver, decision, resolve_submission, register, check_answer,
}
use z_apply_core.Broker.World.{World, Act, ask, cancel, Step, act, leave}
use z_apply_core.Broker.Counts.{count_pending, count_claims, count_resolutions}
use z_apply_core.Broker.Claims.{without}
use z_apply_core.Broker.Once.{IsOnce, idle, reported_once, idle-IsOnce, Step-IsOnce}
use z_apply_core.Broker.Channel.{ask_question, confirm_question, confirm_result}
use z_apply_core.Broker.Outcomes.{answer_stays, answer_arrives, confirm-resolve_submission}
use z_apply_core.Broker.Stranded.{bad_option_strands}

abbrev same : String → String
same s = s

abbrev notice_period : BrokerRequest
notice_period =
    make_request same "run" "q1" 5
      (ask_question " Notice period? " "" (" Immediate" ∷ " " ∷ "30 days" ∷ []) "low" "" "" "")

options_test : notice_period.options ≡ ("Immediate" ∷ "30 days" ∷ [])
unfolding make_request ask_question strip
options_test = refl

abbrev asked : World
asked = record { broker = register notice_period (idle "run" true).broker; claims = [] }

asking : Star Step (idle "run" true) asked
unfolding Dict.has make_request
asking = next here (act (ask notice_period refl))

reported_once_example :
    count_pending "q1" asked.broker.pending
      + count_claims "q1" asked.claims
      + count_resolutions "q1" asked.broker.notices
    ≤ 1
reported_once_example = reported_once "run" true asked "q1" asking

asked-IsOnce : IsOnce asked
unfolding Dict.has make_request
asked-IsOnce =
    Step-IsOnce (idle "run" true) asked (act (ask notice_period refl)) (idle-IsOnce "run" true)

pending_now : Dict.get "q1" asked.broker.pending ≡ some notice_period
unfolding register Dict.get Dict.put make_request
pending_now = refl

waits_now : Dict.get "q1" asked.broker.futures ≡ some waiting
unfolding register Dict.get Dict.put make_request
waits_now = refl

listed : mem_str "30 days" notice_period.options ≡ true
unfolding make_request ask_question strip mem_str
listed = refl

answer_arrives_example :
    (c : Claim) × (claim_answer 9 false "q1" "30 days" "web" none asked.broker
      ≡ (inr c, without "q1" asked.broker))
    × (Dict.get "q1" (without "q1" asked.broker).pending ≡ none)
    × (Dict.get "q1" (deliver c (without "q1" asked.broker)).futures ≡ some (result "30 days"))
    × (c.request ≡ record notice_period {
      status = resolved;
      answer = some "30 days";
      approved = none;
      responder = some "web";
      resolved_at = some 9;
    })
    × (before : List Notice) × ((deliver c (without "q1" asked.broker)).notices
        ≡ resolution c.request ∷ before)
unfolding make_request
answer_arrives_example =
    answer_arrives 9 false "q1" "30 days" "web" none asked.broker notice_period pending_now refl
      waits_now refl (inr listed)

some_options : notice_period.options ≢ []
unfolding make_request ask_question strip
some_options e = cc

unlisted : mem_str "Never" notice_period.options ≡ false
unfolding make_request ask_question strip mem_str
unlisted = refl

abbrev refused : World
refused = record {
  broker = (claim_answer 9 false "q1" "Never" "web" none asked.broker).1;
  claims = [];
}

abbrev later : World
later = record { broker = (claim_cancel 10 "q1" refused.broker).1; claims = [] }

-- A cancellation after the refusal finds no request.
cancelling : Star Act refused later
unfolding claim_cancel claim_answer register Dict.get Dict.put Dict.remove make_request ask_question
    strip mem_str
cancelling = next here (cancel 10 "q1" none (claim_cancel 10 "q1" refused.broker).1 refl)

bad_option_strands_example : Dict.get "q1" later.broker.futures ≡ some waiting
bad_option_strands_example =
    bad_option_strands 9 false "q1" "Never" "web" none notice_period asked later asked-IsOnce
      pending_now waits_now refl some_options unlisted cancelling

-- A broker whose only requester has its answer.
abbrev answered : World
answered = record asked { broker = record asked.broker { futures = ("q1", result "30 days") ∷ [] } }

has_answer : Dict.get "q1" answered.broker.futures ≡ some (result "30 days")
unfolding Dict.get
has_answer = refl

abbrev left_by : World
left_by = record { broker = z_apply_core.Broker.Methods.withdraw "q1" answered.broker; claims = [] }

answer_stays_example : Dict.get "q1" left_by.broker.futures ≡ some (result "30 days")
answer_stays_example = answer_stays answered left_by "q1" "30 days" (leave "q1") has_answer

abbrev approval_request : BrokerRequest
approval_request = make_request same "run" "q2" 6 (confirm_question "Submit?" "")

abbrev deciding : Broker
deciding = register approval_request (idle "run" false).broker

deciding_pending : Dict.get "q2" deciding.pending ≡ some approval_request
unfolding register Dict.get Dict.put make_request
deciding_pending = refl

deciding_waits : Dict.get "q2" deciding.futures ≡ some waiting
unfolding register Dict.get Dict.put make_request
deciding_waits = refl

confirm-resolve_submission_example :
    (c : Claim) × (resolve_submission 7 "q2" false "web" deciding ≡ (inr c, without "q2" deciding))
    × (Dict.get "q2" (deliver c (without "q2" deciding)).futures ≡ some (result (decision false)))
    × (confirm_result (decision false) ≡ false)
    × (c.request.approved ≡ some false)
confirm-resolve_submission_example =
    confirm-resolve_submission same "run" "q2" "Submit?" "" "web" 6 7 deciding false
      deciding_pending deciding_waits
