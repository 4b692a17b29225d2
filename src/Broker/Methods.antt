-- ===== src/Broker/Methods.antt =====
-- `HumanRequestBroker` (src/z_apply_core/human/broker.py), each method cut where it gives up control: the
-- section that holds the lock takes the request out of `_pending`, and the delivery after it touches
-- only what was taken. What the hooks and Telegram are told is a list of notices, the latest first.
use z_apply_core.Prelude.{
  ℕ, String, Bool, true, false, ◌&&◌, not, Option, none, some, List, [], ◌∷◌, str_eq, mem_str,
  is_blank, strip, if◌then◌else◌, ◌⊎◌, inl, inr,
}
use z_apply_core.Dict
use z_apply_core.Dict.{Dict}
use z_apply_core.Broker.Request.{resolved, cancelled, BrokerRequest, no_options}

-- The future that `request` awaits.
pub data Future : Type 0 where
  waiting : Future
  result : String → Future
  withdrawn : Future

pub data Notice : Type 0 where
  requested resolution : BrokerRequest → Notice
  telegram_cancelled transport_cancelled : String → Notice

pub record Broker : Type 0 where
  pub run_id : String
  pub telegram : Bool
  pub pending : Dict BrokerRequest
  pub futures : Dict Future
  pub transports : Dict Bool
  pub notices : List Notice

-- A request that was taken out of `_pending`, as it will be reported, and what is still to be done.
pub record Claim : Type 0 where
  pub request : BrokerRequest
  pub outcome : Future
  pub tell_telegram : Bool
  pub stop_transport : Bool

pub data BrokerError : Type 0 where
  empty_answer unknown_request not_an_option : BrokerError

-- `request` up to its first `await`: the request is pending and its future waits. The hook is told.
unfoldable pub register : BrokerRequest → Broker → Broker
register r b = record b {
  pending = Dict.put r.request_id r b.pending;
  futures = Dict.put r.request_id waiting b.futures;
  notices = requested r ∷ b.notices;
}

-- `request` after the hook: the Telegram task.
unfoldable pub start_transport : String → Broker → Broker
start_transport id b =
    if b.telegram then record b { transports = Dict.put id true b.transports } else b

abbrev pub is_running : Option Bool → Bool
is_running (some true) = true
is_running _ = false

-- The locked section of `_resolve` for a request that is pending.
unfoldable pub check_answer :
    ℕ → Bool → String → String → Option Bool → Broker → BrokerRequest → (BrokerError ⊎ Claim)
check_answer now own answer responder approved b r =
    if not (no_options r.options) && not (mem_str answer r.options)
    then inl not_an_option
    else inr (record {
      request = record r {
        status = resolved;
        answer = some answer;
        approved = approved;
        responder = some responder;
        resolved_at = some now;
      };
      outcome = result answer;
      tell_telegram = not (str_eq responder "telegram") && b.telegram;
      stop_transport = is_running (Dict.get r.request_id b.transports) && not own;
    })

abbrev pub resolve_found :
    ℕ
    → Bool
    → String
    → String
    → String
    → Option Bool
    → Broker
    → Option BrokerRequest
    → (BrokerError ⊎ Claim) × Broker
resolve_found now own id answer responder approved b none = (inl unknown_request, b)
resolve_found now own id answer responder approved b (some r) = (
  check_answer now own answer responder approved b r,
  record b { pending = Dict.remove id b.pending },
)

-- `_resolve` up to the end of its lock. `own` is whether the caller is the request's Telegram task.
unfoldable pub claim_answer :
    ℕ → Bool → String → String → String → Option Bool → Broker → (BrokerError ⊎ Claim) × Broker
unfolding check_answer
claim_answer now own id answer responder approved b =
    if is_blank answer
    then (inl empty_answer, b)
    else resolve_found now own id answer responder approved b (Dict.get id b.pending)

-- `resolve_answer` and `resolve_submission`
unfoldable pub resolve_answer :
    ℕ → String → String → String → Broker → (BrokerError ⊎ Claim) × Broker
unfolding claim_answer
resolve_answer now id answer responder b = claim_answer now false id (strip answer) responder none b

unfoldable pub decision : Bool → String
decision true = "Approve"
decision false = "Reject"

unfoldable pub resolve_submission :
    ℕ → String → Bool → String → Broker → (BrokerError ⊎ Claim) × Broker
unfolding claim_answer decision
resolve_submission now id approved responder b =
    claim_answer now false id (decision approved) responder (some approved) b

-- `_wait_for_telegram` when the answer comes; a missing request is ignored there.
unfoldable pub telegram_answer :
    ℕ → BrokerRequest → String → Broker → (BrokerError ⊎ Claim) × Broker
unfolding claim_answer
telegram_answer now r answer b =
    claim_answer now true r.request_id answer "telegram"
      (if str_eq r.kind "submission_approval" then some (str_eq answer "Approve") else none) b

abbrev pub cancel_found : ℕ → String → Broker → Option BrokerRequest → Option Claim × Broker
cancel_found now id b none = (none, b)
cancel_found now id b (some r) = (
  some (record {
    request = record r { status = cancelled; resolved_at = some now };
    outcome = withdrawn;
    tell_telegram = b.telegram;
    stop_transport = is_running (Dict.get r.request_id b.transports);
  }),
  record b { pending = Dict.remove id b.pending },
)

-- `cancel` up to the end of its lock.
unfoldable pub claim_cancel : ℕ → String → Broker → Option Claim × Broker
claim_cancel now id b = cancel_found now id b (Dict.get id b.pending)

-- `if not future.done(): …`
unfoldable pub settle : Future → Option Future → Future
settle f (some (result a)) = result a
settle f (some withdrawn) = withdrawn
settle f _ = f

unfoldable pub note_if : Bool → Notice → List Notice → List Notice
note_if true n ns = n ∷ ns
note_if false n ns = ns

-- The rest of `_resolve` and of `cancel`.
unfoldable pub deliver : Claim → Broker → Broker
unfolding settle note_if
deliver c b =
    let id = c.request.request_id in
    record b {
      futures = Dict.put id (settle c.outcome (Dict.get id b.futures)) b.futures;
      transports = if c.stop_transport then Dict.put id false b.transports else b.transports;
      notices =
          resolution c.request
          ∷ note_if c.stop_transport (transport_cancelled id)
              (note_if c.tell_telegram (telegram_cancelled id) b.notices);
    }

-- The requester is cancelled while it awaits: its future is withdrawn, and `request` calls `cancel`.
unfoldable pub withdraw : String → Broker → Broker
unfolding settle
withdraw id b = record b {
  futures = Dict.put id (settle withdrawn (Dict.get id b.futures)) b.futures;
}

-- `cancel`, with nobody in between.
deliver_claim : Option Claim × Broker → Broker
unfolding deliver
deliver_claim (none, b) = b
deliver_claim (some c, b) = deliver c b

unfoldable pub cancel : ℕ → String → Broker → Broker
unfolding claim_cancel deliver_claim
cancel now id b = deliver_claim (claim_cancel now id b)

-- The loop of `close` over the requests that are pending at its start.
cancel_all : ℕ → Dict BrokerRequest → Broker → Broker
unfolding cancel
cancel_all now [] b = b
cancel_all now ((id, _) ∷ rest) b = cancel_all now rest (cancel now id b)

unfoldable pub close : ℕ → Broker → Broker
unfolding cancel_all
close now b = cancel_all now b.pending b
