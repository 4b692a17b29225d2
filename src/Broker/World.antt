-- ===== src/Broker/World.antt =====
-- The interleavings at one `HumanRequestBroker` (src/z_apply_core/human/broker.py): requests, answers and
-- cancellations that come in any order, and deliveries that are late.
use z_apply_core.Prelude.{
  ℕ, ◌≡◌, inl, inr, String, Bool, false, Option, none, some, List, ◌∷◌, ◌++◌,
}
use z_apply_core.Dict
use z_apply_core.Broker.Request.{BrokerRequest}
use z_apply_core.Broker.Methods.{
  Broker, Claim, BrokerError, register, start_transport, claim_answer, claim_cancel, deliver,
  withdraw,
}

-- The broker, and the requests that were taken out of it and are not delivered yet.
pub record World : Type 0 where
  pub broker : Broker
  pub claims : List Claim

abbrev pub add_claim : Option Claim → List Claim → List Claim
add_claim none cs = cs
add_claim (some c) cs = c ∷ cs

-- What the broker and those who answer do.
pub data Act (w : World) : World → Type 0 where
  -- `uuid4` gives an identifier that no request had before.
  ask :
      (r : BrokerRequest)
      → Dict.has r.request_id w.broker.futures ≡ false
      → Act w (record { broker = register r w.broker; claims = w.claims })
  connect :
      (id : String) → Act w (record { broker = start_transport id w.broker; claims = w.claims })
  -- Any of the ways to answer: the web, and Telegram.
  accept :
      (now : ℕ) (own : Bool) (id answer responder : String) (approved : Option Bool) (c : Claim)
      (b : Broker)
      → claim_answer now own id answer responder approved w.broker ≡ (inr c, b)
      → Act w (record { broker = b; claims = c ∷ w.claims })
  refuse :
      (now : ℕ) (own : Bool) (id answer responder : String) (approved : Option Bool)
      (e : BrokerError) (b : Broker)
      → claim_answer now own id answer responder approved w.broker ≡ (inl e, b)
      → Act w (record { broker = b; claims = w.claims })
  cancel :
      (now : ℕ) (id : String) (o : Option Claim) (b : Broker)
      → claim_cancel now id w.broker ≡ (o, b)
      → Act w (record { broker = b; claims = add_claim o w.claims })
  finish :
      (c : Claim) (before after : List Claim)
      → w.claims ≡ before ++ (c ∷ after)
      → Act w (record { broker = deliver c w.broker; claims = before ++ after })

-- Besides, a requester may be cancelled.
pub data Step (w : World) : World → Type 0 where
  act : {v : World} → Act w v → Step w v
  leave : (id : String) → Step w (record { broker = withdraw id w.broker; claims = w.claims })
