-- ===== src/Broker/Request.antt =====
-- `BrokerRequest` and the part of `HumanRequestBroker.request` that builds one
-- (src/z_apply_core/human/broker.py). `sanitize_human_text` (z_apply_core/human/sanitize.py), the clock and
-- `uuid4` are arguments.
use z_apply_core.Prelude.{
  ℕ, String, Bool, true, false, Option, none, List, [], ◌∷◌, is_blank, strip, replace,
  if◌then◌else◌,
}

pub data Status : Type 0 where
  pending resolved cancelled : Status

pub record BrokerRequest : Type 0 where
  pub request_id : String
  pub run_id : String
  pub kind : String
  pub question : String
  pub context : String
  pub options : List String
  pub risk : String
  pub allow_free_text : Bool
  pub image_path : String
  pub created_at : ℕ
  pub status : Status
  pub answer : Option String
  pub approved : Option Bool
  pub responder : Option String
  pub resolved_at : Option ℕ
  pub field_label : String
  pub reason : String

-- The arguments of `request` that its record keeps.
pub record Question : Type 0 where
  pub kind : String
  pub question : String
  pub context : String
  pub options : List String
  pub risk : String
  pub image_path : String
  pub field_label : String
  pub reason : String

-- `tuple(value.strip() for value in options if value.strip())`
unfoldable pub clean_options : List String → List String
clean_options [] = []
clean_options (value ∷ values) =
    let rest = clean_options values in if is_blank (strip value) then rest else strip value ∷ rest

abbrev pub no_options : List String → Bool
no_options [] = true
no_options _ = false

unfoldable pub shown_question : (String → String) → Question → String
shown_question sanitize q = sanitize (
    if is_blank q.image_path
    then strip q.question
    else replace q.image_path "the attached image" (strip q.question))

unfoldable pub make_request : (String → String) → String → String → ℕ → Question → BrokerRequest
unfolding clean_options shown_question
make_request sanitize run request_id now q = record {
  request_id = request_id;
  run_id = run;
  kind = q.kind;
  question = shown_question sanitize q;
  context = sanitize (strip q.context);
  options = clean_options q.options;
  risk = q.risk;
  allow_free_text = no_options (clean_options q.options);
  image_path = q.image_path;
  created_at = now;
  status = pending;
  answer = none;
  approved = none;
  responder = none;
  resolved_at = none;
  field_label = q.field_label;
  reason = q.reason;
}
