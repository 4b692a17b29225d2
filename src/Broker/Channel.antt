-- ===== src/Broker/Channel.antt =====
-- `BrokeredHumanChannel` (src/z_apply_core/human/broker.py): what it asks, and how it reads an answer. The
-- company, role and address go to Telegram only.
use z_apply_core.Prelude.{String, Bool, List, [], ◌∷◌, str_eq}
use z_apply_core.Broker.Request.{Question}

-- `ask`
unfoldable pub ask_question :
    String → String → List String → String → String → String → String → Question
ask_question question context options risk image_path field_label reason = record {
  kind = "question";
  question = question;
  context = context;
  options = options;
  risk = risk;
  image_path = image_path;
  field_label = field_label;
  reason = reason;
}

-- `confirm`
unfoldable pub confirm_question : String → String → Question
confirm_question question context = record {
  kind = "submission_approval";
  question = question;
  context = context;
  options = "Approve" ∷ "Reject" ∷ [];
  risk = "high";
  image_path = "";
  field_label = "";
  reason = "";
}

unfoldable pub confirm_result : String → Bool
confirm_result answer = str_eq answer "Approve"
