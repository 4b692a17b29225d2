-- ===== src/Ledger/Tests.antt =====
-- A ledger at work (src/z_apply_core/context/call_ledger.py), with whole costs.
use z_apply_core.Prelude.{ℕ, ◌+◌, ◌≡◌, refl, none, some, List, [], ◌∷◌, length}
use z_apply_core.Payload.Json.{number}
use z_apply_core.Ledger.Calls.{
  ℤ, pos, negsuc, Costs, Call, new_ledger, record_call, record_all, entry_of, append_entry,
}
use z_apply_core.Ledger.Totals.{IsTotalled, record_all_totals}

abbrev whole : Costs ℕ
whole = record {
  nothing = 0;
  add = λ a b. a + b;
  round6 = λ a. a;
  estimate = λ provider input output cache. input + output;
  show = number;
}

abbrev call_with : ℤ → ℤ → Call ℕ
call_with input cache = record {
  agent = "orchestrator";
  model_id = "m";
  provider = "p";
  input_tokens = input;
  output_tokens = pos 7;
  cache_read_tokens = cache;
  ttft_ms = none;
  duration_ms = some 900;
  gateway_cost_usd = none;
}

-- The second call reports more cache reads than input, the third a negative number.
abbrev three_calls : List (Call ℕ)
three_calls =
    call_with (pos 100) (pos 60) ∷ call_with (pos 10) (pos 30) ∷ call_with (negsuc 4) (pos 0) ∷ []

new_input_test : (record_all whole three_calls (new_ledger whole "")).total_new_input ≡ 40
unfolding record_all new_ledger record_call entry_of append_entry
new_input_test = refl

record_all_totals_example :
    IsTotalled whole (record_all whole three_calls (new_ledger whole ""))
    × (length (record_all whole three_calls (new_ledger whole "")).entries ≡ 3)
record_all_totals_example = record_all_totals whole "" three_calls
