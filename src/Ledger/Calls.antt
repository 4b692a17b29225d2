-- ===== src/Ledger/Calls.antt =====
-- `RunCallLedger` (src/z_apply_core/context/call_ledger.py). A cost is a float of Python: its type and what is
-- done with it are parameters, and so is the rate card of `estimate_cost`.
use z_apply_core.Prelude.{ℕ, ◌+◌, ◌-◌, String, Option, none, some, List, [], ◌∷◌, ◌++◌, length}
use z_apply_core.Payload.Json.{
  Json, number, text, list, dict, Items, no_items, item, Entries, no_entries, entry,
}
use z_apply_core.Service.View.{nullable}

-- Python's `int`: `negsuc n` is -(n + 1).
pub data ℤ : Type 0 where
  pos negsuc : ℕ → ℤ

-- `max(0, n)`
abbrev pub at_least_0 : ℤ → ℕ
at_least_0 (pos n) = n
at_least_0 (negsuc n) = 0

-- `round6` is `round(cost, 6)`, `show` the number in a record.
pub record Costs (C : Type 0) : Type 0 where
  pub nothing : C
  pub add : C → C → C
  pub round6 : C → C
  pub estimate : String → ℕ → ℕ → ℕ → C
  pub show : C → Json

pub record Call (C : Type 0) : Type 0 where
  pub agent : String
  pub model_id : String
  pub provider : String
  pub input_tokens : ℤ
  pub output_tokens : ℤ
  pub cache_read_tokens : ℤ
  pub ttft_ms : Option ℕ
  pub duration_ms : Option ℕ
  pub gateway_cost_usd : Option C

pub record LedgerEntry (C : Type 0) : Type 0 where
  pub sequence : ℕ
  pub agent : String
  pub model_id : String
  pub provider : String
  pub input_tokens : ℕ
  pub output_tokens : ℕ
  pub cache_read_tokens : ℕ
  pub new_input_tokens : ℕ
  pub ttft_ms : Option ℕ
  pub duration_ms : Option ℕ
  pub gateway_cost_usd : Option C
  pub cost : C

pub record RunCallLedger (C : Type 0) : Type 0 where
  pub job_url : String
  pub terminal_reason : String
  pub entries : List (LedgerEntry C)
  pub total_input : ℕ
  pub total_output : ℕ
  pub total_cache_read : ℕ
  pub total_new_input : ℕ
  pub total_cost : C

module _ {C : Type 0} (costs : Costs C) where
  unfoldable pub new_ledger : String → RunCallLedger C
  new_ledger job_url = record {
    job_url = job_url;
    terminal_reason = "";
    entries = [];
    total_input = 0;
    total_output = 0;
    total_cache_read = 0;
    total_new_input = 0;
    total_cost = costs.nothing;
  }

  -- The cost that the gateway reports, rounded, or the estimate.
  abbrev pub cost_of : Option C → C → C
  cost_of none estimate = estimate
  cost_of (some usd) estimate = costs.round6 usd

  abbrev pub rounded : Option C → Option C
  rounded none = none
  rounded (some usd) = some (costs.round6 usd)

  unfoldable pub entry_of : ℕ → Call C → LedgerEntry C
  entry_of sequence call =
      let input = at_least_0 call.input_tokens in
      let output = at_least_0 call.output_tokens in
      let cache = at_least_0 call.cache_read_tokens in
      record {
        sequence = sequence;
        agent = call.agent;
        model_id = call.model_id;
        provider = call.provider;
        input_tokens = input;
        output_tokens = output;
        cache_read_tokens = cache;
        new_input_tokens = input - cache;
        ttft_ms = call.ttft_ms;
        duration_ms = call.duration_ms;
        gateway_cost_usd = rounded call.gateway_cost_usd;
        cost = cost_of call.gateway_cost_usd (costs.estimate call.provider input output cache);
      }

  -- The end of `record`: the entry is appended, and the totals grow by it.
  unfoldable pub append_entry : LedgerEntry C → RunCallLedger C → RunCallLedger C
  append_entry e ledger = record ledger {
    entries = ledger.entries ++ (e ∷ []);
    total_input = ledger.total_input + e.input_tokens;
    total_output = ledger.total_output + e.output_tokens;
    total_cache_read = ledger.total_cache_read + e.cache_read_tokens;
    total_new_input = ledger.total_new_input + e.new_input_tokens;
    total_cost = costs.add ledger.total_cost e.cost;
  }

  -- `record`
  unfoldable pub record_call : Call C → RunCallLedger C → RunCallLedger C
  unfolding entry_of append_entry
  record_call call ledger = append_entry (entry_of (length ledger.entries + 1) call) ledger

  unfoldable pub record_all : List (Call C) → RunCallLedger C → RunCallLedger C
  unfolding record_call
  record_all [] ledger = ledger
  record_all (call ∷ calls) ledger = record_all calls (record_call call ledger)

  -- `set_terminal_reason`
  unfoldable pub set_terminal_reason : String → RunCallLedger C → RunCallLedger C
  set_terminal_reason reason ledger = record ledger { terminal_reason = reason }

  unfoldable pub call_record : LedgerEntry C → Json
  call_record e = dict (
      entry "sequence" (number e.sequence) (
        entry "agent" (text e.agent) (
          entry "model" (text e.model_id) (
            entry "provider" (text e.provider) (
              entry "input_tokens" (number e.input_tokens) (
                entry "output_tokens" (number e.output_tokens) (
                  entry "cache_read_tokens" (number e.cache_read_tokens) (
                    entry "new_input_tokens" (number e.new_input_tokens) (
                      entry "ttft_ms" (nullable number e.ttft_ms) (
                        entry "duration_ms" (nullable number e.duration_ms) (
                          entry "cost_usd" (costs.show e.cost) (
                            entry "gateway_cost_usd" (nullable costs.show e.gateway_cost_usd)
                              no_entries))))))))))))

  unfoldable pub call_records : List (LedgerEntry C) → Items
  unfolding call_record
  call_records [] = no_items
  call_records (e ∷ es) = item (call_record e) (call_records es)

  -- `to_record`; `ended_at` is the time of the call.
  unfoldable pub to_record : String → String → String → RunCallLedger C → Entries
  unfolding call_records
  to_record ended_at run_id status ledger = entry "run_id" (text run_id) (
      entry "job_url" (text ledger.job_url) (
        entry "status" (text status) (
          entry "terminal_reason" (text ledger.terminal_reason) (
            entry "ended_at" (text ended_at) (
              entry "calls" (list (call_records ledger.entries)) (
                entry "totals"
                  (dict (
                    entry "calls" (number (length ledger.entries)) (
                      entry "input_tokens" (number ledger.total_input) (
                        entry "output_tokens" (number ledger.total_output) (
                          entry "cache_read_tokens" (number ledger.total_cache_read) (
                            entry "new_input_tokens" (number ledger.total_new_input) (
                              entry "cost_usd" (costs.show (costs.round6 ledger.total_cost))
                                no_entries)))))))
                  no_entries))))))
