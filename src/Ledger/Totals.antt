-- ===== src/Ledger/Totals.antt =====
-- The totals of a ledger (src/z_apply_core/context/call_ledger.py).
use z_apply_core.Prelude.{
  ℕ, ◌+◌, ◌≤◌, ◌≡◌, refl, ap, sym, ◌∙◌, String, List, [], ◌∷◌, ◌++◌, length, length-append, arith,
}
use z_apply_core.Ledger.Calls.{
  Costs, Call, LedgerEntry, RunCallLedger, new_ledger, entry_of, append_entry, record_call,
  record_all,
}

module _ {C : Type 0} where
  -- The sum over the entries.
  abbrev pub sum : (LedgerEntry C → ℕ) → List (LedgerEntry C) → ℕ
  sum f [] = 0
  sum f (e ∷ es) = f e + sum f es

  -- The costs of the entries, added up from the first one.
  abbrev pub sum_costs : Costs C → C → List (LedgerEntry C) → C
  sum_costs costs c [] = c
  sum_costs costs c (e ∷ es) = sum_costs costs (costs.add c e.cost) es

  -- The numbers from `n` on.
  abbrev pub IsCounted : ℕ → List (LedgerEntry C) → Type 0
  IsCounted n [] = Unit
  IsCounted n (e ∷ es) = (e.sequence ≡ n) × IsCounted (n + 1) es

  sum-append :
      (f : LedgerEntry C → ℕ) (es : List (LedgerEntry C)) (e : LedgerEntry C)
      → sum f (es ++ (e ∷ [])) ≡ sum f es + f e
  sum-append f [] e = omega arith
  sum-append f (x ∷ es) e = omega (arith, sum-append f es e)

  sum_costs-append :
      (costs : Costs C) (c : C) (es : List (LedgerEntry C)) (e : LedgerEntry C)
      → sum_costs costs c (es ++ (e ∷ [])) ≡ costs.add (sum_costs costs c es) e.cost
  sum_costs-append costs c [] e = refl
  sum_costs-append costs c (x ∷ es) e = sum_costs-append costs (costs.add c x.cost) es e

  IsCounted-append :
      (n : ℕ) (es : List (LedgerEntry C)) (e : LedgerEntry C)
      → IsCounted n es
      → e.sequence ≡ length es + n
      → IsCounted n (es ++ (e ∷ []))
  IsCounted-append n [] e k h = (omega (arith, h), tt)
  IsCounted-append n (x ∷ es) e k h = (k.0, IsCounted-append (n + 1) es e k.1 (omega (arith, h)))

-- The totals are those of the entries.
pub record IsTotalled {C : Type 0} (costs : Costs C) (ledger : RunCallLedger C) : Type 0 where
  pub counted : IsCounted 1 ledger.entries
  pub input : ledger.total_input ≡ sum (λ e. e.input_tokens) ledger.entries
  pub output : ledger.total_output ≡ sum (λ e. e.output_tokens) ledger.entries
  pub cache : ledger.total_cache_read ≡ sum (λ e. e.cache_read_tokens) ledger.entries
  pub new : ledger.total_new_input ≡ sum (λ e. e.new_input_tokens) ledger.entries
  pub cost : ledger.total_cost ≡ sum_costs costs costs.nothing ledger.entries
  pub new_less : ledger.total_new_input ≤ ledger.total_input
  pub new_more : ledger.total_input ≤ ledger.total_new_input + ledger.total_cache_read

module _ {C : Type 0} (costs : Costs C) where
  record_call-IsTotalled :
      (call : Call C) (l : RunCallLedger C)
      → IsTotalled costs l
      → IsTotalled costs (record_call costs call l)
  unfolding record_call entry_of append_entry
  record_call-IsTotalled call l k =
      let e = entry_of costs (length l.entries + 1) call in
      record {
        counted = IsCounted-append 1 l.entries e k.counted refl;
        input = omega (arith, k.input, sum-append (λ x. x.input_tokens) l.entries e);
        output = omega (arith, k.output, sum-append (λ x. x.output_tokens) l.entries e);
        cache = omega (arith, k.cache, sum-append (λ x. x.cache_read_tokens) l.entries e);
        new = omega (arith, k.new, sum-append (λ x. x.new_input_tokens) l.entries e);
        cost =
            ap (λ c. costs.add c e.cost) k.cost
            ∙ sym (sum_costs-append costs costs.nothing l.entries e);
        new_less = omega (arith, k.new_less);
        new_more = omega (arith, k.new_more);
      }

  record_all-IsTotalled :
      (calls : List (Call C)) (l : RunCallLedger C)
      → IsTotalled costs l
      → IsTotalled costs (record_all costs calls l)
        × (length (record_all costs calls l).entries ≡ length calls + length l.entries)
  unfolding record_all record_call append_entry
  record_all-IsTotalled [] l k = (k, omega arith)
  record_all-IsTotalled (call ∷ calls) l k =
      let (rest, size) =
        record_all-IsTotalled calls (record_call costs call l) (record_call-IsTotalled call l k) in
      (
        rest,
        omega (
          arith,
          size,
          length-append l.entries (entry_of costs (length l.entries + 1) call ∷ []),
        ),
      )

  -- After any calls on a new ledger, there is an entry for each call, numbered from 1 on, the totals of tokens
  -- are the sums over the entries, the cost is that of the entries added up in order, and the new input is
  -- at most the input and at least the input without the cache reads.
  pub record_all_totals :
      (job_url : String) (calls : List (Call C))
      → IsTotalled costs (record_all costs calls (new_ledger costs job_url))
        × (length (record_all costs calls (new_ledger costs job_url)).entries ≡ length calls)
  unfolding new_ledger
  record_all_totals job_url calls =
      let empty : IsTotalled costs (new_ledger costs job_url) = record {
        counted = tt;
        input = refl;
        output = refl;
        cache = refl;
        new = refl;
        cost = refl;
        new_less = omega arith;
        new_more = omega arith;
      } in
      let (k, size) = record_all-IsTotalled calls (new_ledger costs job_url) empty in
      (k, omega (arith, size))
