-- ===== src/Guard/Refusals.antt =====
-- When `NoProgressGuardMiddleware` refuses a call (src/z_apply_core/agents/no_progress_guard.py).
use z_apply_core.Prelude.{
  ℕ, ◌≤◌, ◌≡◌, refl, ap, ◌∙◌, String, Bool, true, false, ◌&&◌, not, none, some, is_some, List, [],
  ◌∷◌, str_eq, mem_str, arith, if◌then◌else◌, Bool-cases, inl, inr, ◌⊎◌, eq_iff, eq_refl,
}
use z_apply_core.Guard.Call.{
  ToolCall, Library, state_action_signature, read_signature, is_repeatable_identical_call,
  browser_changing_tool_names, identical_call_exempt_tool_names,
}
use z_apply_core.Guard.State.{
  Guard, Denial, state_action_circuit, identical_call, read_repeat, count_attempt, attempts, decide,
  same_text, is_read_repeat,
}
use z_apply_core.Guard.Wrap.{Surroundings, wrap_refreshed, result_of, executes}
use z_apply_core.Guard.Denials.{conclude_executed}

-- A chain of refusals refuses by each of its tests.
pub refuses :
    (a b z : Bool) (x y v : Denial)
    → ((b ≡ true) ⊎ (z ≡ true))
    → executes (if a then some x else if b then some y else if z then some v else none) ≡ false
refuses true b z x y v h = refl
refuses false true z x y v h = refl
refuses false false true x y v h = refl
refuses false false false x y v (inl h) = ground arith
refuses false false false x y v (inr h) = ground arith

pub decide_read :
    (l : Library) (c : ToolCall) (n : ℕ) (action : String) (g : Guard) (s : String)
    → g.last_read_signature ≡ some s
    → read_signature l c ≡ some s
    → executes (decide l c n action g) ≡ false
unfolding decide is_read_repeat same_text
decide_read l c n action g s last read =
    let repeat : is_read_repeat (read_signature l c) g ≡ true =
      rw read (ap (same_text (some s)) last ∙ eq_refl s) in
    refuses (g.has_browser && mem_str action g.blocked_state_actions)
      (g.has_browser && is_some g.browser_signature && is_repeatable_identical_call c n)
      (is_read_repeat (read_signature l c) g) state_action_circuit identical_call read_repeat
      (inr repeat)

-- A call is not made if the chain refuses it.
pub wrap_refused :
    (l : Library) (c : ToolCall) (w : Surroundings) (g : Guard)
    → ((n : ℕ) (action : String)
        → n ≡ attempts action g
        → action ≡ state_action_signature l g.browser_signature c
        → executes (decide l c n action (count_attempt action g)) ≡ false)
    → (wrap_refreshed l c w g).executed ≡ false
unfolding wrap_refreshed
wrap_refused l c w g refused =
    let action = state_action_signature l g.browser_signature c in
    let d = decide l c (attempts action g) action (count_attempt action g) in
    conclude_executed l c g.browser_signature action w.after (executes d) (result_of c w.handled d)
      (count_attempt action g)
    ∙ refused (attempts action g) action refl refl

abbrev disjoint : List String → List String → Bool
disjoint [] ys = true
disjoint (x ∷ xs) ys = not (mem_str x ys) && disjoint xs ys

disjoint_lem :
    (s : String) (xs ys : List String)
    → disjoint xs ys ≡ true
    → mem_str s xs ≡ true
    → mem_str s ys ≡ false
unfolding mem_str
disjoint_lem s [] ys apart here' = ground arith
disjoint_lem s (x ∷ xs) ys apart here' = elim (Bool-cases (str_eq s x)) [
  | inl same ↦ ap (λ t. mem_str t ys) ((eq_iff s x).0 same) ∙ ground (arith, apart)
  | inr other ↦ disjoint_lem s xs ys (ground (arith, apart)) (ground (arith, here', other))
]

no_changing_tool_exempt :
    disjoint browser_changing_tool_names identical_call_exempt_tool_names ≡ true
unfolding mem_str
no_changing_tool_exempt = refl

pub decide_identical :
    (l : Library) (c : ToolCall) (n : ℕ) (action page : String) (g : Guard)
    → 1 ≤ n
    → g.has_browser ≡ true
    → g.browser_signature ≡ some page
    → mem_str c.name browser_changing_tool_names ≡ true
    → executes (decide l c n action g) ≡ false
unfolding decide is_repeatable_identical_call
decide_identical l c n action page g pos on seen name =
    let free =
      disjoint_lem c.name browser_changing_tool_names identical_call_exempt_tool_names
        no_changing_tool_exempt name in
    let known : is_some g.browser_signature ≡ true = rw seen refl in
    let again : (g.has_browser && is_some g.browser_signature && is_repeatable_identical_call c n)
        ≡ true =
      ground (arith, on, known, pos, name, free) in
    refuses (g.has_browser && mem_str action g.blocked_state_actions)
      (g.has_browser && is_some g.browser_signature && is_repeatable_identical_call c n)
      (is_read_repeat (read_signature l c) g) state_action_circuit identical_call read_repeat
      (inl again)
