-- ===== src/Policy/Caching.antt =====
-- The cache of the rules never lags behind the table, and the mode is one of the three.
use domesticoracle.Prelude.{
  ℕ, String, ◌≡◌, true, ◌⊎◌, Option, none, some, List, [], ◌∷◌, arith, text_eq,
}
use domesticoracle.Python.{Python, Dict}
use domesticoracle.Policy.Rules.{Request, local_evaluate}
use domesticoracle.Policy.Store.{
  Policies, is_mode, get_mode, set_mode, add_policy, delete_policy, evaluate,
}

-- The cache is empty or holds the rows, and the mode is unset or known.
pub record IsCurrent (s : Policies) : Type 0 where
  pub fresh : (s.cache ≡ none) ⊎ (s.cache ≡ some s.rows)
  pub known : is_mode (get_mode s) ≡ true

-- What is asked of the policy engine while it runs.
pub data Change : Type 0 where
  ask : Request → Change
  add : ℕ → String → Dict → String → String → Change
  delete : ℕ → Change
  change_mode : String → Change

-- An exception leaves the state as it was.
abbrev pub or_same : Option Policies → Policies → Policies
or_same none s = s
or_same (some s') s = s'

abbrev pub added : Option (ℕ × Policies) → Policies → Policies
added none s = s
added (some (_, s')) s = s'

pub step : Python → Change → Policies → Policies
step py (ask r) s = (evaluate py r s).1
step py (add now rule_type params label source) s =
    added (add_policy now rule_type params label source s) s
step py (delete policy_id) s = (delete_policy policy_id s).1
step py (change_mode mode) s = or_same (set_mode mode s) s

pub run : Python → List Change → Policies → Policies
run py [] s = s
run py (c ∷ changes) s = run py changes (step py c s)

step-IsCurrent : (py : Python) (c : Change) (s : Policies) → IsCurrent s → IsCurrent (step py c s)
unfolding step evaluate add_policy delete_policy set_mode get_mode
step-IsCurrent py (ask r) s v = ground arith
step-IsCurrent py (add now rule_type params label source) s v = ground arith
step-IsCurrent py (delete policy_id) s v = ground arith
step-IsCurrent py (change_mode mode) s v = ground arith

run-IsCurrent :
    (py : Python) (changes : List Change) (s : Policies)
    → IsCurrent s
    → IsCurrent (run py changes s)
unfolding run
run-IsCurrent py [] s v = v
run-IsCurrent py (c ∷ changes) s v =
    run-IsCurrent py changes (step py c s) (step-IsCurrent py c s v)

current_evaluate :
    (py : Python) (r : Request) (s : Policies)
    → IsCurrent s
    → (evaluate py r s).0 ≡ local_evaluate py r s.rows
unfolding evaluate
current_evaluate py r s v = ground arith

-- After any sequence of evaluations, additions, deletions and changes of mode, an evaluation goes
-- by the rules that are stored at that moment, and the mode in force is one of the three.
pub evaluate_sees_changes :
    (py : Python) (changes : List Change) (r : Request) (s : Policies)
    → IsCurrent s
    → let s' = run py changes s in
      ((evaluate py r s').0 ≡ local_evaluate py r s'.rows) × (is_mode (get_mode s') ≡ true)
evaluate_sees_changes py changes r s v =
    let after = run-IsCurrent py changes s v in
    (current_evaluate py r (run py changes s) after, after.known)
