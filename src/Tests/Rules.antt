-- ===== src/Tests/Rules.antt =====
-- The policy engine at concrete inputs.
use mathlib.Core.List.{Perm}
use mathlib.Core.List.Perm
use domesticoracle.Prelude.{String, ◌≡◌, ◌≢◌, refl, true, inl, none, some, List, [], ◌∷◌}
use domesticoracle.Python.{end, field, str, num, num_of, nan, get, float_of}
use domesticoracle.Policy.{
  Rule, Request, allow, hold, deny, Policies, enforced, local_evaluate, evaluate_from, rule_verdict,
  dispatch, evaluate, get_mode, is_mode, amount, amount_from, spend_verdict, limits_verdict,
  purchase_verdict, daily_verdict,
}
use domesticoracle.Policy.Severity.{decision_of, evaluate_order}
use domesticoracle.Policy.Spending.{purchase_over_cap_not_allowed}
use domesticoracle.Policy.Caching.{
  IsCurrent, run, ask, add, delete, change_mode, Change, evaluate_sees_changes,
}
use domesticoracle.Tests.Host.{host}

abbrev buy : Request
buy = record {
  action = "make_purchase";
  args = field "amount" (num (num_of 80)) end;
  now_hour = 12;
  spent_today = num_of 0;
}

abbrev over_fifty : Rule
over_fifty = record {
  id = 1;
  created = 0;
  rule_type = "spend_limit";
  params = field "max_amount" (num (num_of 50)) end;
  source = "user";
  label = "";
}

abbrev never_buy : Rule
never_buy = record {
  id = 2;
  created = 0;
  rule_type = "action_deny";
  params = field "action" (str "make_purchase") end;
  source = "user";
  label = "";
}

rules_swap : Perm (over_fifty ∷ never_buy ∷ []) (never_buy ∷ over_fifty ∷ [])
rules_swap = Perm.swap never_buy over_fifty []

evaluate_order_example :
    decision_of (local_evaluate host buy (over_fifty ∷ never_buy ∷ []))
    ≡ decision_of (local_evaluate host buy (never_buy ∷ over_fifty ∷ []))
evaluate_order_example =
    evaluate_order host buy (over_fifty ∷ never_buy ∷ []) (never_buy ∷ over_fifty ∷ []) rules_swap

one_rule : (why : String) × (local_evaluate host buy (over_fifty ∷ []) ≡ some (hold, why))
unfolding local_evaluate evaluate_from rule_verdict dispatch get spend_verdict limits_verdict
    purchase_verdict amount amount_from float_of daily_verdict
one_rule = (_, refl)

two_rules :
    (why : String) × (local_evaluate host buy (over_fifty ∷ never_buy ∷ []) ≡ some (deny, why))
unfolding local_evaluate evaluate_from rule_verdict dispatch get spend_verdict limits_verdict
    purchase_verdict amount amount_from float_of daily_verdict
two_rules = (_, refl)

purchase_over_cap_not_allowed_example : deny ≢ allow
purchase_over_cap_not_allowed_example =
    purchase_over_cap_not_allowed host buy over_fifty [] (never_buy ∷ []) (num_of 50)
      (deny, two_rules.0) refl refl (unfold get in refl)
      (unfold amount amount_from get float_of in refl) two_rules.1

abbrev buy_nan : Request
buy_nan = record buy { args = field "amount" (num nan) end }

abbrev policies : Policies
policies = record { rows = []; last_id = 0; mode = some enforced; cache = none }

policies-IsCurrent : IsCurrent policies
unfolding get_mode
policies-IsCurrent = record { fresh = inl refl; known = refl }

abbrev changes : List Change
changes =
    ask buy
    ∷ add 5 "spend_limit" over_fifty.params "" "user"
    ∷ ask buy
    ∷ delete 1
    ∷ change_mode "audit_only"
    ∷ []

evaluate_sees_changes_example :
    let s' = run host changes policies in
    ((evaluate host buy s').0 ≡ local_evaluate host buy s'.rows) × (is_mode (get_mode s') ≡ true)
evaluate_sees_changes_example = evaluate_sees_changes host changes buy policies policies-IsCurrent
