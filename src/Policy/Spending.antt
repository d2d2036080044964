-- ===== src/Policy/Spending.antt =====
-- backend/policy.py: what the spending limits hold, and what passes them.
use domesticoracle.Prelude.{
  String, ◌≡◌, ◌≢◌, refl, true, false, ◌⊎◌, inl, inr, none, some, List, ◌∷◌, ◌++◌, ap, ◌∙◌, arith,
  text_eq,
}
use domesticoracle.Python.{
  Python, Num, nan, Json, null, num, Dict, get_json, ◌<?◌, ◌+?◌, fin, inf, neg_inf,
}
use domesticoracle.Policy.Rules.{
  Decision, allow, hold, Rule, Request, amount, purchase_reason, limits_verdict, spend_verdict,
  dispatch, rule_verdict, local_evaluate,
}
use domesticoracle.Policy.Severity.{held_not_allowed}

module _ (py : Python) (r : Request) where
  purchase_rule :
      (rule_type : String) (p : Dict)
      → rule_type ≡ "spend_limit"
      → r.action ≡ "make_purchase"
      → dispatch py r rule_type p
        ≡ limits_verdict py r (get_json "max_amount" p) (get_json "max_per_day" p)
  unfolding dispatch
  purchase_rule rule_type p t a = rw (t, a)

  over_limit :
      (limit : Num) (daily : Json)
      → (limit <? amount py r.args) ≡ true
      → (why : String) × (limits_verdict py r (num limit) daily ≡ some (some (hold, why)))
  unfolding limits_verdict
  over_limit limit daily over = (purchase_reason py r limit (amount py r.args), ground arith)

  over_cap :
      (rule_type : String) (p : Dict) (limit : Num)
      → rule_type ≡ "spend_limit"
      → r.action ≡ "make_purchase"
      → get_json "max_amount" p ≡ num limit
      → (limit <? amount py r.args) ≡ true
      → (why : String) × (dispatch py r rule_type p ≡ some (some (hold, why)))
  over_cap rule_type p limit t a c over =
      let (why, said) = over_limit limit (get_json "max_per_day" p) over in
      (
        why,
        purchase_rule rule_type p t a
            ∙ ap (λ (j : Json). limits_verdict py r j (get_json "max_per_day" p)) c
            ∙ said,
      )

  -- A purchase of more than a rule's cap is never allowed outright, whatever the other rules are.
  pub purchase_over_cap_not_allowed :
      (rule : Rule) (before behind : List Rule) (limit : Num) (v : Decision × String)
      → rule.rule_type ≡ "spend_limit"
      → r.action ≡ "make_purchase"
      → get_json "max_amount" rule.params ≡ num limit
      → (limit <? amount py r.args) ≡ true
      → local_evaluate py r (before ++ rule ∷ behind) ≡ some v
      → v.0 ≢ allow
  unfolding rule_verdict
  purchase_over_cap_not_allowed rule before behind limit v t a c over h =
      let (why, said) = over_cap rule.rule_type rule.params limit t a c over in
      held_not_allowed py r rule before behind v why said h

  nan_sum : (x : Num) → x +? nan ≡ nan
  nan_sum (fin k) = refl
  nan_sum inf = refl
  nan_sum neg_inf = refl
  nan_sum nan = refl

  not_below_nan : (x : Num) → (x <? nan) ≡ false
  not_below_nan (fin k) = refl
  not_below_nan inf = refl
  not_below_nan neg_inf = refl
  not_below_nan nan = refl

  -- A limit that is absent or a number.
  abbrev pub IsLimit : Json → Type 0
  IsLimit v = (v ≡ null) ⊎ ((x : Num) × (v ≡ num x))

  nan_passes :
      (x y : Json)
      → amount py r.args ≡ nan
      → IsLimit x
      → IsLimit y
      → limits_verdict py r x y ≡ some none
  unfolding limits_verdict
  nan_passes x y a (inl c) (inl d) = rw (c, d)
  nan_passes x y a (inl c) (inr (m, d)) =
      rw (c, d) (ground (arith, nan_sum r.spent_today, not_below_nan m))
  nan_passes x y a (inr (k, c)) (inl d) = rw (c, d) (ground (arith, not_below_nan k))
  nan_passes x y a (inr (k, c)) (inr (m, d)) =
      rw (c, d) (ground (arith, nan_sum r.spent_today, not_below_nan k, not_below_nan m))

  -- An amount that is not a number passes every spending rule: no cap and no daily limit has a
  -- verdict on it.
  pub nan_passes_spend_limits :
      (p : Dict)
      → amount py r.args ≡ nan
      → IsLimit (get_json "max_amount" p)
      → IsLimit (get_json "max_per_day" p)
      → spend_verdict py r p ≡ some none
  unfolding spend_verdict
  nan_passes_spend_limits p a c d =
      nan_passes (get_json "max_amount" p) (get_json "max_per_day" p) a c d
