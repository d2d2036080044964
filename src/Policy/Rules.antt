-- ===== src/Policy/Rules.antt =====
-- backend/policy.py: the evaluation of the rules. Where Python's float or int raises on a rule's
-- parameter the evaluation ends in that exception, `none`.
use text.Mathlib.Text.{find?}
use domesticoracle.Prelude.{
  ℕ, String, Bool, true, false, ◌&&◌, ◌||◌, Option, none, some, List, [], ◌∷◌, ltb, not, ◌==◌,
  text_eq, if◌then◌else◌,
}
use domesticoracle.Prelude.Int.{ℤ, pos, ltb_ℤ}
use domesticoracle.Python.{
  Python, Num, Json, null, str, num, Dict, get, get_json, get_default, float_of, to_int, num_of,
  ◌<?◌, ◌+?◌, concat,
}

pub data Decision : Type 0 where
  allow hold deny : Decision

-- ALLOW, HOLD, DENY
abbrev pub decision_text : Decision → String
decision_text allow = "allow"
decision_text hold = "hold"
decision_text deny = "deny"

abbrev pub severity : Decision → ℕ
severity allow = 0
severity hold = 1
severity deny = 2

pub record Rule : Type 0 where
  pub id : ℕ
  pub created : ℕ
  pub rule_type : String
  pub params : Dict
  pub source : String
  pub label : String

-- `str(v)` of an argument: a text is itself.
abbrev pub text_of : Python → Json → String
text_of py (str s) = s
text_of py v = py.str_of v

-- `part in whole`
abbrev pub is_within : String → String → Bool
is_within part whole = elim (find? whole part) [ none ↦ false | some _ ↦ true ]

-- `text == v` for a value that may be absent.
abbrev pub is_text : String → Option Json → Bool
is_text s (some (str t)) = s == t
is_text s _ = false

-- The first key that is there decides; a value that does not read as a number counts as 0.
unfoldable pub amount_from : Python → List String → Dict → Num
unfolding float_of
amount_from py [] args = num_of 0
amount_from py (k ∷ keys) args =
    let rest = amount_from py keys args in
    elim (get k args) [
      | none ↦ rest
      | some v ↦ elim (float_of py v) [ none ↦ num_of 0 | some x ↦ x ]
    ]

unfoldable pub amount : Python → Dict → Num
unfolding amount_from
amount py args = amount_from py ("amount" ∷ "cost" ∷ "price" ∷ "total" ∷ []) args

unfoldable pub in_window : ℤ → ℤ → ℤ → Bool
in_window start_hour end_hour now_hour =
    if not (ltb_ℤ end_hour start_hour)
    then not (ltb_ℤ now_hour start_hour) && ltb_ℤ now_hour end_hour
    else not (ltb_ℤ now_hour start_hour) || ltb_ℤ now_hour end_hour

-- What an evaluation looks at: the action, its arguments, the local hour, and what the ledger's
-- sum_today answers for purchases.
pub record Request : Type 0 where
  pub action : String
  pub args : Dict
  pub now_hour : ℕ
  pub spent_today : Num

-- A rule's verdict, if it has one; the outer `none` is an exception.
abbrev pub Verdict : Type 0
Verdict = Option (Option (Decision × String))

module _ (py : Python) (r : Request) where
  unfoldable pub daily_verdict : Json → Verdict
  daily_verdict null = some none
  daily_verdict day_cap = elim (float_of py day_cap) [
    | none ↦ none
    | some limit ↦
        let total = r.spent_today +? amount py r.args in
        some (
          if limit <? total
          then some (
            hold,
            concat (
                "This would bring today's spending to $"
                ∷ py.fixed2 total
                ∷ ", over your $"
                ∷ py.fixed2 limit
                ∷ " daily limit."
                ∷ []),
          )
          else none)
  ]

  abbrev pub purchase_reason : Num → Num → String
  purchase_reason limit amt = concat (
      "Purchase of $"
      ∷ py.fixed2 amt
      ∷ " exceeds your $"
      ∷ py.fixed2 limit
      ∷ " per-purchase limit."
      ∷ [])

  unfoldable pub purchase_verdict : Json → Verdict
  purchase_verdict null = some none
  purchase_verdict cap = elim (float_of py cap) [
    | none ↦ none
    | some limit ↦
        let amt = amount py r.args in
        some (if limit <? amt then some (hold, purchase_reason limit amt) else none)
  ]

  -- By the rule's max_amount and max_per_day.
  unfoldable pub limits_verdict : Json → Json → Verdict
  unfolding daily_verdict purchase_verdict float_of amount
  limits_verdict max_amount max_per_day = elim (purchase_verdict max_amount) [
    | none ↦ none
    | some (some v) ↦ some (some v)
    | some none ↦ daily_verdict max_per_day
  ]

  unfoldable pub spend_verdict : Dict → Verdict
  unfolding limits_verdict
  spend_verdict p = limits_verdict (get_json "max_amount" p) (get_json "max_per_day" p)

  abbrev pub spoken : String → String
  spoken action = if action == "make_purchase" then "make purchase" else "control device"

  unfoldable pub window_verdict : Dict → Verdict
  unfolding to_int in_window
  window_verdict p = elim (to_int py (get_default "start_hour" (num (num_of 23)) p)) [
    | none ↦ none
    | some start_hour ↦ elim (to_int py (get_default "end_hour" (num (num_of 6)) p)) [
      | none ↦ none
      | some end_hour ↦ some (
          if in_window start_hour end_hour (pos r.now_hour)
          then some
              (hold, concat ("It's outside your allowed hours for " ∷ spoken r.action ∷ "." ∷ []))
          else none)
    ]
  ]

  unfoldable pub recipient_verdict : Dict → Verdict
  recipient_verdict p =
      let target = py.lower (text_of py (get_default "recipient" (str "") r.args)) in
      let blocked = py.lower (text_of py (get_default "recipient" (str "") p)) in
      some (
        if (blocked == "all_contacts") || (not (blocked == "") && is_within blocked target)
        then some (
          hold,
          concat (
              "Messaging '"
              ∷ text_of py (get_default "recipient" (str "someone") r.args)
              ∷ "' as you needs approval."
              ∷ []),
        )
        else none)

  -- The verdict of a rule of a type with its params.
  unfoldable pub dispatch : String → Dict → Verdict
  unfolding spend_verdict window_verdict recipient_verdict
  dispatch rule_type p =
      if (rule_type == "spend_limit") && (r.action == "make_purchase")
      then spend_verdict p
      else if (rule_type == "time_window")
          && ((r.action == "make_purchase") || (r.action == "control_device"))
      then window_verdict p
      else if (rule_type == "action_deny") && is_text r.action (get "action" p)
      then some (some (deny, concat ("Your policy blocks '" ∷ r.action ∷ "' outright." ∷ [])))
      else if (rule_type == "recipient_block") && (r.action == "send_message")
      then recipient_verdict p
      else some none

  unfoldable pub rule_verdict : Rule → Verdict
  unfolding dispatch
  rule_verdict rule = dispatch rule.rule_type rule.params

  -- `if verdict and severity[verdict] > severity[decision]`
  abbrev pub escalate : Option (Decision × String) → Decision × String → Decision × String
  escalate none best = best
  escalate (some v) best = if ltb (severity best.0) (severity v.0) then v else best

  unfoldable pub evaluate_from : Decision × String → List Rule → Option (Decision × String)
  evaluate_from best [] = some best
  evaluate_from best (rule ∷ rules) = elim (rule_verdict rule) [
    | none ↦ none
    | some v ↦ evaluate_from (escalate v best) rules
  ]

  unfoldable pub local_evaluate : List Rule → Option (Decision × String)
  unfolding evaluate_from
  local_evaluate rules = evaluate_from (allow, "No policy restricts this action.") rules
