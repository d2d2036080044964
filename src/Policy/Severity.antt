-- ===== src/Policy/Severity.antt =====
-- An evaluation returns the most severe of the rules' verdicts.
use mathlib.Core.List.{Perm, Permᴰ}
use mathlib.Core.Logic.{∥∥₁_elim}
use mathlib.Core.Path.{ap₂}
use native.Mathlib.Nat.{ℕ_set}
use domesticoracle.Prelude.Table.{eq_refl}
use domesticoracle.Prelude.{
  ℕ, ◌≤◌, String, ◌≡◌, ◌≢◌, refl, sym, ◌∙◌, Option, none, some, List, [], ◌∷◌, ◌++◌, ap, arith, ltb,
  text_eq, if◌then◌else◌,
}
use domesticoracle.Python.{Python, Dict, get, str}
use domesticoracle.Policy.Rules.{
  Decision, allow, hold, deny, severity, Rule, Request, rule_verdict, dispatch, escalate,
  evaluate_from, local_evaluate,
}

abbrev pub decision_of : Option (Decision × String) → Option Decision
decision_of none = none
decision_of (some (d, _)) = some d

abbrev rank_of : Option (Decision × String) → Option ℕ
rank_of none = none
rank_of (some (d, _)) = some (severity d)

abbrev rank_said : Option (Option (Decision × String)) → Option ℕ
rank_said none = none
rank_said (some none) = some 0
rank_said (some (some v)) = some (severity v.0)

abbrev larger : ℕ → ℕ → ℕ
larger a b = if ltb a b then b else a

-- The larger of two ranks; an exception in either is one of both.
abbrev join : Option ℕ → Option ℕ → Option ℕ
join none _ = none
join (some a) none = none
join (some a) (some b) = some (larger a b)

join_assoc : (a b c : Option ℕ) → join (join a b) c ≡ join a (join b c)
join_assoc a b c = ground arith

rank-injective :
    (a b : Option (Decision × String)) → rank_of a ≡ rank_of b → decision_of a ≡ decision_of b
rank-injective a b h = ground arith

join_swap : (a b c : Option ℕ) → join a (join b c) ≡ join b (join a c)
join_swap a b c = ground arith

join_zero : (o : Option ℕ) → join (some 0) o ≡ o
join_zero o = ground arith

join_zero' : (o : Option ℕ) → o ≡ join (some 0) o
join_zero' o = ground arith

join_le : (a b : ℕ) (o : Option ℕ) → some b ≡ join (some a) o → a ≤ b
join_le a b o h = ground arith

join_deny :
    (v : Decision × String) (a b : Option ℕ)
    → some (severity v.0) ≡ join a (join (some 2) b)
    → v.0 ≡ deny
join_deny (allow, s) a b h = ground arith
join_deny (hold, s) a b h = ground arith
join_deny (deny, s) a b h = refl

join_hold :
    (v : Decision × String) (a b : Option ℕ)
    → some (severity v.0) ≡ join a (join (some 1) b)
    → v.0 ≢ allow
join_hold (allow, s) a b h = absurd (ground arith)
join_hold (hold, s) a b h = λ e. cc e
join_hold (deny, s) a b h = λ e. cc e

rank_step :
    (v : Option (Decision × String)) (best : Decision × String) (o : Option ℕ) (py : Python)
    (r : Request)
    → join (some (severity (escalate py r v best).0)) o
      ≡ join
          (some (severity best.0))
          (join (elim v [ none ↦ some 0 | some w ↦ some (severity w.0) ]) o)
rank_step none best o py r = ground arith
rank_step (some w) best o py r = ground arith

module _ (py : Python) (r : Request) where
  rank : Rule → Option ℕ
  rank rule = rank_said (rule_verdict py r rule)

  strongest : List Rule → Option ℕ
  strongest [] = some 0
  strongest (rule ∷ rules) = join (rank rule) (strongest rules)

  -- One round of the loop, over what the rule says.
  verdict_step :
      (best : Decision × String) (rules : List Rule) (said : Option (Option (Decision × String)))
      → ((v : Option (Decision × String))
          → rank_of (evaluate_from py r (escalate py r v best) rules)
            ≡ join (some (severity (escalate py r v best).0)) (strongest rules))
      → rank_of
          (elim said [ none ↦ none | some v ↦ evaluate_from py r (escalate py r v best) rules ])
        ≡ join (some (severity best.0)) (join (rank_said said) (strongest rules))
  verdict_step best rules none ih = refl
  verdict_step best rules (some none) ih = ih none ∙ rank_step none best (strongest rules) py r
  verdict_step best rules (some (some v)) ih =
      ih (some v) ∙ rank_step (some v) best (strongest rules) py r

  rank-evaluate_from :
      (best : Decision × String) (rules : List Rule)
      → rank_of (evaluate_from py r best rules) ≡ join (some (severity best.0)) (strongest rules)
  unfolding evaluate_from strongest rank
  rank-evaluate_from best [] = ground arith
  rank-evaluate_from best (rule ∷ rules) =
      verdict_step best rules (rule_verdict py r rule)
        (λ v. rank-evaluate_from (escalate py r v best) rules)

  rank-local_evaluate : (rules : List Rule) → rank_of (local_evaluate py r rules) ≡ strongest rules
  unfolding local_evaluate
  rank-local_evaluate rules =
      rank-evaluate_from (allow, "No policy restricts this action.") rules
      ∙ join_zero (strongest rules)

  strongest-perm :
      {rules rules' : List Rule} → Permᴰ rules rules' → strongest rules ≡ strongest rules'
  unfolding strongest
  strongest-perm Permᴰ.nil = refl
  strongest-perm (Permᴰ.cons e p) = ap₂ join (ap rank e) (strongest-perm p)
  strongest-perm (Permᴰ.swap {a = a} {b = b} {l = l} e f) =
      join_swap (rank a) (rank b) (strongest l)
      ∙ ap₂ (λ x y. join x (join y (strongest l))) (ap rank f) (ap rank e)
  strongest-perm (Permᴰ.trans p q) = strongest-perm p ∙ strongest-perm q

  -- The verdict does not depend on the order of the rules: any two orders of the same rules end in
  -- the same decision, or both in an exception.
  pub evaluate_order :
      (rules rules' : List Rule)
      → Perm rules rules'
      → decision_of (local_evaluate py r rules) ≡ decision_of (local_evaluate py r rules')
  evaluate_order rules rules' p =
      rank-injective (local_evaluate py r rules) (local_evaluate py r rules') (
        rank-local_evaluate rules
        ∙ ∥∥₁_elim p (hlevel ℕ_set) strongest-perm
        ∙ sym (rank-local_evaluate rules'))

  strongest-append :
      (rules more : List Rule) → strongest (rules ++ more) ≡ join (strongest rules) (strongest more)
  unfolding strongest
  strongest-append [] more = join_zero' (strongest more)
  strongest-append (rule ∷ rules) more =
      ap (join (rank rule)) (strongest-append rules more)
      ∙ sym (join_assoc (rank rule) (strongest rules) (strongest more))

  -- More rules are never more permissive: with rules added the decision is at least as severe.
  pub evaluate_monotone :
      (rules more : List Rule) (v w : Decision × String)
      → local_evaluate py r rules ≡ some v
      → local_evaluate py r (rules ++ more) ≡ some w
      → severity v.0 ≤ severity w.0
  evaluate_monotone rules more v w h k = join_le (severity v.0) (severity w.0) (strongest more) (
      sym (ap rank_of k)
      ∙ rank-local_evaluate (rules ++ more)
      ∙ strongest-append rules more
      ∙ ap (λ (o : Option ℕ). join o (strongest more))
          (sym (rank-local_evaluate rules) ∙ ap rank_of h))

  strongest-mem :
      (rule : Rule) (before behind : List Rule) (v : Decision × String)
      → rank rule ≡ some 2
      → local_evaluate py r (before ++ rule ∷ behind) ≡ some v
      → v.0 ≡ deny
  unfolding strongest
  strongest-mem rule before behind v d h = join_deny v (strongest before) (strongest behind) (
      sym (ap rank_of h)
      ∙ rank-local_evaluate (before ++ rule ∷ behind)
      ∙ strongest-append before (rule ∷ behind)
      ∙ ap (λ (o : Option ℕ). join (strongest before) (join o (strongest behind))) d)

  -- A rule that says hold keeps the action from being allowed, wherever it stands.
  pub held_not_allowed :
      (rule : Rule) (before behind : List Rule) (v : Decision × String) (why : String)
      → rule_verdict py r rule ≡ some (some (hold, why))
      → local_evaluate py r (before ++ rule ∷ behind) ≡ some v
      → v.0 ≢ allow
  unfolding strongest rank
  held_not_allowed rule before behind v why said h =
      join_hold v (strongest before) (strongest behind) (
        sym (ap rank_of h)
        ∙ rank-local_evaluate (before ++ rule ∷ behind)
        ∙ strongest-append before (rule ∷ behind)
        ∙ ap
            (λ (o : Option (Option (Decision × String))).
              join (strongest before) (join (rank_said o) (strongest behind)))
            said)

  denied :
      (rule_type : String) (p : Dict)
      → rule_type ≡ "action_deny"
      → get "action" p ≡ some (str r.action)
      → rank_said (dispatch py r rule_type p) ≡ some 2
  unfolding dispatch
  denied rule_type p t a = rw t (ground (arith, eq_refl r.action))

  -- An action that a rule denies by name is denied, wherever the rule stands among the others and
  -- whatever they say, unless one of them raises.
  pub action_deny_denies :
      (rule : Rule) (before behind : List Rule) (v : Decision × String)
      → rule.rule_type ≡ "action_deny"
      → get "action" rule.params ≡ some (str r.action)
      → local_evaluate py r (before ++ rule ∷ behind) ≡ some v
      → v.0 ≡ deny
  unfolding rank rule_verdict
  action_deny_denies rule before behind v t a h =
      strongest-mem rule before behind v (denied rule.rule_type rule.params t a) h
