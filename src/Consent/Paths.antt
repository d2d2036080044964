-- ===== src/Consent/Paths.antt =====
-- The ways through the gate: what holds of each way that a request can end holds of every request.
use domesticoracle.Prelude.{
  String, ◌≡◌, refl, Option, none, some, ◌==◌, text_eq, inl, inr, Bool-cases, arith,
}
use domesticoracle.Prelude.Int.{ℤ}
use domesticoracle.Prelude.Table.{lookup}
use domesticoracle.Policy.{
  evaluate, cached_policies, Decision, allow, hold, deny, decision_text, enforced, get_mode,
}
use domesticoracle.Risk.{score}
use domesticoracle.Consent.Tables.{Store, Callable}
use domesticoracle.Consent.Gate.{
  Setup, Call, Reply, failed, carry_out, done, refuse, suspend, react, scored, admitted,
  turned_away, request_action, decide, guard, is_flagged, is_revoked,
}

-- What breaker and policy count and cache leaves the ledger and the queue alone.
pub record Keeps (s s' : Store) : Type 0 where
  pub ledger : s'.ledger ≡ s.ledger
  pub approvals : s'.approvals ≡ s.approvals
  pub agents : s'.agents ≡ s.agents
  pub rules : s'.policies.rows ≡ s.policies.rows
  pub mode : s'.policies.mode ≡ s.policies.mode

pub Keeps-same : (s : Store) → Keeps s s
Keeps-same s = record { ledger = refl; approvals = refl; agents = refl; rules = refl; mode = refl }

module _ (st : Setup) (c : Call) {W : Type 0} (execute : Callable W) (s : Store) (w : W)
    (P : Reply × (Store × W) → Type 0) where
  -- How a request can end: in an exception before anything was done, refused, queued, or with its
  -- work done.
  pub record Ends : Type 0 where
    pub failing : (error : String) (s' : Store) → Keeps s s' → P (failed error, (s', w))
    pub refusing :
        (reason told : String) (risk : ℤ) (s' : Store)
        → Keeps s s'
        → P (
          (refuse st c deny reason told risk s').0,
          ((refuse st c deny reason told risk s').1, w),
        )
    pub suspending :
        (reason : String) (risk : ℤ) (s' : Store)
        → Keeps s s'
        → P ((suspend st c hold reason risk s').0, ((suspend st c hold reason risk s').1, w))
    pub doing :
        (decision : Decision) (note : String → String) (told : String) (risk : ℤ) (s' : Store)
        → Keeps s s'
        → P (done st c execute decision note told risk s' (execute w))

  module _ (ends : Ends) where
    carry_out-ends :
        (decision : Decision) (note : String → String) (told : String) (risk : ℤ) (s' : Store)
        → Keeps s s'
        → P (carry_out st c execute decision note told risk s' w)
    unfolding carry_out
    carry_out-ends decision note told risk s' k = ends.doing decision note told risk s' k

    react-ends :
        (mode : String) (decision : Decision) (reason : String) (risk : ℤ) (s' : Store)
        → Keeps s s'
        → P (react st c execute mode decision reason risk s' w)
    unfolding react
    react-ends mode allow reason risk s' k = carry_out-ends allow _ reason risk s' k
    react-ends mode hold reason risk s' k = elim (Bool-cases (mode == enforced)) [
      | inl on ↦ rw on (ends.suspending reason risk s' k)
      | inr off ↦ rw off (carry_out-ends hold _ _ risk s' k)
    ]
    react-ends mode deny reason risk s' k = elim (Bool-cases (mode == enforced)) [
      | inl on ↦ rw on (ends.refusing reason reason risk s' k)
      | inr off ↦ rw off (carry_out-ends deny _ _ risk s' k)
    ]

    scored-ends :
        (mode : String) (decision : Decision) (reason : String) (risk : Option ℤ) (s' : Store)
        → Keeps s s'
        → P (scored st c execute mode decision reason risk s' w)
    unfolding scored
    scored-ends mode decision reason none s' k = ends.failing _ s' k
    scored-ends mode decision reason (some risk) s' k = react-ends mode decision reason risk s' k

    turned_away-ends : (risk : Option ℤ) → P (turned_away st c execute risk s w)
    unfolding turned_away
    turned_away-ends none = ends.failing _ s (Keeps-same s)
    turned_away-ends (some risk) = ends.refusing _ _ risk s (Keeps-same s)

    admitted-ends :
        (verdict : Option (Decision × String)) (s' : Store)
        → Keeps s s'
        → P (admitted st c execute (verdict, s') w)
    unfolding admitted
    admitted-ends none s' k = ends.failing _ s' k
    admitted-ends (some verdict) s' k =
        let v = guard (is_flagged st c) verdict in
        scored-ends (get_mode s'.policies) v.0 v.1 (score st.py c.action c.args (decision_text v.0))
          s' k

    decide-Keeps : Keeps s (decide st c s).1
    unfolding decide evaluate cached_policies
    decide-Keeps = record {
      ledger = ground arith;
      approvals = ground arith;
      agents = ground arith;
      rules = ground arith;
      mode = ground arith;
    }

    pub request-ends : P (request_action st c execute s w)
    unfolding request_action
    request-ends = elim (Bool-cases (is_revoked (lookup c.actor_id s.agents))) [
      | inl revoked ↦ rw revoked (turned_away-ends _)
      | inr active ↦ rw active (admitted-ends (decide st c s).0 (decide st c s).1 decide-Keeps)
    ]
