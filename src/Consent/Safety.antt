-- ===== src/Consent/Safety.antt =====
-- When the gate lets the work of a request run.
use domesticoracle.Prelude.{
  String, ◌≡◌, ◌≢◌, refl, ◌∙◌, ap, Bool, true, false, inl, inr, Option, none, some, arith, not,
  ◌&&◌, ◌||◌, ◌==◌, text_eq, if◌then◌else◌, Bool-cases, eq_iff,
}
use domesticoracle.Prelude.Int.{ℤ, pos}
use domesticoracle.Prelude.Table.{lookup}
use domesticoracle.Policy.{
  Decision, allow, hold, deny, decision_text, enforced, get_mode, evaluate, cached_policies,
}
use domesticoracle.Risk.{score}
use domesticoracle.Risk.Bounds.{score_bounds}
use domesticoracle.Limits.{check_and_record}
use domesticoracle.Consent.Tables.{Store, Effect, returned, raised, Callable}
use domesticoracle.Consent.Gate.{
  Setup, Call, Reply, carry_out, done, react, scored, admitted, turned_away, request_action, decide,
  guard, is_flagged, is_revoked,
}

-- The outside after a request.
abbrev pub world : {W : Type 0} → Reply × (Store × W) → W
world r = r.1.1

abbrev is_allow : Decision → Bool
is_allow allow = true
is_allow _ = false

abbrev pub permits : Bool → Option (Decision × String) → String → Bool
permits flagged none mode = false
permits flagged (some (decision, reason)) mode =
    not (mode == enforced) || (is_allow decision && not flagged)

-- When the gate lets the work of a request run: the actor is not revoked, the policies could be
-- evaluated, and either the mode is not enforced, or the decision of breaker and policy is allow and
-- no source is flagged.
abbrev pub admits : Setup → Call → Store → Bool
admits st c s =
    not (is_revoked (lookup c.actor_id s.agents))
    && permits (is_flagged st c) (decide st c s).0 (get_mode s.policies)

module _ (st : Setup) (c : Call) {W : Type 0} (execute : Callable W) where
  done-world :
      (decision : Decision) (note : String → String) (told : String) (risk : ℤ) (s : Store)
      (work : Effect × W)
      → world (done st c execute decision note told risk s work) ≡ work.1
  unfolding done
  done-world decision note told risk s (raised error, w) = refl
  done-world decision note told risk s (returned result, w) = refl

  abbrev outside_after : Bool → W → W
  outside_after true w = (execute w).1
  outside_after false w = w

  allow-world :
      (mode reason : String) (risk : ℤ) (s : Store) (w : W)
      → world (react st c execute mode allow reason risk s w) ≡ (execute w).1
  unfolding react carry_out
  allow-world mode reason risk s w = done-world allow _ reason risk s (execute w)

  hold-world :
      (mode reason : String) (risk : ℤ) (s : Store) (w : W)
      → world (react st c execute mode hold reason risk s w)
        ≡ outside_after (not (mode == enforced)) w
  unfolding react carry_out
  hold-world mode reason risk s w = elim (Bool-cases (mode == enforced)) [
    | inl on ↦ rw on refl
    | inr off ↦ rw off (done-world hold _ _ risk s (execute w))
  ]

  deny-world :
      (mode reason : String) (risk : ℤ) (s : Store) (w : W)
      → world (react st c execute mode deny reason risk s w)
        ≡ outside_after (not (mode == enforced)) w
  unfolding react carry_out
  deny-world mode reason risk s w = elim (Bool-cases (mode == enforced)) [
    | inl on ↦ rw on refl
    | inr off ↦ rw off (done-world deny _ _ risk s (execute w))
  ]

  outside-if : (b : Bool) (w : W) → outside_after b w ≡ (if b then (execute w).1 else w)
  outside-if true w = refl
  outside-if false w = refl

  or_true : (b : Bool) (w : W) → (execute w).1 ≡ outside_after (b || true) w
  or_true true w = refl
  or_true false w = refl

  or_false : (b : Bool) (w : W) → outside_after b w ≡ outside_after (b || false) w
  or_false true w = refl
  or_false false w = refl

  react-world :
      (flagged : Bool) (mode : String) (decision : Decision) (reason : String) (risk : ℤ)
      (s : Store) (w : W)
      → world (
          react st c execute mode
            (guard flagged (decision, reason)).0
            (guard flagged (decision, reason)).1
            risk
            s
            w)
        ≡ outside_after (permits flagged (some (decision, reason)) mode) w
  react-world true mode allow reason risk s w =
      hold-world mode _ risk s w ∙ or_false (not (mode == enforced)) w
  react-world false mode allow reason risk s w =
      allow-world mode reason risk s w ∙ or_true (not (mode == enforced)) w
  react-world true mode hold reason risk s w =
      hold-world mode reason risk s w ∙ or_false (not (mode == enforced)) w
  react-world false mode hold reason risk s w =
      hold-world mode reason risk s w ∙ or_false (not (mode == enforced)) w
  react-world true mode deny reason risk s w =
      deny-world mode reason risk s w ∙ or_false (not (mode == enforced)) w
  react-world false mode deny reason risk s w =
      deny-world mode reason risk s w ∙ or_false (not (mode == enforced)) w

  scored-world :
      (flagged : Bool) (mode : String) (decision : Decision) (reason : String) (s : Store) (w : W)
      → world (
          scored st c execute mode
            (guard flagged (decision, reason)).0
            (guard flagged (decision, reason)).1
            (score st.py c.action c.args (decision_text (guard flagged (decision, reason)).0))
            s
            w)
        ≡ outside_after (permits flagged (some (decision, reason)) mode) w
  unfolding scored
  scored-world flagged mode decision reason s w =
      let v = guard flagged (decision, reason) in
      let (n, scores, bound) = score_bounds st.py c.action c.args (decision_text v.0) in
      ap (λ risk. world (scored st c execute mode v.0 v.1 risk s w)) scores
      ∙ react-world flagged mode decision reason (pos n) s w

  turned_away-world :
      (risk : Option ℤ) (s : Store) (w : W) → world (turned_away st c execute risk s w) ≡ w
  unfolding turned_away
  turned_away-world none s w = refl
  turned_away-world (some risk) s w = refl

  admitted-world :
      (verdict : Option (Decision × String)) (mode : String) (s : Store) (w : W)
      → get_mode s.policies ≡ mode
      → world (admitted st c execute (verdict, s) w)
        ≡ outside_after (permits (is_flagged st c) verdict mode) w
  unfolding admitted
  admitted-world none mode s w h = refl
  admitted-world (some (decision, reason)) mode s w h =
      ap (λ m. world (admitted_in m)) h ∙ scored-world (is_flagged st c) mode decision reason s w
    where
      admitted_in : String → Reply × (Store × W)
      admitted_in m =
          scored st c execute m (guard (is_flagged st c) (decision, reason)).0
            (guard (is_flagged st c) (decision, reason)).1
            (score st.py c.action c.args
              (decision_text (guard (is_flagged st c) (decision, reason)).0))
            s w

  decide-mode : (s : Store) → get_mode (decide st c s).1.policies ≡ get_mode s.policies
  unfolding decide get_mode evaluate cached_policies
  decide-mode s = ground arith

  -- What the gate does to the outside: the work runs, once, exactly where the gate admits the request,
  -- and otherwise the outside is as it was. A request is admitted where the actor is not revoked, the
  -- policies could be evaluated, and either the mode is not enforced, or breaker and policy decided
  -- allow and no source is flagged.
  pub request-world :
      (s : Store) (w : W)
      → world (request_action st c execute s w) ≡ (if admits st c s then (execute w).1 else w)
  unfolding request_action
  request-world s w = elim (Bool-cases (is_revoked (lookup c.actor_id s.agents))) [
    | inl revoked ↦ rw revoked (turned_away-world (score st.py c.action c.args "deny") s w)
    | inr active ↦ rw active (
        admitted-world (decide st c s).0 (get_mode s.policies) (decide st c s).1 w (decide-mode s)
        ∙ outside-if (permits (is_flagged st c) (decide st c s).0 (get_mode s.policies)) w)
  ]

  and_parts : (a b : Bool) → (not a && b) ≡ true → (a ≡ false) × (b ≡ true)
  and_parts a b h = (ground arith, ground arith)

  permitted :
      (flagged : Bool) (verdict : Option (Decision × String)) (mode : String)
      → mode ≡ enforced
      → permits flagged verdict mode ≡ true
      → (flagged ≡ false) × ((reason : String) × (verdict ≡ some (allow, reason)))
  permitted false (some (allow, reason)) mode h p = (refl, (reason, refl))
  permitted true (some (allow, reason)) mode h p = absurd (ground (arith, eq_iff mode enforced))
  permitted flagged (some (hold, reason)) mode h p = absurd (ground (arith, eq_iff mode enforced))
  permitted flagged (some (deny, reason)) mode h p = absurd (ground (arith, eq_iff mode enforced))
  permitted flagged none mode h p = absurd (ground arith)

  decide-within :
      (reason : String) (s : Store)
      → (decide st c s).0 ≡ some (allow, reason)
      → (check_and_record st.py st.caps c.actor_id c.checked_at s.counts).0.0 ≡ true
  unfolding decide
  decide-within reason s h = ground arith

  ran-admits :
      (s : Store) (w : W) → world (request_action st c execute s w) ≢ w → admits st c s ≡ true
  ran-admits s w ran = elim (Bool-cases (admits st c s)) [
    | inl holds ↦ holds
    | inr fails ↦ absurd (ran (request-world s w ∙ ap (λ b. if b then (execute w).1 else w) fails))
  ]

  -- In the enforced mode the work runs only for an actor that is not revoked, below its limits, on a
  -- decision to allow, and without a flagged source.
  pub enforced_runs_allowed :
      (s : Store) (w : W)
      → get_mode s.policies ≡ enforced
      → world (request_action st c execute s w) ≢ w
      → (is_revoked (lookup c.actor_id s.agents) ≡ false)
        × ((check_and_record st.py st.caps c.actor_id c.checked_at s.counts).0.0 ≡ true)
        × (is_flagged st c ≡ false)
        × ((reason : String) × ((decide st c s).0 ≡ some (allow, reason)))
  enforced_runs_allowed s w mode ran =
      let (active, permit) =
        and_parts (is_revoked (lookup c.actor_id s.agents))
          (permits (is_flagged st c) (decide st c s).0 (get_mode s.policies))
          (ran-admits s w ran) in
      let (clean, found) =
        permitted (is_flagged st c) (decide st c s).0 (get_mode s.policies) mode permit in
      (active, decide-within found.0 s found.1, clean, found)
