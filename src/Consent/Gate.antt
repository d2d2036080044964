-- ===== src/Consent/Gate.antt =====
-- backend/consent.py: `request_action`, the gate that every guarded action goes through. Each
-- reading of the clock is a field of the request.
use domesticoracle.Prelude.{
  ℕ, String, Bool, true, false, Option, none, some, List, [], ◌∷◌, ◌==◌, text_eq, if◌then◌else◌,
}
use domesticoracle.Prelude.Int.{ℤ}
use domesticoracle.Prelude.Table.{Table, lookup, insert}
use domesticoracle.Python.{Python, Dict, concat, Num}
use domesticoracle.Crypto.{Signatures}
use domesticoracle.Limits.{Caps, check_and_record}
use domesticoracle.Policy.{Decision, allow, hold, deny, decision_text, evaluate, get_mode, enforced}
use domesticoracle.Ledger.{Draft, append}
use domesticoracle.Ledger.Spending.{Reading, sum_today}
use domesticoracle.Provenance.{Registry, Source, scan_sources, is_suspicious}
use domesticoracle.Risk.{category, score}
use domesticoracle.Consent.Tables.{
  Agent, Approval, Store, Effect, returned, raised, Callable, summarize,
}

-- What the process is started with.
pub record Setup : Type 0 where
  pub py : Python
  pub sg : Signatures
  pub key : String
  pub caps : Caps
  pub registry : Registry
  pub reading : Reading

-- A call of the gate. A `sources` of None is the empty list; `approval_id` is the id that is drawn
-- if the action is held; `midnight` is the start of the local day.
pub record Call : Type 0 where
  pub actor_id : String
  pub action : String
  pub args : Dict
  pub sources : List Source
  pub approval_id : String
  pub scanned_at : ℕ
  pub checked_at : ℕ
  pub hour : ℕ
  pub midnight : Num
  pub logged_at : ℕ
  pub anchored_at : ℕ
  pub created_at : ℕ

pub data Status : Type 0 where
  executed denied held : Status

pub record Answer : Type 0 where
  pub status : Status
  pub reason : String
  pub result : Option String
  pub approval_id : Option String
  pub ledger_id : ℕ

-- The answer, or the exception that leaves the gate.
pub data Reply : Type 0 where
  answer : Answer → Reply
  failed : String → Reply

abbrev pub provenance_of : Setup → Call → Option Dict
provenance_of st c = elim c.sources [
  | [] ↦ none
  | s ∷ sources ↦ some (scan_sources st.registry c.scanned_at (s ∷ sources))
]

abbrev pub is_flagged : Setup → Call → Bool
is_flagged st c = elim (provenance_of st c) [ none ↦ false | some prov ↦ is_suspicious prov ]

abbrev pub is_revoked : Option Agent → Bool
is_revoked none = false
is_revoked (some a) = a.status == "revoked"

abbrev pub flagged_reason : String
flagged_reason =
    "Content triggering this action was flagged for injection signals — held for owner review."

-- The rail: flagged content turns an allow into a hold.
abbrev pub guard : Bool → Decision × String → Decision × String
guard true (allow, reason) = (hold, flagged_reason)
guard _ verdict = verdict

module _ (st : Setup) (c : Call) where
  unfoldable pub draft_of : String → String → String → ℤ → Draft
  draft_of decision status outcome risk = record {
    actor_id = c.actor_id;
    action = c.action;
    args_summary = summarize st.py c.args;
    decision = decision;
    status = status;
    outcome = outcome;
    category = category c.action;
    risk = risk;
    args = c.args;
    provenance = provenance_of st c;
  }

  unfoldable pub record_entry : String → String → String → ℤ → Store → ℕ × Store
  unfolding draft_of append
  record_entry decision status outcome risk s =
      let (entry, l) =
        append st.py st.sg st.key c.logged_at c.anchored_at (draft_of decision status outcome risk)
          s.ledger in
      (entry.id, record s { ledger = l })

  -- The circuit breaker first, then the policy; `none` where the policy raises.
  unfoldable pub decide : Store → Option (Decision × String) × Store
  decide s =
      let ((ok, why), counts) = check_and_record st.py st.caps c.actor_id c.checked_at s.counts in
      let s' = record s { counts = counts } in
      elim ok [
        | false ↦ (some (hold, why), s')
        | true ↦
            let (verdict, policies) =
              evaluate st.py
                (record {
                  action = c.action;
                  args = c.args;
                  now_hour = c.hour;
                  spent_today = sum_today st.py st.reading "make_purchase" c.midnight s.ledger.rows;
                })
                s.policies in
            (verdict, record s' { policies = policies })
      ]

  unfoldable pub refuse : Decision → String → String → ℤ → Store → Reply × Store
  refuse decision reason told risk s =
      let (id, s') = record_entry (decision_text decision) "blocked" reason risk s in
      (
        answer (record {
          status = denied;
          reason = told;
          result = none;
          approval_id = none;
          ledger_id = id;
        }),
        s',
      )

  -- The INSERT of the approval, at an id that is a primary key.
  unfoldable pub queued : String → ℕ → Store → Option (Table String Approval) → Reply × Store
  queued reason id s none = (failed "UNIQUE constraint failed: approvals.id", s)
  queued reason id s (some approvals) = (
    answer (record {
      status = held;
      reason = reason;
      result = none;
      approval_id = some c.approval_id;
      ledger_id = id;
    }),
    record s { approvals = approvals },
  )

  unfoldable pub pending_approval : String → ℕ → Approval
  pending_approval reason id = record {
    actor_id = c.actor_id;
    action = c.action;
    args = c.args;
    summary = summarize st.py c.args;
    reason = reason;
    ledger_id = id;
    status = "pending";
    approved_by_owner = false;
    created = c.created_at;
  }

  unfoldable pub suspend : Decision → String → ℤ → Store → Reply × Store
  unfolding queued pending_approval
  suspend decision reason risk s =
      let (id, s') = record_entry (decision_text decision) "pending" reason risk s in
      queued reason id s' (insert c.approval_id (pending_approval reason id) s'.approvals)

  module _ {W : Type 0} (execute : Callable W) where
    -- What is recorded of the work; an exception passes through the gate unrecorded.
    unfoldable pub done :
        Decision → (String → String) → String → ℤ → Store → Effect × W → Reply × (Store × W)
    done decision note told risk s (raised error, w) = (failed error, (s, w))
    done decision note told risk s (returned result, w) =
        let (id, s') = record_entry (decision_text decision) "executed" (note result) risk s in
        (
          answer (record {
            status = executed;
            reason = told;
            result = some result;
            approval_id = none;
            ledger_id = id;
          }),
          (s', w),
        )

    -- The work is done first and then recorded; `note` and `told` are made of its result.
    unfoldable pub carry_out :
        Decision → (String → String) → String → ℤ → Store → W → Reply × (Store × W)
    unfolding done
    carry_out decision note told risk s w = done decision note told risk s (execute w)

    observed_note : String → Decision → String → String → String
    observed_note mode decision reason result = concat (
        "["
        ∷ mode
        ∷ "] would "
        ∷ decision_text decision
        ∷ " ("
        ∷ reason
        ∷ "). Ran because enforcement is off. Result: "
        ∷ result
        ∷ [])

    observed_told : String → Decision → String → String
    observed_told mode decision reason = concat (
        "(Observed in "
        ∷ mode
        ∷ " mode — this would have been a '"
        ∷ decision_text decision
        ∷ "': "
        ∷ reason
        ∷ ")"
        ∷ [])

    abbrev with_world : W → Reply × Store → Reply × (Store × W)
    with_world w (reply, s) = (reply, (s, w))

    -- What a decision leads to in a mode.
    unfoldable pub react : String → Decision → String → ℤ → Store → W → Reply × (Store × W)
    unfolding carry_out refuse suspend observed_note observed_told
    react mode allow reason risk s w = carry_out allow (λ result. result) reason risk s w
    react mode hold reason risk s w =
        if mode == enforced
        then with_world w (suspend hold reason risk s)
        else carry_out hold (observed_note mode hold reason) (observed_told mode hold reason) risk s
            w
    react mode deny reason risk s w =
        if mode == enforced
        then with_world w (refuse deny reason reason risk s)
        else carry_out deny (observed_note mode deny reason) (observed_told mode deny reason) risk s
            w

    -- The risk is `none` where `int` raises.
    unfoldable pub scored : String → Decision → String → Option ℤ → Store → W → Reply × (Store × W)
    unfolding react
    scored mode decision reason none s w = (failed "cannot convert float to integer", (s, w))
    scored mode decision reason (some risk) s w = react mode decision reason risk s w

    unfoldable pub admitted : Option (Decision × String) × Store → W → Reply × (Store × W)
    unfolding scored
    admitted (none, s) w = (failed "could not evaluate the policies", (s, w))
    admitted (some verdict, s) w =
        let (decision, reason) = guard (is_flagged st c) verdict in
        scored (get_mode s.policies) decision reason
          (score st.py c.action c.args (decision_text decision)) s w

    unfoldable pub turned_away : Option ℤ → Store → W → Reply × (Store × W)
    unfolding refuse
    turned_away none s w = (failed "cannot convert float to integer", (s, w))
    turned_away (some risk) s w =
        with_world w (refuse deny "Actor is revoked." "That agent has been revoked." risk s)

    unfoldable pub request_action : Store → W → Reply × (Store × W)
    unfolding decide admitted turned_away
    request_action s w =
        if is_revoked (lookup c.actor_id s.agents)
        then turned_away (score st.py c.action c.args "deny") s w
        else admitted (decide s) w
