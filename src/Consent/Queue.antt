-- ===== src/Consent/Queue.antt =====
-- backend/consent.py: `resolve`, the owner's answer to a held action, and its closing.
use domesticoracle.Prelude.{
  ℕ, String, true, Option, none, some, [], ◌∷◌, ◌==◌, text_eq, if◌then◌else◌,
}
use domesticoracle.Prelude.Table.{lookup, update}
use domesticoracle.Python.{Dict, concat}
use domesticoracle.Ledger.{update_outcome}
use domesticoracle.Consent.Tables.{Store, Approval, Effect, returned, raised, Callable, close}
use domesticoracle.Consent.Gate.{Setup}

-- `_executor`, which runs a held action from its name and its arguments.
abbrev pub Executor : Type 0 → Type 0
Executor W = String → Dict → Callable W

pub data Resolution : Type 0 where
  not_pending no_executor : Resolution
  denied_by_owner : (action summary : String) → Resolution
  performed : (result action summary : String) → Resolution
  execution_failed : (error : String) → Resolution

-- SELECT … WHERE id = ? AND status = 'pending', then the status becomes 'resolving'.
unfoldable pub claim_row : String → Store → Option Approval → Option Approval × Store
unfolding close
claim_row approval_id s none = (none, s)
claim_row approval_id s (some row) =
    if row.status == "pending" then (some row, close approval_id "resolving" s) else (none, s)

unfoldable pub claim : String → Store → Option Approval × Store
unfolding claim_row
claim approval_id s = claim_row approval_id s (lookup approval_id s.approvals)

-- `UPDATE approvals SET approved_by_owner = 1 WHERE id = ?`
unfoldable pub mark_approved : String → Store → Store
mark_approved approval_id s = record s {
  approvals =
      update approval_id (λ (a : Approval). record a { approved_by_owner = true }) s.approvals;
}

module _ (st : Setup) (now written : ℕ) where
  unfoldable pub note_outcome : ℕ → String → String → String → Store → Store
  note_outcome ledger_id status outcome decision s = record s {
    ledger =
        (update_outcome st.py st.sg st.key now written ledger_id status outcome decision
          s.ledger).1;
  }

  module _ {W : Type 0} (executor : Option (Executor W)) (approval_id : String) where
    -- After the claim, where the owner approves.
    unfoldable pub settle : Approval → Effect → Store → Resolution × Store
    unfolding note_outcome close
    settle pending (returned result) s = (
      performed result pending.action pending.summary,
      note_outcome pending.ledger_id "executed"
          (concat ("Approved by owner. Result: " ∷ result ∷ [])) "allowed (owner)"
          (close approval_id "executed" s),
    )
    settle pending (raised error) s = (
      execution_failed error,
      note_outcome pending.ledger_id "error" (concat ("Execution failed: " ∷ error ∷ [])) "n/a"
          (close approval_id "error" s),
    )

    unfoldable pub settled : Approval → Store → Effect × W → Resolution × (Store × W)
    unfolding settle
    settled pending s (effect, w) = let (reply, s') = settle pending effect s in (reply, (s', w))

    unfoldable pub approve : Approval → Store → W → Resolution × (Store × W)
    unfolding settled mark_approved close
    approve pending s w = elim executor [
      | none ↦ (no_executor, (close approval_id "pending" s, w))
      | some run ↦ settled pending (mark_approved approval_id s) (run pending.action pending.args w)
    ]

    unfoldable pub deny_held : Approval → Store → Resolution × Store
    unfolding note_outcome close
    deny_held pending s = (
      denied_by_owner pending.action pending.summary,
      note_outcome pending.ledger_id "denied" "Denied by owner." "n/a"
          (close approval_id "denied" s),
    )

    unfoldable pub answered : String → Option Approval × Store → W → Resolution × (Store × W)
    unfolding approve deny_held
    answered decision (none, s) w = (not_pending, (s, w))
    answered decision (some pending, s) w =
        if decision == "approve"
        then approve pending s w
        else (let (reply, s') = deny_held pending s in (reply, (s', w)))

    unfoldable pub resolve : String → Store → W → Resolution × (Store × W)
    unfolding claim answered
    resolve decision s w = answered decision (claim approval_id s) w
