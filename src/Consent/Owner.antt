-- ===== src/Consent/Owner.antt =====
-- The owner's answer: at most once for a held action, and what it does to the ledger.
use domesticoracle.Prelude.{
  ℕ, String, ◌≡◌, refl, sym, ◌∙◌, ap, subst, Bool, true, false, Option, none, some, [], ◌∷◌, ◌++◌,
  arith, not, ◌&&◌, ◌||◌, ◌==◌, text_eq, nat_eq, Bool-cases, Option-cases, eq_iff, inl, inr,
}
use domesticoracle.Prelude.Table.{lookup, lookup-update, eq_refl}
use domesticoracle.Python.{Python, Num, ◌<?◌}
use domesticoracle.Ledger.{Row, Ledger, update_outcome, append, new_entry}
use domesticoracle.Ledger.Spending.{Reading, sum_today, sum_today-skip, is_executed}
use domesticoracle.Consent.Tables.{Store, Approval, Effect, returned, raised, close}
use domesticoracle.Consent.Gate.{Setup}
use domesticoracle.Consent.Queue.{
  Executor, not_pending, no_executor, denied_by_owner, claim, claim_row, answered, settled,
  mark_approved, note_outcome, settle, approve, deny_held, resolve,
}

close-status :
    (approval_id status : String) (s : Store) (row : Approval)
    → lookup approval_id s.approvals ≡ some row
    → lookup approval_id (close approval_id status s).approvals
      ≡ some (record row { status = status })
unfolding close
close-status approval_id status s row h = ground (
  arith,
  h,
  eq_refl approval_id,
  lookup-update approval_id approval_id (λ (a : Approval). record a { status = status })
      s.approvals,
)

mark_approved-row :
    (approval_id : String) (s : Store) (row : Approval)
    → lookup approval_id s.approvals ≡ some row
    → lookup approval_id (mark_approved approval_id s).approvals
      ≡ some (record row { approved_by_owner = true })
unfolding mark_approved
mark_approved-row approval_id s row h = ground (
  arith,
  h,
  eq_refl approval_id,
  lookup-update approval_id approval_id (λ (a : Approval). record a { approved_by_owner = true })
      s.approvals,
)

abbrev pub is_pending : Option Approval → Bool
is_pending none = false
is_pending (some row) = row.status == "pending"

claim_row-none :
    (approval_id : String) (s : Store) (o : Option Approval)
    → is_pending o ≡ false
    → claim_row approval_id s o ≡ (none, s)
unfolding claim_row
claim_row-none approval_id s none h = refl
claim_row-none approval_id s (some row) h = rw h refl

claim_row-some :
    (approval_id : String) (s : Store) (row : Approval)
    → (row.status == "pending") ≡ true
    → claim_row approval_id s (some row) ≡ (some row, close approval_id "resolving" s)
unfolding claim_row
claim_row-some approval_id s row h = rw h refl

claim_row-ledger :
    (approval_id : String) (s : Store) (o : Option Approval)
    → (claim_row approval_id s o).1.ledger ≡ s.ledger
unfolding claim_row close
claim_row-ledger approval_id s o = ground arith

other_action :
    (py : Python) (rd : Reading) (midnight : Num) (entry : Row)
    → entry.action ≡ "resolve"
    → is_executed py rd "make_purchase" midnight entry ≡ false
other_action py rd midnight entry h =
    ap
      (λ action.
        (action == "make_purchase")
        && ((entry.status == "executed") && ((midnight <? entry.ts) || not (entry.ts <? midnight))))
      h

-- A claim of a pending approval takes it out of the pending ones: of two callers that resolve the
-- same approval, the second finds nothing to claim and changes nothing.
pub claimed_once :
    (approval_id : String) (row : Approval) (s : Store)
    → lookup approval_id s.approvals ≡ some row
    → row.status ≡ "pending"
    → (claim approval_id s ≡ (some row, close approval_id "resolving" s))
      × (claim approval_id (claim approval_id s).1 ≡ (none, (claim approval_id s).1))
unfolding claim
claimed_once approval_id row s found h =
    let first : claim approval_id s ≡ (some row, close approval_id "resolving" s) =
      ap (claim_row approval_id s) found
      ∙ claim_row-some approval_id s row ((eq_iff row.status "pending").1 h) in
    let closed = close approval_id "resolving" s in
    let second : claim approval_id closed ≡ (none, closed) =
      claim_row-none approval_id closed (lookup approval_id closed.approvals)
        (ap is_pending (close-status approval_id "resolving" s row found)) in
    (
      first,
      subst (λ (r : Option Approval × Store). claim approval_id r.1 ≡ (none, r.1)) (sym first)
          second,
    )

module _ (st : Setup) (now written : ℕ) where
  module _ {W : Type 0} (executor : Option (Executor W)) (approval_id : String) where
    -- Without a pending approval nothing happens: no work is done and nothing is written.
    pub resolve-not_pending :
        (decision : String) (s : Store) (w : W)
        → is_pending (lookup approval_id s.approvals) ≡ false
        → resolve st now written executor approval_id decision s w ≡ (not_pending, (s, w))
    unfolding resolve claim answered
    resolve-not_pending decision s w h =
        ap (λ claimed. answered st now written executor approval_id decision claimed w)
          (claim_row-none approval_id s (lookup approval_id s.approvals) h)

    -- An owner who does not approve: no work is done, the approval is closed as denied, and the
    -- ledger gains the one entry that says so.
    pub resolve-denied :
        (decision : String) (row : Approval) (s : Store) (w : W)
        → lookup approval_id s.approvals ≡ some row
        → row.status ≡ "pending"
        → (decision == "approve") ≡ false
        → let (reply, (s', w')) = resolve st now written executor approval_id decision s w in
          (w' ≡ w)
          × (reply ≡ denied_by_owner row.action row.summary)
          × (lookup approval_id s'.approvals ≡ some (record row { status = "denied" }))
          × (s'.ledger
              ≡ (update_outcome st.py st.sg st.key now written row.ledger_id "denied"
                  "Denied by owner." "n/a" s.ledger).1)
    unfolding resolve answered deny_held note_outcome
    resolve-denied decision row s w found h refused =
        let claimed = (claimed_once approval_id row s found h).0 in
        rw (claimed, refused)
          (
            refl,
            refl,
            close-status approval_id "denied" (close approval_id "resolving" s)
                (record row { status = "resolving" })
                (close-status approval_id "resolving" s row found),
            refl,
          )

    abbrev pub closing : Effect → String
    closing (returned _) = "executed"
    closing (raised _) = "error"

    -- The state after the executor has run, from the store where the approval is marked.
    settled_row :
        (pending row : Approval) (s : Store) (work : Effect × W)
        → lookup approval_id s.approvals ≡ some row
        → lookup approval_id
            (settled st now written executor approval_id pending s work).1.0.approvals
          ≡ some (record row { status = closing work.0 })
    unfolding settled settle note_outcome
    settled_row pending row s (returned result, w) found =
        close-status approval_id "executed" s row found
    settled_row pending row s (raised error, w) found = close-status approval_id "error" s row found

    -- An entry that resolves, with what came of it.
    abbrev pub Resolves : Ledger → Ledger → String → Type 0
    Resolves l l' status =
        (entry : Row) × (l'.rows ≡ l.rows ++ entry ∷ [])
        × (entry.action ≡ "resolve")
        × (entry.status ≡ status)

    update_outcome-Resolves :
        (id : ℕ) (status outcome decision : String) (l : Ledger)
        → Resolves l
            (update_outcome st.py st.sg st.key now written id status outcome decision l).1
            status
    unfolding update_outcome append new_entry
    update_outcome-Resolves id status outcome decision l = (_, refl, refl, refl)

    settled-Resolves :
        (pending : Approval) (s : Store) (work : Effect × W)
        → Resolves s.ledger
            (settled st now written executor approval_id pending s work).1.0.ledger
            (closing work.0)
    unfolding settled settle note_outcome close
    settled-Resolves pending s (returned result, w) =
        update_outcome-Resolves pending.ledger_id "executed" _ "allowed (owner)" s.ledger
    settled-Resolves pending s (raised error, w) =
        update_outcome-Resolves pending.ledger_id "error" _ "n/a" s.ledger

    settled-world :
        (pending : Approval) (s : Store) (work : Effect × W)
        → (settled st now written executor approval_id pending s work).1.1 ≡ work.1
    unfolding settled
    settled-world pending s (effect, w) = refl

    -- An owner who approves, with an executor registered: exactly the action and the arguments that
    -- were held are run, once; whatever the policies say by then; the approval is closed as executed,
    -- or as an error where the executor raises; and the ledger gains the one entry that says so.
    pub resolve-approved :
        (run : Executor W) (row : Approval) (s : Store) (w : W)
        → lookup approval_id s.approvals ≡ some row
        → row.status ≡ "pending"
        → executor ≡ some run
        → let (reply, (s', w')) = resolve st now written executor approval_id "approve" s w in
          let (effect, outside) = run row.action row.args w in
          (w' ≡ outside)
          × (lookup approval_id s'.approvals
              ≡ some (record row { status = closing effect; approved_by_owner = true }))
          × Resolves s.ledger s'.ledger (closing effect)
    unfolding resolve answered approve mark_approved
    resolve-approved run row s w found h registered =
        let claimed = (claimed_once approval_id row s found h).0 in
        let marked = mark_approved approval_id (close approval_id "resolving" s) in
        let work = run row.action row.args w in
        rw (claimed, registered)
          (
            settled-world row marked work,
            settled_row row (record row { status = "resolving"; approved_by_owner = true }) marked
                work
                (mark_approved-row approval_id (close approval_id "resolving" s)
                  (record row { status = "resolving" })
                  (close-status approval_id "resolving" s row found)),
            settled-Resolves row marked work,
          )

    -- Without an executor the approval is left as it was found, to be answered later.
    pub resolve-no_executor :
        (row : Approval) (s : Store) (w : W)
        → lookup approval_id s.approvals ≡ some row
        → row.status ≡ "pending"
        → executor ≡ none
        → let (reply, (s', w')) = resolve st now written executor approval_id "approve" s w in
          (w' ≡ w)
          × (lookup approval_id s'.approvals ≡ some row)
          × (s'.ledger ≡ s.ledger)
          × (reply ≡ no_executor)
    unfolding resolve answered approve
    resolve-no_executor row s w found h missing =
        let claimed = (claimed_once approval_id row s found h).0 in
        rw (claimed, missing)
          (
            refl,
            close-status approval_id "pending" (close approval_id "resolving" s)
                  (record row { status = "resolving" })
                  (close-status approval_id "resolving" s row found)
                ∙ ap (λ status. some (record row { status = status })) (sym h),
            refl,
            refl,
          )

    abbrev spent : Num → Store → Num
    spent midnight s = sum_today st.py st.reading "make_purchase" midnight s.ledger.rows

    spent-Resolves :
        (midnight : Num) (s s' : Store) (status : String)
        → Resolves s.ledger s'.ledger status
        → spent midnight s' ≡ spent midnight s
    spent-Resolves midnight s s' status (entry, added, resolves, said) =
        ap (sum_today st.py st.reading "make_purchase" midnight) added
        ∙ sum_today-skip st.py st.reading "make_purchase" midnight s.ledger.rows entry
            (other_action st.py st.reading midnight entry resolves)

    spent-approve :
        (midnight : Num) (pending : Approval) (s : Store) (w : W)
        → spent midnight (approve st now written executor approval_id pending s w).1.0
          ≡ spent midnight s
    unfolding approve
    spent-approve midnight pending s w = elim (Option-cases executor) [
      | inl missing ↦ rw missing refl
      | inr (run, registered) ↦ rw registered (
          spent-Resolves midnight s
            (settled st now written executor approval_id pending (mark_approved approval_id s)
              (run pending.action pending.args w)).1.0
            (closing (run pending.action pending.args w).0)
            (settled-Resolves pending (mark_approved approval_id s)
              (run pending.action pending.args w)))
    ]

    spent-answered :
        (decision : String) (midnight : Num) (claimed : Option Approval) (s : Store) (w : W)
        → spent midnight (answered st now written executor approval_id decision (claimed, s) w).1.0
          ≡ spent midnight s
    unfolding answered deny_held note_outcome
    spent-answered decision midnight none s w = refl
    spent-answered decision midnight (some pending) s w =
        elim (Bool-cases (decision == "approve")) [
          | inl approved ↦ rw approved (spent-approve midnight pending s w)
          | inr refused ↦ rw refused (
              spent-Resolves midnight s (deny_held st now written executor approval_id pending s).1
                "denied"
                (unfold deny_held in
                  update_outcome-Resolves pending.ledger_id "denied" "Denied by owner." "n/a"
                    s.ledger))
        ]

    -- Resolving a held action leaves the sum that the daily limit is checked against as it was, also
    -- where the owner approves a purchase and it is performed.
    pub approved_not_counted :
        (decision : String) (midnight : Num) (s : Store) (w : W)
        → let after = (resolve st now written executor approval_id decision s w).1.0 in
          sum_today st.py st.reading "make_purchase" midnight after.ledger.rows
          ≡ sum_today st.py st.reading "make_purchase" midnight s.ledger.rows
    unfolding resolve claim
    approved_not_counted decision midnight s w =
        spent-answered decision midnight (claim approval_id s).0 (claim approval_id s).1 w
        ∙ ap (λ (l : Ledger). sum_today st.py st.reading "make_purchase" midnight l.rows)
            (claim_row-ledger approval_id s (lookup approval_id s.approvals))
