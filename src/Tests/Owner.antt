-- ===== src/Tests/Owner.antt =====
-- The owner's answers to a held action at concrete inputs.
use domesticoracle.Prelude.{ℕ, suc, text_eq, ◌≡◌, refl, true, none, some}
use domesticoracle.Prelude.Table.{lookup}
use domesticoracle.Python.{num_of}
use domesticoracle.Ledger.{update_outcome}
use domesticoracle.Ledger.Spending.{sum_today}
use domesticoracle.Consent.{returned, Executor, resolve, claim, close, denied_by_owner}
use domesticoracle.Consent.Owner.{
  claimed_once, resolve-denied, resolve-approved, approved_not_counted, Resolves,
}
use domesticoracle.Tests.Host.{host, scheme}
use domesticoracle.Tests.Gate.{setup, home, held_purchase}

abbrev executor : Executor ℕ
executor action args n = (returned action, suc n)

claimed_once_example :
    (claim "apr_0" home ≡ (some held_purchase, close "apr_0" "resolving" home))
    × (claim "apr_0" (claim "apr_0" home).1 ≡ (none, (claim "apr_0" home).1))
claimed_once_example = claimed_once "apr_0" held_purchase home (unfold lookup in refl) refl

resolve-denied_example :
    let (reply, (s', n)) = resolve setup 5 6 (some executor) "apr_0" "deny" home 0 in
    (n ≡ 0)
    × (reply ≡ denied_by_owner "make_purchase" "item=tea")
    × (lookup "apr_0" s'.approvals ≡ some (record held_purchase { status = "denied" }))
    × (s'.ledger
        ≡ (update_outcome host scheme "k" 5 6 1 "denied" "Denied by owner." "n/a" home.ledger).1)
resolve-denied_example =
    resolve-denied setup 5 6 (some executor) "apr_0" "deny" held_purchase home 0
      (unfold lookup in refl) refl refl

resolve-approved_example :
    let (reply, (s', n)) = resolve setup 5 6 (some executor) "apr_0" "approve" home 0 in
    (n ≡ 1)
    × (lookup "apr_0" s'.approvals
        ≡ some (record held_purchase { status = "executed"; approved_by_owner = true }))
    × Resolves setup 5 6 (some executor) "apr_0" home.ledger s'.ledger "executed"
resolve-approved_example =
    resolve-approved setup 5 6 (some executor) "apr_0" executor held_purchase home 0
      (unfold lookup in refl) refl refl

approved_not_counted_example :
    let after = (resolve setup 5 6 (some executor) "apr_0" "approve" home 0).1.0 in
    sum_today host setup.reading "make_purchase" (num_of 0) after.ledger.rows
    ≡ sum_today host setup.reading "make_purchase" (num_of 0) home.ledger.rows
approved_not_counted_example =
    approved_not_counted setup 5 6 (some executor) "apr_0" "approve" (num_of 0) home 0
