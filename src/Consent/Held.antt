-- ===== src/Consent/Held.antt =====
-- What a held request leaves in the queue, and what its approval runs.
use domesticoracle.Prelude.{ℕ, String, ◌≡◌, refl, ◌∙◌, ap, Option, none, some, subst, text_eq}
use domesticoracle.Prelude.Int.{ℤ}
use domesticoracle.Prelude.Table.{Table, lookup, insert, lookup-insert}
use domesticoracle.Policy.{Decision, hold, deny}
use domesticoracle.Consent.Tables.{Store, Approval, Effect, returned, raised, Callable}
use domesticoracle.Consent.Gate.{
  Setup, Call, held, Answer, Reply, answer, failed, done, queued, refuse, suspend, pending_approval,
  request_action,
}
use domesticoracle.Consent.Paths.{request-ends}
use domesticoracle.Consent.Queue.{Executor, resolve}
use domesticoracle.Consent.Owner.{resolve-approved}

-- A held request has done nothing to the outside, and its action and arguments wait under the id
-- that the answer names.
pub record IsQueued {W : Type 0} (st : Setup) (c : Call) (w : W) (a : Answer) (s' : Store) (w' : W)
    : Type 0 where
  pub untouched : w' ≡ w
  pub named : a.approval_id ≡ some c.approval_id
  pub waiting :
      lookup c.approval_id s'.approvals ≡ some (pending_approval st c a.reason a.ledger_id)

abbrev pub Queued : {W : Type 0} → Setup → Call → W → Reply × (Store × W) → Type 0
Queued st c w (answer a, (s', w')) = a.status ≡ held → IsQueued st c w a s' w'
Queued st c w (failed e, (s', w')) = Unit

module _ (st : Setup) (c : Call) where
  queued-IsQueued :
      (reason : String) (id : ℕ) (s : Store) (rows : Option (Table String Approval)) {W : Type 0}
      (w : W)
      → insert c.approval_id (pending_approval st c reason id) s.approvals ≡ rows
      → Queued st c w ((queued st c reason id s rows).0, ((queued st c reason id s rows).1, w))
  unfolding queued
  queued-IsQueued reason id s none w h = tt
  queued-IsQueued reason id s (some rows) w h = λ _. record {
    untouched = refl;
    named = refl;
    waiting = lookup-insert c.approval_id (pending_approval st c reason id) s.approvals h;
  }

  suspend-IsQueued :
      (reason : String) (risk : ℤ) (s : Store) {W : Type 0} (w : W)
      → Queued st c w
          ((suspend st c hold reason risk s).0, ((suspend st c hold reason risk s).1, w))
  unfolding suspend
  suspend-IsQueued reason risk s w = queued-IsQueued reason _ _ _ w refl

  refuse-IsQueued :
      (reason told : String) (risk : ℤ) (s : Store) {W : Type 0} (w : W)
      → Queued st c w
          ((refuse st c deny reason told risk s).0, ((refuse st c deny reason told risk s).1, w))
  unfolding refuse
  refuse-IsQueued reason told risk s w = λ h. cc

  module _ {W : Type 0} (execute : Callable W) where
    done-IsQueued :
        (decision : Decision) (note : String → String) (told : String) (risk : ℤ) (s : Store)
        (w : W) (work : Effect × W)
        → Queued st c w (done st c execute decision note told risk s work)
    unfolding done
    done-IsQueued decision note told risk s w (raised error, w') = tt
    done-IsQueued decision note told risk s w (returned result, w') = λ h. cc

    pub request-IsQueued : (s : Store) (w : W) → Queued st c w (request_action st c execute s w)
    request-IsQueued s w = request-ends st c execute s w (Queued st c w) (record {
      failing = λ error s' k. tt;
      refusing = λ reason told risk s' k. refuse-IsQueued reason told risk s' w;
      suspending = λ reason risk s' k. suspend-IsQueued reason risk s' w;
      doing =
          λ decision note told risk s' k. done-IsQueued decision note told risk s' w (execute w);
    })

    -- A request that is held leaves the outside as it is, and when the owner then approves it, with
    -- an executor registered, the outside becomes what the executor makes of exactly the action and
    -- the arguments that were asked for.
    pub held_then_approved :
        (run : Executor W) (now written : ℕ) (s s' : Store) (w w' : W) (a : Answer)
        → request_action st c execute s w ≡ (answer a, (s', w'))
        → a.status ≡ held
        → (w' ≡ w)
          × ((resolve st now written (some run) c.approval_id "approve" s' w').1.1
              ≡ (run c.action c.args w).1)
    unfolding pending_approval
    held_then_approved run now written s s' w w' a asked h =
        let q = subst (Queued st c w) asked (request-IsQueued s w) h in
        (
          q.untouched,
          (resolve-approved st now written (some run) c.approval_id run _ s' w' q.waiting refl
                refl).0
              ∙ ap (λ outside. (run c.action c.args outside).1) q.untouched,
        )
