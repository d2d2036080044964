-- ===== src/Consent/Trail.antt =====
-- What the ledger and the approval queue hold of a request once it is answered.
use domesticoracle.Prelude.{ℕ, String, ◌≡◌, refl, subst, Option, none, some, [], ◌∷◌, ◌++◌, text_eq}
use domesticoracle.Prelude.Int.{ℤ}
use domesticoracle.Prelude.Table.{Table}
use domesticoracle.Policy.{Decision, hold, deny, decision_text}
use domesticoracle.Ledger.{Row, Ledger, new_entry, append}
use domesticoracle.Consent.Tables.{Store, Approval, Effect, returned, raised, Callable}
use domesticoracle.Consent.Paths.{request-ends}
use domesticoracle.Consent.Gate.{
  Setup, Call, Status, executed, denied, held, Answer, Reply, answer, failed, record_entry,
  draft_of, done, queued, refuse, suspend, request_action,
}

-- The ledger's word for what became of a request.
abbrev pub outcome_text : Status → String
outcome_text executed = "executed"
outcome_text denied = "blocked"
outcome_text held = "pending"

-- An answer's trail: one entry is added, under the id the answer names, that tells who asked for
-- what and what became of it. A held request waits in the queue, linked to that entry.
pub record HasTrail (c : Call) (l : Ledger) (s' : Store) (a : Answer) : Type 0 where
  pub entry : Row
  pub added : s'.ledger.rows ≡ l.rows ++ entry ∷ []
  pub named : entry.id ≡ a.ledger_id
  pub who : entry.actor_id ≡ c.actor_id
  pub what : entry.action ≡ c.action
  pub outcome : entry.status ≡ outcome_text a.status

-- The trail of an answer; a request that ends in an exception has none to show.
abbrev pub Trail : {W : Type 0} → Call → Ledger → Reply × (Store × W) → Type 0
Trail c l (answer a, (s', w)) = HasTrail c l s' a
Trail c l (failed e, (s', w)) = Unit

abbrev with_world : {W : Type 0} → W → Reply × Store → Reply × (Store × W)
with_world w (reply, s) = (reply, (s, w))

module _ (st : Setup) (c : Call) where
  recorded :
      (decision : String) (status : Status) (outcome : String) (risk : ℤ) (s : Store)
      (reason : String) (result approval_id : Option String)
      → HasTrail c s.ledger
          (record_entry st c decision (outcome_text status) outcome risk s).1
          (record {
            status = status;
            reason = reason;
            result = result;
            approval_id = approval_id;
            ledger_id = (record_entry st c decision (outcome_text status) outcome risk s).0;
          })
  unfolding record_entry append new_entry draft_of
  recorded decision status outcome risk s reason result approval_id = record {
    entry = _;
    added = refl;
    named = refl;
    who = refl;
    what = refl;
    outcome = refl;
  }

  refuse-Trail :
      (reason told : String) (risk : ℤ) (s : Store) {W : Type 0} (w : W)
      → Trail c s.ledger
          ((refuse st c deny reason told risk s).0, ((refuse st c deny reason told risk s).1, w))
  unfolding refuse
  refuse-Trail reason told risk s w = recorded "deny" denied reason risk s told none none

  -- An added row of the queue leaves the ledger's trail as it is.
  with_approvals :
      (s s' : Store) (a : Answer) (approvals : Table String Approval)
      → HasTrail c s.ledger s' a
      → HasTrail c s.ledger (record s' { approvals = approvals }) a
  with_approvals s s' a approvals t = record {
    entry = t.entry;
    added = t.added;
    named = t.named;
    who = t.who;
    what = t.what;
    outcome = t.outcome;
  }

  queued-Trail :
      (reason : String) (id : ℕ) (s s' : Store) (approvals : Option (Table String Approval))
      {W : Type 0} (w : W)
      → HasTrail c s.ledger s' (record {
        status = held;
        reason = reason;
        result = none;
        approval_id = some c.approval_id;
        ledger_id = id;
      })
      → Trail c s.ledger
          ((queued st c reason id s' approvals).0, ((queued st c reason id s' approvals).1, w))
  unfolding queued
  queued-Trail reason id s s' none w t = tt
  queued-Trail reason id s s' (some approvals) w t = with_approvals s s' _ approvals t

  suspend-Trail :
      (reason : String) (risk : ℤ) (s : Store) {W : Type 0} (w : W)
      → Trail c s.ledger
          ((suspend st c hold reason risk s).0, ((suspend st c hold reason risk s).1, w))
  unfolding suspend
  suspend-Trail reason risk s w =
      queued-Trail reason _ s _ _ w
        (recorded "hold" held reason risk s reason none (some c.approval_id))

  module _ {W : Type 0} (execute : Callable W) where
    done-Trail :
        (decision : Decision) (note : String → String) (told : String) (risk : ℤ) (s : Store)
        (work : Effect × W)
        → Trail c s.ledger (done st c execute decision note told risk s work)
    unfolding done
    done-Trail decision note told risk s (raised error, w) = tt
    done-Trail decision note told risk s (returned result, w) =
        recorded (decision_text decision) executed (note result) risk s told (some result) none

    -- Every request that is answered has left its trail: exactly one entry, under the id that the
    -- answer names, with the actor, the action and what became of it.
    pub request-HasTrail : (s : Store) (w : W) → Trail c s.ledger (request_action st c execute s w)
    request-HasTrail s w = request-ends st c execute s w (Trail c s.ledger) (record {
      failing = λ error s' k. tt;
      refusing = λ reason told risk s' k.
          subst (λ l. Trail c l (with_world w (refuse st c deny reason told risk s'))) k.ledger
            (refuse-Trail reason told risk s' w);
      suspending = λ reason risk s' k.
          subst (λ l. Trail c l (with_world w (suspend st c hold reason risk s'))) k.ledger
            (suspend-Trail reason risk s' w);
      doing = λ decision note told risk s' k.
          subst (λ l. Trail c l (done st c execute decision note told risk s' (execute w))) k.ledger
            (done-Trail decision note told risk s' (execute w));
    })
