-- ===== src/Consent/Untouched.antt =====
-- backend/consent.py: what no request to the gate changes.
use domesticoracle.Prelude.{
  ℕ, Bool, true, false, String, ◌≡◌, refl, ap, sym, ◌∙◌, subst, Option, none, some, List, [], ◌++◌,
  ◌⊎◌, arith, text_eq, inl, inr, eq_iff,
}
use mathlib.Core.List.{append_assoc, append-nil}
use domesticoracle.Prelude.Int.{ℤ}
use domesticoracle.Prelude.Table.{Table, lookup, insert, lookup-put}
use domesticoracle.Policy.{Decision, hold, deny}
use domesticoracle.Ledger.{Row, append}
use domesticoracle.Consent.Tables.{Agent, Store, Approval, Effect, returned, raised, Callable}
use domesticoracle.Consent.Gate.{
  Setup, Call, record_entry, done, queued, refuse, suspend, pending_approval, request_action,
}
use domesticoracle.Consent.Paths.{Keeps, request-ends}
use domesticoracle.Consent.Signed.{Signed, nonce_checked, checked_agent, verify_agent_request}
use domesticoracle.Python.{Python}
use domesticoracle.Crypto.{Signatures, Nonces, consume_nonce}

-- Agents, rules and mode are as before, every approval that there was is as it was, and every entry
-- of the ledger still stands where it stood.
pub record IsUntouched (s s' : Store) : Type 0 where
  pub agents : s'.agents ≡ s.agents
  pub rules : s'.policies.rows ≡ s.policies.rows
  pub mode : s'.policies.mode ≡ s.policies.mode
  pub approvals :
      (id : String) (a : Approval)
      → lookup id s.approvals ≡ some a
      → lookup id s'.approvals ≡ some a
  pub added : List Row
  pub entries : s'.ledger.rows ≡ s.ledger.rows ++ added

pub IsUntouched-same : (s : Store) → IsUntouched s s
IsUntouched-same s = record {
  agents = refl;
  rules = refl;
  mode = refl;
  approvals = λ id a h. h;
  added = [];
  entries = sym (append-nil s.ledger.rows);
}

pub IsUntouched-then :
    (s s' s'' : Store) → IsUntouched s s' → IsUntouched s' s'' → IsUntouched s s''
IsUntouched-then s s' s'' h k = record {
  agents = k.agents ∙ h.agents;
  rules = k.rules ∙ h.rules;
  mode = k.mode ∙ h.mode;
  approvals = λ id a found. k.approvals id a (h.approvals id a found);
  added = h.added ++ k.added;
  entries =
      k.entries
      ∙ ap (λ (rows : List Row). rows ++ k.added) h.entries
      ∙ append_assoc s.ledger.rows h.added k.added;
}

-- From equations of the fields.
pub IsUntouched-by :
    (s s' : Store)
    → s'.agents ≡ s.agents
    → s'.policies.rows ≡ s.policies.rows
    → s'.policies.mode ≡ s.policies.mode
    → s'.approvals ≡ s.approvals
    → s'.ledger.rows ≡ s.ledger.rows
    → IsUntouched s s'
IsUntouched-by s s' agents rules mode approvals rows = record {
  agents = agents;
  rules = rules;
  mode = mode;
  approvals = λ id a found. subst (λ t. lookup id t ≡ some a) (sym approvals) found;
  added = [];
  entries = rows ∙ sym (append-nil s.ledger.rows);
}

Keeps-IsUntouched : (s s' : Store) → Keeps s s' → IsUntouched s s'
Keeps-IsUntouched s s' k =
    IsUntouched-by s s' k.agents k.rules k.mode k.approvals (ap (λ l. l.rows) k.ledger)

insert-kept :
    (key id : String) (v a : Approval) (t t' : Table String Approval)
    → insert key v t ≡ some t'
    → lookup id t ≡ some a
    → lookup id t' ≡ some a
unfolding insert
insert-kept key id v a t t' h found = ground (arith, lookup-put key id v t, eq_iff key id)

module _ (st : Setup) (c : Call) where
  record_entry-IsUntouched :
      (decision status outcome : String) (risk : ℤ) (s : Store)
      → IsUntouched s (record_entry st c decision status outcome risk s).1
  unfolding record_entry append
  record_entry-IsUntouched decision status outcome risk s = record {
    agents = refl;
    rules = refl;
    mode = refl;
    approvals = λ id a h. h;
    added = _;
    entries = refl;
  }

  queued-IsUntouched :
      (reason : String) (id : _) (v : Approval) (s : Store)
      (approvals : Option (Table String Approval))
      → insert c.approval_id v s.approvals ≡ approvals
      → IsUntouched s (queued st c reason id s approvals).1
  unfolding queued
  queued-IsUntouched reason id v s none e = IsUntouched-same s
  queued-IsUntouched reason id v s (some approvals) e = record {
    agents = refl;
    rules = refl;
    mode = refl;
    approvals = λ key a found. insert-kept c.approval_id key v a s.approvals approvals e found;
    added = [];
    entries = sym (append-nil s.ledger.rows);
  }

  refuse-IsUntouched :
      (reason told : String) (risk : ℤ) (s : Store)
      → IsUntouched s (refuse st c deny reason told risk s).1
  unfolding refuse
  refuse-IsUntouched reason told risk s = record_entry-IsUntouched _ _ _ risk s

  suspend-IsUntouched :
      (reason : String) (risk : ℤ) (s : Store) → IsUntouched s (suspend st c hold reason risk s).1
  unfolding suspend
  suspend-IsUntouched reason risk s =
      let (id, s') = record_entry st c "hold" "pending" reason risk s in
      IsUntouched-then s s' _ (record_entry-IsUntouched "hold" "pending" reason risk s)
        (queued-IsUntouched reason id (pending_approval st c reason id) s' _ refl)

  module _ {W : Type 0} (execute : Callable W) where
    done-IsUntouched :
        (decision : Decision) (note : String → String) (told : String) (risk : ℤ) (s : Store)
        (work : Effect × W)
        → IsUntouched s (done st c execute decision note told risk s work).1.0
    unfolding done
    done-IsUntouched decision note told risk s (raised error, w) = IsUntouched-same s
    done-IsUntouched decision note told risk s (returned result, w) =
        record_entry-IsUntouched _ _ _ risk s

    -- No request to the gate, however it ends, changes agents, rules or mode, touches an approval
    -- that is in the queue, or takes away an entry of the ledger.
    pub request-IsUntouched :
        (s : Store) (w : W) → IsUntouched s (request_action st c execute s w).1.0
    request-IsUntouched s w =
        request-ends st c execute s w (λ r. IsUntouched s r.1.0)
          (record {
            failing = λ error s' k. Keeps-IsUntouched s s' k;
            refusing = λ reason told risk s' k.
                IsUntouched-then s s' _ (Keeps-IsUntouched s s' k)
                  (refuse-IsUntouched reason told risk s');
            suspending = λ reason risk s' k.
                IsUntouched-then s s' _ (Keeps-IsUntouched s s' k)
                  (suspend-IsUntouched reason risk s');
            doing = λ decision note told risk s' k.
                IsUntouched-then s s' _ (Keeps-IsUntouched s s' k)
                  (done-IsUntouched decision note told risk s' (execute w));
          })

module _ (py : Python) (sg : Signatures) (now consumed_at : ℕ) where
  nonce_checked-IsUntouched :
      (r : Signed) (s : Store) (p : Bool × Nonces)
      → IsUntouched s (nonce_checked py sg now consumed_at r s p).1
  unfolding nonce_checked
  nonce_checked-IsUntouched r s (true, nonces) = IsUntouched-by s _ refl refl refl refl refl
  nonce_checked-IsUntouched r s (false, nonces) = IsUntouched-by s _ refl refl refl refl refl

  -- A check that fails before the nonce leaves the store alone.
  checked_store :
      (r : Signed) (s : Store) (a : Agent)
      → ((checked_agent py sg now consumed_at r s (some a)).1 ≡ s)
        ⊎ ((checked_agent py sg now consumed_at r s (some a)).1
            ≡ (nonce_checked py sg now consumed_at r s
                (consume_nonce r.nonce consumed_at s.nonces)).1)
  unfolding checked_agent
  checked_store r s a = ground arith

  checked-IsUntouched :
      (r : Signed) (s : Store) (a : Option Agent)
      → IsUntouched s (checked_agent py sg now consumed_at r s a).1
  checked-IsUntouched r s none = unfold checked_agent in IsUntouched-same s
  checked-IsUntouched r s (some a) = elim (checked_store r s a) [
    | inl e ↦ subst (IsUntouched s) (sym e) (IsUntouched-same s)
    | inr e ↦
        subst (IsUntouched s) (sym e)
          (nonce_checked-IsUntouched r s (consume_nonce r.nonce consumed_at s.nonces))
  ]

  -- Neither does the check of an external agent's request.
  pub verify-IsUntouched :
      (r : Signed) (s : Store) → IsUntouched s (verify_agent_request py sg now consumed_at r s).1
  unfolding verify_agent_request
  verify-IsUntouched r s = checked-IsUntouched r s (lookup r.actor_id s.agents)
