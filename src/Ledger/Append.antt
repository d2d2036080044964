-- ===== src/Ledger/Append.antt =====
-- backend/ledger.py: appending an entry and anchoring it. `key` is the server's private key, as
-- crypto.sign loads it; `now` and `written` are the clock when the entry and its anchor are made.
use domesticoracle.Prelude.{ℕ, ◌+◌, String, Option, none, some, List, [], ◌∷◌, ◌++◌, last?}
use domesticoracle.Prelude.Int.{ℤ, pos}
use domesticoracle.Python.{Python, fin, Dict, obj, end, set, dumps, concat, nat_text}
use domesticoracle.Crypto.{Signatures}
use domesticoracle.Ledger.Entry.{Row, Anchor, Ledger, genesis_hash, compute_hash, anchor_text}

-- The arguments of `append`; a provenance that is an empty dict counts as none.
pub record Draft : Type 0 where
  pub actor_id : String
  pub action : String
  pub args_summary : String
  pub decision : String
  pub status : String
  pub outcome : String
  pub category : String
  pub risk : ℤ
  pub args : Dict
  pub provenance : Option Dict

abbrev pub with_provenance : Option Dict → Dict → Dict
with_provenance none args = args
with_provenance (some end) args = args
with_provenance (some p) args = set "_provenance" (obj p) args

abbrev pub tip : List Row → String
tip rows = elim (last? rows) [ none ↦ genesis_hash | some row ↦ row.hash ]

module _ (py : Python) (sg : Signatures) (key : String) (written : ℕ) where
  unfoldable pub write_anchor : ℕ → String → Option (List Anchor) → Option (List Anchor)
  write_anchor entry_id entry_hash file =
      let line : Anchor = record {
        id = entry_id;
        hash = entry_hash;
        ts = written;
        sig = sg.sign_with key (anchor_text py entry_id entry_hash);
      } in
      elim file [ none ↦ some (line ∷ []) | some lines ↦ some (lines ++ line ∷ []) ]

module _ (py : Python) (sg : Signatures) (key : String) (now written : ℕ) where
  unfoldable pub new_entry : Draft → Ledger → Row
  new_entry d l =
      let entry : Row = record {
        id = l.last_id + 1;
        ts = fin (pos now);
        actor_id = d.actor_id;
        action = d.action;
        args_summary = d.args_summary;
        args_json = dumps py (obj (with_provenance d.provenance d.args));
        decision = d.decision;
        status = d.status;
        outcome = d.outcome;
        prev_hash = tip l.rows;
        hash = "";
        sig = "";
        category = d.category;
        risk = d.risk;
      } in
      let digest = compute_hash py entry in
      record entry { hash = digest; sig = sg.sign_with key digest }

  unfoldable pub append : Draft → Ledger → Row × Ledger
  unfolding new_entry write_anchor
  append d l =
      let entry = new_entry d l in
      (
        entry,
        record l {
          rows = l.rows ++ entry ∷ [];
          last_id = entry.id;
          anchor_file = write_anchor py sg key written entry.id entry.hash l.anchor_file;
        },
      )

  -- Records the resolution of a held action as a new entry.
  unfoldable pub update_outcome : ℕ → String → String → String → Ledger → Row × Ledger
  unfolding append
  update_outcome entry_id status outcome decision l =
      append
        (record {
          actor_id = "ora.system";
          action = "resolve";
          args_summary = concat ("resolves ledger entry #" ∷ nat_text py entry_id ∷ []);
          decision = decision;
          status = status;
          outcome = outcome;
          category = "governance";
          risk = pos 0;
          args = end;
          provenance = none;
        })
        l
