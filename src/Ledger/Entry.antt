-- ===== src/Ledger/Entry.antt =====
-- backend/ledger.py: the row of the ledger, the two texts that are hashed, and the stored state.
use Prim.Native.Nat.{◌-◌}
use domesticoracle.Prelude.{ℕ, suc, ◌*◌, String, Option, none, List, ◌∷◌, []}
use domesticoracle.Prelude.Int.{ℤ, pos, negsuc}
use domesticoracle.Python.{
  Python, Num, fin, unit, Json, num, str, obj, dict_of, dumps, concat, nat_text,
}

pub record Row : Type 0 where
  pub id : ℕ
  pub ts : Num
  pub actor_id : String
  pub action : String
  pub args_summary : String
  pub args_json : String
  pub decision : String
  pub status : String
  pub outcome : String
  pub prev_hash : String
  pub hash : String
  pub sig : String
  pub category : String
  pub risk : ℤ

abbrev pub genesis_hash : String
genesis_hash = "0000000000000000000000000000000000000000000000000000000000000000"

abbrev pub num_of_ℤ : ℤ → Num
num_of_ℤ (pos n) = fin (pos (n * unit))
num_of_ℤ (negsuc n) = fin (negsuc (suc n * unit - 1))

unfoldable pub payload : Row → Json
payload entry = obj (
    dict_of (
      ("action", str entry.action)
      ∷ ("actor_id", str entry.actor_id)
      ∷ ("args_json", str entry.args_json)
      ∷ ("args_summary", str entry.args_summary)
      ∷ ("category", str entry.category)
      ∷ ("decision", str entry.decision)
      ∷ ("outcome", str entry.outcome)
      ∷ ("prev_hash", str entry.prev_hash)
      ∷ ("risk", num (num_of_ℤ entry.risk))
      ∷ ("status", str entry.status)
      ∷ ("ts", num entry.ts)
      ∷ []))

unfoldable pub payload_legacy : Row → Json
payload_legacy entry = obj (
    dict_of (
      ("ts", num entry.ts)
      ∷ ("actor_id", str entry.actor_id)
      ∷ ("action", str entry.action)
      ∷ ("args_summary", str entry.args_summary)
      ∷ ("decision", str entry.decision)
      ∷ ("status", str entry.status)
      ∷ ("outcome", str entry.outcome)
      ∷ ("prev_hash", str entry.prev_hash)
      ∷ []))

module _ (py : Python) where
  unfoldable pub canonical : Row → String
  canonical entry = dumps py (payload entry)

  unfoldable pub canonical_legacy : Row → String
  canonical_legacy entry = dumps py (payload_legacy entry)

  unfoldable pub compute_hash : Row → String
  unfolding canonical
  compute_hash entry = py.sha256 (canonical entry)

  unfoldable pub legacy_hash : Row → String
  unfolding canonical_legacy
  legacy_hash entry = py.sha256 (canonical_legacy entry)

  -- The text that an anchor signs.
  abbrev pub anchor_text : ℕ → String → String
  anchor_text entry_id entry_hash = concat (nat_text py entry_id ∷ ":" ∷ entry_hash ∷ [])

-- One line of anchor.log.
pub record Anchor : Type 0 where
  pub id : ℕ
  pub hash : String
  pub ts : ℕ
  pub sig : String

-- The rows in the order of their ids with the last id given out, anchor.log if it exists, and the
-- checkpoint of the last verification in memory.
pub record Ledger : Type 0 where
  pub rows : List Row
  pub last_id : ℕ
  pub anchor_file : Option (List Anchor)
  pub checkpoint_id : ℕ
  pub checkpoint_hash : String

-- The ledger of a new database, in a process that has verified nothing.
abbrev pub init_db : Ledger
init_db = record {
  rows = [];
  last_id = 0;
  anchor_file = none;
  checkpoint_id = 0;
  checkpoint_hash = genesis_hash;
}
