-- ===== src/Verifier.antt =====
-- tools/verify_ledger.py: the offline check of an exported ledger. `none` is the ValueError that ends
-- the script; `is_key` and `is_hex` tell which texts the package `cryptography` and bytes.fromhex read.
pub mod Keys
pub mod Agreement
use domesticoracle.Prelude.{
  String, Bool, true, false, ◌||◌, not, Option, none, some, List, [], ◌∷◌, ◌++◌, any, ◌==◌, text_eq,
  if◌then◌else◌,
}
use domesticoracle.Python.{Python, Json, num, str, obj, dict_of, dumps}
use domesticoracle.Crypto.{Signatures}
use domesticoracle.Ledger.{Row, genesis_hash, num_of_ℤ}

-- The export, with the public keys of its keyset in their order.
pub record Export : Type 0 where
  pub public_key_hex : String
  pub keyset : List String
  pub entries : List Row

abbrev payload_new : Row → Json
payload_new e = obj (
    dict_of (
      ("ts", num e.ts)
      ∷ ("actor_id", str e.actor_id)
      ∷ ("action", str e.action)
      ∷ ("args_summary", str e.args_summary)
      ∷ ("args_json", str e.args_json)
      ∷ ("decision", str e.decision)
      ∷ ("status", str e.status)
      ∷ ("outcome", str e.outcome)
      ∷ ("prev_hash", str e.prev_hash)
      ∷ ("category", str e.category)
      ∷ ("risk", num (num_of_ℤ e.risk))
      ∷ []))

abbrev payload_old : Row → Json
payload_old e = obj (
    dict_of (
      ("ts", num e.ts)
      ∷ ("actor_id", str e.actor_id)
      ∷ ("action", str e.action)
      ∷ ("args_summary", str e.args_summary)
      ∷ ("decision", str e.decision)
      ∷ ("status", str e.status)
      ∷ ("outcome", str e.outcome)
      ∷ ("prev_hash", str e.prev_hash)
      ∷ []))

-- A key that is set and has not been seen.
abbrev is_new : String → List String → Bool
is_new hex seen = not (hex == "" || any (λ s. s == hex) seen)

module _ (py : Python) (sg : Signatures) (is_key is_hex : String → Bool) where
  unfoldable pub check_hash : Row → Bool
  check_hash e =
      (py.sha256 (dumps py (payload_new e)) == e.hash)
      || (py.sha256 (dumps py (payload_old e)) == e.hash)

  unfoldable pub add_key : String → Option (List String) → Option (List String)
  add_key hex none = none
  add_key hex (some keys) =
      if is_new hex keys then (if is_key hex then some (keys ++ hex ∷ []) else none) else some keys

  -- Over the reversed keyset: the last key is added first.
  unfoldable pub add_keys : List String → Option (List String) → Option (List String)
  unfolding add_key
  add_keys [] keys = keys
  add_keys (hex ∷ later) keys = add_key hex (add_keys later keys)

  unfoldable pub build_pub_keys : Export → Option (List String)
  unfolding add_keys add_key
  build_pub_keys x = add_keys x.keyset (add_key x.public_key_hex (some []))

  unfoldable pub verify_sig : List String → String → String → Option Bool
  verify_sig [] sig_hex hash_str = some false
  verify_sig (key ∷ keys) sig_hex hash_str =
      let rest = verify_sig keys sig_hex hash_str in
      if not (is_hex sig_hex)
      then none
      else if sg.verify_with key hash_str sig_hex
      then some true
      else rest

  unfoldable pub verify_entries : List String → String → List Row → Option Bool
  unfolding check_hash verify_sig
  verify_entries keys prev_hash [] = some true
  verify_entries keys prev_hash (e ∷ entries) =
      let rest = verify_entries keys e.hash entries in
      if not (check_hash e)
      then some false
      else if not (e.prev_hash == prev_hash)
      then some false
      else elim (verify_sig keys e.sig e.hash) [
        | none ↦ none
        | some true ↦ rest
        | some false ↦ some false
      ]

  abbrev pub verify_with_keys : Option (List String) → List Row → Option Bool
  verify_with_keys none entries = none
  verify_with_keys (some []) entries = some false
  verify_with_keys (some (key ∷ keys)) entries = verify_entries (key ∷ keys) genesis_hash entries

  unfoldable pub verify_export : Export → Option Bool
  unfolding build_pub_keys verify_entries
  verify_export x = verify_with_keys (build_pub_keys x) x.entries
