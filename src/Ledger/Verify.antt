-- ===== src/Ledger/Verify.antt =====
-- backend/ledger.py: walking the hash chain. `pubs` are the public keys of crypto.all_public_keys,
-- the server's own first; `own` is that one, which crypto.verify takes for an empty text.
use domesticoracle.Prelude.{
  ℕ, String, Bool, true, false, ◌||◌, Option, none, some, List, [], ◌∷◌, any, keep, length, ltb,
  not, ◌==◌, text_eq, if◌then◌else◌,
}
use domesticoracle.Python.{Python}
use domesticoracle.Crypto.{Signatures}
use domesticoracle.Ledger.Entry.{Row, Ledger, genesis_hash, compute_hash, legacy_hash}

pub record Verdict : Type 0 where
  pub valid : Bool
  pub checked : ℕ
  pub broken_at : Option ℕ
  pub reason : String

-- The loop ends early with a verdict, or with the last id and hash that it has checked.
pub data Walk : Type 0 where
  broken : Verdict → Walk
  walked : ℕ → String → Walk

abbrev pub fails : ℕ → ℕ → String → Walk
fails checked entry_id reason =
    broken (record { valid = false; checked = checked; broken_at = some entry_id; reason = reason })

module _ (py : Python) (sg : Signatures) (own : String) (pubs : List String) where
  -- `_compute_hash(entry) == entry["hash"]`, or the legacy hash is.
  unfoldable pub hash_matches : Row → Bool
  hash_matches entry = (compute_hash py entry == entry.hash) || (legacy_hash py entry == entry.hash)

  unfoldable pub verify_entry_sig : Row → Bool
  verify_entry_sig entry =
      if entry.sig == ""
      then false
      else any
          (λ pub_hex. sg.verify_with (if pub_hex == "" then own else pub_hex) entry.hash entry.sig)
          pubs

  unfoldable pub walk : ℕ → String → List Row → Walk
  walk checked prev_hash [] = walked checked prev_hash
  walk checked prev_hash (entry ∷ rows) =
      let rest = walk entry.id entry.hash rows in
      if not (entry.prev_hash == prev_hash)
      then fails checked entry.id "Hash chain link broken."
      else if not (hash_matches entry)
      then fails checked entry.id "Entry contents do not match its hash."
      else if not (verify_entry_sig entry)
      then fails checked entry.id "Entry signature is missing or invalid (forged)."
      else rest

  abbrev pub conclude : Walk → Ledger → Verdict × Ledger
  conclude (broken v) l = (v, l)
  conclude (walked checked prev_hash) l = (
    record { valid = true; checked = length l.rows; broken_at = none; reason = "Chain intact." },
    record l { checkpoint_id = checked; checkpoint_hash = prev_hash },
  )

  unfoldable pub verify_chain : Bool → Ledger → Verdict × Ledger
  verify_chain full l =
      let start_id = if full then 0 else l.checkpoint_id in
      let prev_hash = if full then genesis_hash else l.checkpoint_hash in
      conclude (walk start_id prev_hash (keep (λ (r : Row). ltb start_id r.id) l.rows)) l
