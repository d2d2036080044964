-- ===== src/Crypto/Keys.antt =====
-- backend/crypto.py, keys: the key file, the environment's key and keyset.json. A private key is
-- its hex text; `fresh` is the key that Ed25519PrivateKey.generate would draw.
use domesticoracle.Prelude.{
  ℕ, String, Bool, true, false, Option, none, some, List, [], ◌∷◌, ◌++◌, map, any, keep, length,
  not, ◌==◌, text_eq, if◌then◌else◌,
}

-- The package `cryptography`: the public key of a private key, signing, and a verification that
-- is false where it raises InvalidSignature or ValueError.
pub record Signatures : Type 0 where
  pub public_of : String → String
  pub sign_with : String → String → String
  pub verify_with : String → String → String → Bool

pub record KeyRecord : Type 0 where
  pub pub_hex : String
  pub rotated_in : ℕ
  pub rotated_out : Option ℕ
  pub active : Bool

-- ORA_LEDGER_KEY stripped, the key file with its modification time, the key in memory, and
-- keyset.json, where a file that is missing reads as the empty list.
pub record KeyStore : Type 0 where
  pub env_hex : String
  pub key_file : Option (String × ℕ)
  pub server_key : Option String
  pub keyset : List KeyRecord

load_file : String → ℕ → Option (String × ℕ) → KeyStore → String × KeyStore
load_file fresh now none s =
    (fresh, record s { key_file = some (fresh, now); server_key = some fresh })
load_file fresh now (some (raw, mtime)) s = (raw, record s { server_key = some raw })

load_missing : String → ℕ → KeyStore → String × KeyStore
load_missing fresh now s =
    if s.env_hex == ""
    then load_file fresh now s.key_file s
    else (s.env_hex, record s { server_key = some s.env_hex })

unfoldable pub load_or_create_server_key : String → ℕ → KeyStore → String × KeyStore
unfolding load_file load_missing
load_or_create_server_key fresh now s = elim s.server_key [
  | some key ↦ (key, s)
  | none ↦ load_missing fresh now s
]

module _ (sg : Signatures) (fresh : String) (now : ℕ) where
  unfoldable pub server_public_key_hex : KeyStore → String × KeyStore
  unfolding load_or_create_server_key
  server_public_key_hex s =
      let (key, s') = load_or_create_server_key fresh now s in (sg.public_of key, s')

  unfoldable pub sign : String → KeyStore → String × KeyStore
  unfolding load_or_create_server_key
  sign text s = let (key, s') = load_or_create_server_key fresh now s in (sg.sign_with key text, s')

  -- With no public key given, the server's own is used.
  unfoldable pub verify : String → String → Option String → KeyStore → Bool × KeyStore
  unfolding server_public_key_hex
  verify text sig none s =
      let (own, s') = server_public_key_hex s in (sg.verify_with own text sig, s')
  verify text sig (some pub_hex) s =
      if pub_hex == ""
      then (let (own, s') = server_public_key_hex s in (sg.verify_with own text sig, s'))
      else (sg.verify_with pub_hex text sig, s)

  file_time : KeyStore → ℕ
  file_time s = elim s.key_file [ none ↦ now | some (_, mtime) ↦ mtime ]

  unfoldable pub first_keyset : KeyStore → List KeyRecord × KeyStore
  unfolding server_public_key_hex file_time
  first_keyset s =
      let (own, s') = server_public_key_hex s in
      let keyset : List KeyRecord =
        record { pub_hex = own; rotated_in = file_time s'; rotated_out = none; active = true }
        ∷ [] in
      (keyset, record s' { keyset = keyset })

  unfoldable pub ensure_keyset : KeyStore → List KeyRecord × KeyStore
  unfolding first_keyset
  ensure_keyset s = elim s.keyset [ [] ↦ first_keyset s | k ∷ ks ↦ (k ∷ ks, s) ]

  unfoldable pub add_public : List String → List KeyRecord → List String
  add_public result [] = result
  add_public result (entry ∷ rest) =
      add_public
        (if any (λ h. h == entry.pub_hex) result then result else result ++ entry.pub_hex ∷ []) rest

  unfoldable pub all_public_keys : KeyStore → List String × KeyStore
  unfolding server_public_key_hex add_public
  all_public_keys s =
      let (current, s') = server_public_key_hex s in (add_public (current ∷ []) s'.keyset, s')

  abbrev pub retire : KeyRecord → KeyRecord
  retire entry =
      if entry.active then record entry { rotated_out = some now; active = false } else entry

  pub record Rotated : Type 0 where
    pub new_pub_hex : String
    pub retired_pub_hex : String
    pub rotated_at : ℕ
    pub rotation_count : ℕ

  -- `new_key` is the key that is drawn for the rotation. The file is replaced in one step.
  unfoldable pub rotate_server_key : String → KeyStore → Rotated × KeyStore
  unfolding server_public_key_hex ensure_keyset
  rotate_server_key new_key s =
      let (keyset, s₁) = ensure_keyset s in
      let (old_pub, s₂) = server_public_key_hex s₁ in
      let new_pub = sg.public_of new_key in
      let keyset' : List KeyRecord =
        map retire keyset
        ++ record { pub_hex = new_pub; rotated_in = now; rotated_out = none; active = true } ∷ [] in
      (
        record {
          new_pub_hex = new_pub;
          retired_pub_hex = old_pub;
          rotated_at = now;
          rotation_count = length (keep (λ (k : KeyRecord). not k.active) keyset');
        },
        record s₂ { key_file = some (new_key, now); server_key = some new_key; keyset = keyset' },
      )

-- A new process: what was in memory is gone.
abbrev pub restart : KeyStore → KeyStore
restart s = record s { server_key = none }
