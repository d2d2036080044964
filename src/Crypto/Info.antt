-- ===== src/Crypto/Info.antt =====
-- backend/crypto.py: the key status that the owner is shown, public keys only.
use domesticoracle.Prelude.{
  ℕ, String, true, false, Option, none, some, List, [], ◌∷◌, keep, length, not,
}
use domesticoracle.Crypto.Keys.{
  Signatures, KeyRecord, KeyStore, ensure_keyset, server_public_key_hex,
}

pub record KeyInfo : Type 0 where
  pub current_pub_hex : String
  pub rotation_count : ℕ
  pub active_since : Option ℕ
  pub history : List KeyRecord

abbrev first_active : List KeyRecord → Option ℕ
first_active [] = none
first_active (k ∷ keyset) = elim k.active [ true ↦ some k.rotated_in | false ↦ first_active keyset ]

unfoldable pub keyset_info : Signatures → String → ℕ → KeyStore → KeyInfo × KeyStore
unfolding ensure_keyset server_public_key_hex
keyset_info sg fresh now s =
    let s1 = (ensure_keyset sg fresh now s).1 in
    let (current, s2) = server_public_key_hex sg fresh now s1 in
    (
      record {
        current_pub_hex = current;
        rotation_count = length (keep (λ (k : KeyRecord). not k.active) s1.keyset);
        active_since = first_active s1.keyset;
        history = s1.keyset;
      },
      s2,
    )
