-- ===== src/Server/Kept.antt =====
-- backend/main.py: what nobody but the owner may change, and the key that signs, once it is loaded.
use domesticoracle.Prelude.{ℕ, String, ◌≡◌, refl, some, List, [], ◌∷◌}
use domesticoracle.Crypto.{
  Signatures, KeyStore, KeyRecord, load_or_create_server_key, server_public_key_hex,
  all_public_keys, ensure_keyset, first_keyset,
}
use domesticoracle.Crypto.Info.{keyset_info}
use domesticoracle.Consent.Untouched.{IsUntouched, IsUntouched-then}
use domesticoracle.Server.{Backend}

-- What stays as it is: what `IsUntouched` says of the tables, and the key that signs, once loaded.
pub record IsGoverned (b b' : Backend) : Type 0 where
  pub store : IsUntouched b.store b'.store
  pub key : (key : String) → b.keys.server_key ≡ some key → b'.keys.server_key ≡ some key

pub IsGoverned-then : (b b' b'' : Backend) → IsGoverned b b' → IsGoverned b' b'' → IsGoverned b b''
IsGoverned-then b b' b'' h k = record {
  store = IsUntouched-then b.store b'.store b''.store h.store k.store;
  key = λ key e. k.key key (h.key key e);
}

abbrev pub KeepsKey : KeyStore → KeyStore → Type 0
KeepsKey k k' = (key : String) → k.server_key ≡ some key → k'.server_key ≡ some key

abbrev pub same_key : (k : KeyStore) → KeepsKey k k
same_key k key e = e

module _ (fresh : String) (now : ℕ) where
  pub load-KeepsKey : (k : KeyStore) → KeepsKey k (load_or_create_server_key fresh now k).1
  unfolding load_or_create_server_key
  load-KeepsKey k key e = rw e refl

  module _ (sg : Signatures) where
    pub public-KeepsKey : (k : KeyStore) → KeepsKey k (server_public_key_hex sg fresh now k).1
    unfolding server_public_key_hex
    public-KeepsKey k = load-KeepsKey k

    pub all-KeepsKey : (k : KeyStore) → KeepsKey k (all_public_keys sg fresh now k).1
    unfolding all_public_keys
    all-KeepsKey k = public-KeepsKey k

    abbrev ensured : KeyStore → List KeyRecord → List KeyRecord × KeyStore
    ensured k [] = first_keyset sg fresh now k
    ensured k (x ∷ xs) = (x ∷ xs, k)

    ensured-KeepsKey : (k : KeyStore) (ks : List KeyRecord) → KeepsKey k (ensured k ks).1
    unfolding first_keyset
    ensured-KeepsKey k [] = public-KeepsKey k
    ensured-KeepsKey k (x ∷ xs) = λ key e. e

    ensure-KeepsKey : (k : KeyStore) → KeepsKey k (ensure_keyset sg fresh now k).1
    unfolding ensure_keyset
    ensure-KeepsKey k = ensured-KeepsKey k k.keyset

    pub info-KeepsKey : (k : KeyStore) → KeepsKey k (keyset_info sg fresh now k).1
    unfolding keyset_info
    info-KeepsKey k key e =
        public-KeepsKey (ensure_keyset sg fresh now k).1 key (ensure-KeepsKey k key e)
