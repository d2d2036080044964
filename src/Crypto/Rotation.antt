-- ===== src/Crypto/Rotation.antt =====
-- backend/crypto.py: what a rotation of the server's key keeps, and what it does not.
use domesticoracle.Prelude.{
  ℕ, suc, ◌+◌, String, ◌≡◌, ◌≢◌, refl, ap, Bool, true, false, ◌||◌, ◌⊎◌, inl, inr, not, none, some,
  List, [], ◌∷◌, ◌++◌, map, arith, any, keep, any-append, length, length-append, ◌==◌, text_eq,
  eq_iff, if◌then◌else◌, Bool-cases,
}
use domesticoracle.Prelude.Table.{eq_refl}
use domesticoracle.Crypto.Keys.{
  Signatures, KeyRecord, KeyStore, server_public_key_hex, all_public_keys, add_public, retire,
  rotate_server_key, restart, ensure_keyset, load_or_create_server_key,
}

-- A public key is in a list, and in a keyset.
abbrev pub listed : String → List String → Bool
listed p = any (λ h. h == p)

abbrev pub recorded : String → List KeyRecord → Bool
recorded p = any (λ (k : KeyRecord). k.pub_hex == p)

keep-append {ℓ} :
    {A : Type ℓ} (f : A → Bool) (xs ys : List A) → keep f (xs ++ ys) ≡ keep f xs ++ keep f ys
keep-append f [] ys = refl
keep-append f (x ∷ xs) ys = ground (arith, keep-append f xs ys)

module _ (sg : Signatures) (fresh : String) (now : ℕ) where
  listed-add_public :
      (p : String) (result : List String) (keyset : List KeyRecord)
      → listed p (add_public sg fresh now result keyset) ≡ (listed p result || recorded p keyset)
  unfolding add_public
  listed-add_public p result [] = ground arith
  listed-add_public p result (k ∷ keyset) = elim (Bool-cases (listed k.pub_hex result)) [
    | inl seen ↦
        rw seen (ground (arith, listed-add_public p result keyset, seen_listed result seen))
    | inr new ↦ rw new (
        ground (
          arith,
          listed-add_public p (result ++ k.pub_hex ∷ []) keyset,
          any-append (λ (h : String). h == p) result (k.pub_hex ∷ []),
        ))
  ]
    where
      seen_listed :
          (xs : List String)
          → listed k.pub_hex xs ≡ true
          → (k.pub_hex == p) ≡ true
          → listed p xs ≡ true
      seen_listed xs e q = rw (← ((eq_iff k.pub_hex p).0 q)) e

  recorded-retire :
      (p : String) (keyset : List KeyRecord)
      → recorded p (map (retire sg fresh now) keyset) ≡ recorded p keyset
  recorded-retire p [] = refl
  recorded-retire p (k ∷ keyset) = ground (arith, recorded-retire p keyset)

  retired_inactive :
      (keyset : List KeyRecord)
      → keep (λ (k : KeyRecord). k.active) (map (retire sg fresh now) keyset) ≡ []
  retired_inactive [] = refl
  retired_inactive (k ∷ keyset) = ground (arith, retired_inactive keyset)

  retired_count :
      (keyset : List KeyRecord)
      → length (keep (λ (k : KeyRecord). not k.active) (map (retire sg fresh now) keyset))
        ≡ length keyset
  retired_count [] = refl
  retired_count (k ∷ keyset) = ground (arith, retired_count keyset)

  length-map-retire :
      (keyset : List KeyRecord) → length (map (retire sg fresh now) keyset) ≡ length keyset
  length-map-retire [] = refl
  length-map-retire (k ∷ keyset) = ap suc (length-map-retire keyset)

  -- The key in memory stands in keyset.json, or there is no keyset yet.
  abbrev pub IsTracked : String → List KeyRecord → Type 0
  IsTracked key keyset = (keyset ≡ []) ⊎ (recorded (sg.public_of key) keyset ≡ true)

  -- All public keys that the server tries on an old entry's signature.
  abbrev pub known_keys : KeyStore → List String
  known_keys s = (all_public_keys sg fresh now s).0

  known :
      (p key : String) (s : KeyStore)
      → s.server_key ≡ some key
      → listed p (known_keys s) ≡ ((sg.public_of key == p) || recorded p s.keyset)
  unfolding all_public_keys
  known p key s h =
      rw (h, load_or_create_server_key)
        (ground (arith, listed-add_public p (sg.public_of key ∷ []) s.keyset))

  abbrev pub rotated : String → KeyStore → KeyStore
  rotated new_key s = (rotate_server_key sg fresh now new_key s).1

  rotated_key : (new_key : String) (s : KeyStore) → (rotated new_key s).server_key ≡ some new_key
  unfolding rotate_server_key
  rotated_key new_key s = refl

  recorded-rotated :
      (p key new_key : String) (s : KeyStore)
      → s.server_key ≡ some key
      → recorded p (rotated new_key s).keyset
        ≡ (recorded p (ensure_keyset sg fresh now s).0 || (sg.public_of new_key == p))
  unfolding rotate_server_key
  recorded-rotated p key new_key s h =
      let keyset = (ensure_keyset sg fresh now s).0 in
      ground (
        arith,
        recorded-retire p keyset,
        any-append (λ (k : KeyRecord). k.pub_hex == p) (map (retire sg fresh now) keyset)
            (record {
              pub_hex = sg.public_of new_key;
              rotated_in = now;
              rotated_out = none;
              active = true;
            }
              ∷ []),
      )

  recorded_of_eq :
      (p q : String) (keyset : List KeyRecord)
      → recorded q keyset ≡ true
      → (q == p) ≡ true
      → recorded p keyset ≡ true
  recorded_of_eq p q keyset h e = rw (← ((eq_iff q p).0 e)) h

  recorded-ensure :
      (p key : String) (s : KeyStore)
      → s.server_key ≡ some key
      → IsTracked key s.keyset
      → recorded p (ensure_keyset sg fresh now s).0
        ≡ ((sg.public_of key == p) || recorded p s.keyset)
  unfolding ensure_keyset load_or_create_server_key
  recorded-ensure p key s h (inl fresh_keyset) = ground arith
  recorded-ensure p key s h (inr r) = ground (arith, recorded_of_eq p (sg.public_of key) s.keyset r)

  -- After a rotation the server knows exactly the public keys that it knew before and the new one,
  -- provided its key stood in keyset.json or there was none: no old entry becomes unverifiable.
  pub rotation_keeps_keys :
      (p key new_key : String) (s : KeyStore)
      → s.server_key ≡ some key
      → IsTracked key s.keyset
      → listed p (known_keys (rotated new_key s))
        ≡ (listed p (known_keys s) || (sg.public_of new_key == p))
  rotation_keeps_keys p key new_key s h tracked = ground (
    arith,
    known p new_key (rotated new_key s) (rotated_key new_key s),
    recorded-rotated p key new_key s h,
    recorded-ensure p key s h tracked,
    known p key s h,
  )

  -- A key that was not in a keyset that exists is forgotten by the next rotation: its public key is
  -- no longer tried, so what it signed is no longer verifiable.
  pub rotation_forgets_untracked :
      (key new_key : String) (s : KeyStore)
      → s.server_key ≡ some key
      → s.keyset ≢ []
      → recorded (sg.public_of key) s.keyset ≡ false
      → sg.public_of new_key ≢ sg.public_of key
      → (listed (sg.public_of key) (known_keys s) ≡ true)
        × (listed (sg.public_of key) (known_keys (rotated new_key s)) ≡ false)
  unfolding ensure_keyset
  rotation_forgets_untracked key new_key s h old untracked new =
      let p = sg.public_of key in
      (
        ground (arith, known p key s h, eq_refl p),
        ground (
          arith,
          known p new_key (rotated new_key s) (rotated_key new_key s),
          recorded-rotated p key new_key s h,
          eq_iff (sg.public_of new_key) p,
        ),
      )

  -- A rotation leaves exactly one active record, that of the new key, and reports the number of
  -- records that it retired.
  pub rotation_one_active :
      (key new_key : String) (s : KeyStore)
      → let (report, s') = rotate_server_key sg fresh now new_key s in
        (keep (λ (k : KeyRecord). k.active) s'.keyset
          ≡ record {
            pub_hex = sg.public_of new_key;
            rotated_in = now;
            rotated_out = none;
            active = true;
          }
            ∷ [])
        × (report.rotation_count + 1 ≡ length s'.keyset)
  unfolding rotate_server_key
  rotation_one_active key new_key s =
      let keyset = (ensure_keyset sg fresh now s).0 in
      let newest : List KeyRecord =
        record {
          pub_hex = sg.public_of new_key;
          rotated_in = now;
          rotated_out = none;
          active = true;
        }
        ∷ [] in
      let old = map (retire sg fresh now) keyset in
      (
        rw (keep-append (λ (k : KeyRecord). k.active) old newest)
            (rw (retired_inactive keyset) refl),
        ground (
          arith,
          keep-append (λ (k : KeyRecord). not k.active) old newest,
          length-append (keep (λ (k : KeyRecord). not k.active) old) [],
          retired_count keyset,
          length-append old newest,
          length-map-retire keyset,
        ),
      )

  -- Where ORA_LEDGER_KEY is set, a rotation does not outlast the process: the next one signs with
  -- the retired key again. Where it is not set, the new key stays.
  pub rotation_restart :
      (new_key fresh' : String) (now' : ℕ) (s : KeyStore)
      → (server_public_key_hex sg fresh' now' (restart (rotated new_key s))).0
        ≡ sg.public_of (if s.env_hex == "" then new_key else s.env_hex)
  unfolding server_public_key_hex rotate_server_key ensure_keyset
  rotation_restart new_key fresh' now' s = ground arith
