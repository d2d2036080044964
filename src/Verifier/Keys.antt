-- ===== src/Verifier/Keys.antt =====
-- The keys and hashes that the offline verifier tries are those of the server.
use domesticoracle.Prelude.{
  ℕ, String, ◌≡◌, ◌≢◌, refl, sym, ◌∙◌, ap, Bool, true, false, ◌||◌, Option, Option-cases, none,
  some, List, [], ◌∷◌, ◌++◌, map, any, any-append, ◌==◌, text_eq, eq_iff, arith, Bool-cases, inl,
  inr,
}
use domesticoracle.Python.{Python, dumps, sort_keys, sort_items, sort_dict}
use domesticoracle.Crypto.{Signatures, KeyRecord, add_public}
use domesticoracle.Ledger.{Row, payload, payload_legacy, compute_hash, legacy_hash, hash_matches}
use domesticoracle.Verifier.{check_hash, add_key, add_keys}

abbrev pub passes : Option Bool → Bool
passes (some true) = true
passes _ = false

pub check_hash-eq :
    (py : Python) (sg : Signatures) (is_key is_hex : String → Bool) (own : String)
    (pubs : List String) (e : Row)
    → check_hash py sg is_key is_hex e ≡ hash_matches py sg own pubs e
unfolding check_hash hash_matches compute_hash legacy_hash dumps sort_keys sort_items sort_dict
    payload payload_legacy
check_hash-eq py sg is_key is_hex own pubs e = refl

-- A text that is already there adds nothing.
any-member :
    (p : String → Bool) (x : String) (l : List String)
    → any (λ h. h == x) l ≡ true
    → (any p l || p x) ≡ any p l
any-member p x [] h = cc
any-member p x (y ∷ l) h = elim (Bool-cases (y == x)) [
  | inl same ↦ rw ((eq_iff y x).0 same) (ground arith)
  | inr other ↦ ground (arith, any-member p x l)
]

pub any-map {ℓ} :
    {A : Type ℓ} (p : String → Bool) (f : A → String) (l : List A)
    → any p (map f l) ≡ any (λ x. p (f x)) l
any-map p f [] = refl
any-map p f (x ∷ l) = ap (λ b. p (f x) || b) (any-map p f l)

or_assoc : (a b c : Bool) → ((a || b) || c) ≡ (a || (b || c))
or_assoc a b c = ground arith

or_false : (a : Bool) → (a || false) ≡ a
or_false a = ground arith

module _ (py : Python) (sg : Signatures) (p : String → Bool) where
  pub add_public-any :
      (fresh : String) (now : ℕ) (result : List String) (keyset : List KeyRecord)
      → any p (add_public sg fresh now result keyset)
        ≡ (any p result || any (λ (k : KeyRecord). p k.pub_hex) keyset)
  unfolding add_public
  add_public-any fresh now result [] = sym (or_false (any p result))
  add_public-any fresh now result (k ∷ keyset) =
      elim (Bool-cases (any (λ h. h == k.pub_hex) result)) [
        | inl seen ↦ rw seen (
            add_public-any fresh now result keyset
            ∙ ap (λ b. b || any (λ (j : KeyRecord). p j.pub_hex) keyset)
                (sym (any-member p k.pub_hex result seen))
            ∙ or_assoc (any p result) (p k.pub_hex) _)
        | inr unseen ↦ rw unseen (
            add_public-any fresh now (result ++ k.pub_hex ∷ []) keyset
            ∙ ap (λ b. b || any (λ (j : KeyRecord). p j.pub_hex) keyset)
                (any-append p result (k.pub_hex ∷ []))
            ∙ ground arith)
      ]

  module _ (is_key is_hex : String → Bool) where
    pub add_key-any :
        (hex : String) (keys keys' : List String)
        → (p "" ≡ true → any p keys ≡ true)
        → add_key py sg is_key is_hex hex (some keys) ≡ some keys'
        → any p keys' ≡ (p hex || any p keys)
    unfolding add_key
    add_key-any hex keys keys' blank h = elim (Bool-cases (hex == "")) [
      | inl empty ↦
          rw ((eq_iff hex "").0 empty)
            (ground (arith, blank, any-member p hex keys, any-append p keys (hex ∷ [])))
      | inr full ↦ ground (arith, any-member p hex keys, any-append p keys (hex ∷ []))
    ]

    pub add_key-none :
        (hex : String) (keys : List String) → add_key py sg is_key is_hex hex none ≢ some keys
    unfolding add_key
    add_key-none hex keys = λ h. cc

    pub add_keys-any :
        (ks keys keys' : List String)
        → (p "" ≡ true → any p keys ≡ true)
        → add_keys py sg is_key is_hex ks (some keys) ≡ some keys'
        → any p keys' ≡ (any p ks || any p keys)
    unfolding add_keys
    add_keys-any [] keys keys' blank h = cc
    add_keys-any (hex ∷ ks) keys keys' blank h =
        elim (Option-cases (add_keys py sg is_key is_hex ks (some keys))) [
          | inl raises ↦
              absurd
                (add_key-none hex keys' (ap (add_key py sg is_key is_hex hex) (sym raises) ∙ h))
          | inr (mid, e) ↦
              let ih = add_keys-any ks keys mid blank e in
              add_key-any hex mid keys' (λ q. ground (arith, ih, blank q))
                (ap (add_key py sg is_key is_hex hex) (sym e) ∙ h)
              ∙ ap (λ b. p hex || b) ih
              ∙ sym (or_assoc (p hex) (any p ks) (any p keys))
        ]
