-- ===== src/Verifier/Agreement.antt =====
-- The offline verifier and the server's own check come to the same answer.
use domesticoracle.Prelude.{
  ℕ, String, ◌≡◌, ◌≢◌, refl, sym, ◌∙◌, ap, Bool, true, false, ◌||◌, not, Option-cases, none, some,
  List, [], ◌∷◌, map, any, keep, ltb, ◌==◌, text_eq, eq_iff, arith, if◌then◌else◌, Bool-cases, inl,
  inr,
}
use domesticoracle.Python.{Python}
use domesticoracle.Crypto.{Signatures, KeyRecord, add_public}
use domesticoracle.Ledger.{
  Row, Ledger, genesis_hash, verify_entry_sig, Walk, walk, walked, broken, verify_chain, conclude,
}
use domesticoracle.Verifier.{
  add_key, add_keys, build_pub_keys, verify_sig, verify_entries, verify_with_keys, verify_export,
}
use domesticoracle.Verifier.Keys.{
  passes, check_hash-eq, add_public-any, add_key-any, add_key-none, add_keys-any, any-map,
}

abbrev is_walked : Walk → Bool
is_walked (walked n h) = true
is_walked (broken v) = false

-- What the package makes of malformed input: a signature that verifies was read from hex, an empty
-- text is no public key and no signature.
pub record IsEd25519 (sg : Signatures) (is_hex : String → Bool) : Type 0 where
  pub hexed : (key text sig : String) → sg.verify_with key text sig ≡ true → is_hex sig ≡ true
  pub keyed : (text sig : String) → sg.verify_with "" text sig ≡ false
  pub signed : (key text : String) → sg.verify_with key text "" ≡ false

abbrev hexes : List KeyRecord → List String
hexes = map (λ (k : KeyRecord). k.pub_hex)

module _ (py : Python) (sg : Signatures) (is_key is_hex : String → Bool)
    (ed : IsEd25519 sg is_hex) where
  unread-any :
      (keys : List String) (sig text : String)
      → is_hex sig ≡ false
      → any (λ k. sg.verify_with k text sig) keys ≡ false
  unread-any [] sig text h = refl
  unread-any (key ∷ keys) sig text h =
      ground (arith, ed.hexed key text sig, unread-any keys sig text h)

  read-any :
      (keys : List String) (sig text : String)
      → is_hex sig ≡ true
      → passes (verify_sig py sg is_key is_hex keys sig text)
        ≡ any (λ k. sg.verify_with k text sig) keys
  unfolding verify_sig
  read-any [] sig text h = refl
  read-any (key ∷ keys) sig text h = ground (arith, read-any keys sig text h)

  sig-any :
      (keys : List String) (sig text : String)
      → passes (verify_sig py sg is_key is_hex keys sig text)
        ≡ any (λ k. sg.verify_with k text sig) keys
  unfolding verify_sig
  sig-any [] sig text = refl
  sig-any (key ∷ keys) sig text = elim (Bool-cases (is_hex sig)) [
    | inl good ↦ read-any (key ∷ keys) sig text good
    | inr bad ↦ rw bad (sym (unread-any (key ∷ keys) sig text bad))
  ]

  blank-any :
      (keys : List String) (text : String) → any (λ k. sg.verify_with k text "") keys ≡ false
  blank-any [] text = refl
  blank-any (key ∷ keys) text = ground (arith, ed.signed key text, blank-any keys text)

  -- The server reads an empty public key as its own.
  own-any :
      (own sig text : String) (ks : List KeyRecord)
      → (sg.verify_with own text sig
          || any
              (λ (k : KeyRecord).
                sg.verify_with (if k.pub_hex == "" then own else k.pub_hex) text sig)
              ks)
        ≡ (sg.verify_with own text sig
            || any (λ (k : KeyRecord). sg.verify_with k.pub_hex text sig) ks)
  own-any own sig text [] = refl
  own-any own sig text (k ∷ ks) = elim (Bool-cases (k.pub_hex == "")) [
    | inl blank ↦ rw blank (
        rw ((eq_iff k.pub_hex "").0 blank)
          (ground (arith, ed.keyed text sig, own-any own sig text ks)))
    | inr named ↦ rw named (ground (arith, own-any own sig text ks))
  ]

  add_keys-none : (ks keys : List String) → add_keys py sg is_key is_hex ks none ≢ some keys
  unfolding add_keys add_key
  add_keys-none [] keys = λ h. cc
  add_keys-none (hex ∷ ks) keys = elim (Option-cases (add_keys py sg is_key is_hex ks none)) [
    | inl raises ↦ λ h.
        add_key-none py sg (λ _. true) is_key is_hex hex keys
          (ap (add_key py sg is_key is_hex hex) (sym raises) ∙ h)
    | inr (mid, e) ↦ λ h. add_keys-none ks mid e
  ]

  module _ (own fresh : String) (now : ℕ) (keyset : List KeyRecord) (keys : List String)
      (rows : List Row) (named : own ≢ "")
      (built : build_pub_keys py sg is_key is_hex
          (record { public_key_hex = own; keyset = hexes keyset; entries = rows })
        ≡ some keys) where
    abbrev pubs : List String
    pubs = add_public sg fresh now (own ∷ []) keyset

    keys-any :
        (p : String → Bool)
        → p "" ≡ false
        → any p keys ≡ (p own || any (λ (k : KeyRecord). p k.pub_hex) keyset)
    unfolding build_pub_keys
    keys-any p blank = elim (Option-cases (add_key py sg is_key is_hex own (some []))) [
      | inl raises ↦ absurd (add_keys-none (hexes keyset) keys (rw raises at built))
      | inr (mid, e) ↦
          let last =
            add_keys-any py sg p is_key is_hex (hexes keyset) mid keys (λ q. ground (arith, blank))
              (rw e at built) in
          let first = add_key-any py sg p is_key is_hex own [] mid (λ q. ground (arith, blank)) e in
          ground (arith, first, last, any-map p (λ (k : KeyRecord). k.pub_hex) keyset)
    ]

    sigs_agree :
        (e : Row)
        → passes (verify_sig py sg is_key is_hex keys e.sig e.hash)
          ≡ verify_entry_sig py sg own pubs e
    unfolding verify_entry_sig
    sigs_agree e =
        let p : String → Bool = λ k. sg.verify_with (if k == "" then own else k) e.hash e.sig in
        elim (Bool-cases (e.sig == "")) [
          | inl empty ↦ rw empty (
              sig-any keys e.sig e.hash
              ∙ ap (λ s. any (λ k. sg.verify_with k e.hash s) keys) ((eq_iff e.sig "").0 empty)
              ∙ blank-any keys e.hash)
          | inr given ↦ rw given (
              ground (
                arith,
                eq_iff own "",
                sig-any keys e.sig e.hash,
                keys-any (λ k. sg.verify_with k e.hash e.sig) (ed.keyed e.hash e.sig),
                own-any own e.sig e.hash keyset,
                add_public-any py sg p fresh now (own ∷ []) keyset,
              ))
        ]

    entries_agree :
        (checked : ℕ) (prev_hash : String) (entries : List Row)
        → passes (verify_entries py sg is_key is_hex keys prev_hash entries)
          ≡ is_walked (walk py sg own pubs checked prev_hash entries)
    unfolding verify_entries walk
    entries_agree checked prev_hash [] = refl
    entries_agree checked prev_hash (e ∷ entries) = ground (
      arith,
      check_hash-eq py sg is_key is_hex own pubs e,
      sigs_agree e,
      entries_agree e.id e.hash entries,
    )

    with_keys :
        (ks : List String) (b : Bool)
        → any (λ k. not (k == "")) ks ≡ true
        → passes (verify_entries py sg is_key is_hex ks genesis_hash rows) ≡ b
        → passes (verify_with_keys py sg is_key is_hex (some ks) rows) ≡ b
    with_keys [] b some_key h = cc
    with_keys (k ∷ ks) b some_key h = h

    export_agrees :
        passes (
          verify_export py sg is_key is_hex
            (record { public_key_hex = own; keyset = hexes keyset; entries = rows }))
        ≡ is_walked (walk py sg own pubs 0 genesis_hash rows)
    unfolding verify_export
    export_agrees =
        ap (λ o. passes (verify_with_keys py sg is_key is_hex o rows)) built
        ∙ with_keys keys _ (ground (arith, eq_iff own "", keys-any (λ k. not (k == "")) refl))
            (entries_agree 0 genesis_hash rows)

    conclude-valid :
        (checked : ℕ) (prev_hash : String) (entries : List Row) (l : Ledger)
        → (conclude py sg own pubs (walk py sg own pubs checked prev_hash entries) l).0.valid
          ≡ is_walked (walk py sg own pubs checked prev_hash entries)
    unfolding walk
    conclude-valid checked prev_hash [] l = refl
    conclude-valid checked prev_hash (e ∷ entries) l =
        ground (arith, conclude-valid e.id e.hash entries l)

    -- The server's full check finds the chain intact exactly where the offline verifier, given the
    -- export with the server's key, its keyset and all rows, ends with success. The ids are positive,
    -- the server has a public key, and the verifier can read the keys of the export.
    pub verifier_agrees :
        (l : Ledger)
        → l.rows ≡ rows
        → keep (λ (r : Row). ltb 0 r.id) rows ≡ rows
        → (verify_chain py sg own pubs true l).0.valid
          ≡ passes (
              verify_export py sg is_key is_hex
                (record { public_key_hex = own; keyset = hexes keyset; entries = rows }))
    unfolding verify_chain
    verifier_agrees l same numbered =
        conclude-valid 0 genesis_hash (keep (λ (r : Row). ltb 0 r.id) l.rows) l
        ∙ ap (λ entries. is_walked (walk py sg own pubs 0 genesis_hash entries))
            (ap (keep (λ (r : Row). ltb 0 r.id)) same ∙ numbered)
        ∙ sym export_agrees
