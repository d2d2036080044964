-- ===== src/Ledger/Tamper.antt =====
-- What the hash chain protects: two ledgers that both verify and end in the same hash.
use domesticoracle.Prelude.{
  String, ◌≡◌, ◌≢◌, sym, ◌∙◌, Bool, true, false, ◌⊎◌, inl, inr, List, arith, ◌==◌, text_eq,
  text_discrete, eq_iff, refl,
}
use domesticoracle.Prelude.Int.{ℤ}
use domesticoracle.Python.{Python, Num}
use domesticoracle.Crypto.{Signatures}
use domesticoracle.Ledger.Entry.{
  Row, payload, payload_legacy, canonical, canonical_legacy, compute_hash, legacy_hash, num_of_ℤ,
}
use domesticoracle.Ledger.Verify.{hash_matches}

-- What every entry's hash covers, and what only the present format covers.
abbrev pub Core : Type 0
Core = Num × String × String × String × String × String × String × String

abbrev pub core : Row → Core
core e = (e.ts, e.actor_id, e.action, e.args_summary, e.decision, e.status, e.outcome, e.prev_hash)

abbrev pub Extra : Type 0
Extra = String × String × ℤ

abbrev pub extra : Row → Extra
extra e = (e.args_json, e.category, e.risk)

num_of_ℤ-injective : (a b : ℤ) → num_of_ℤ a ≡ num_of_ℤ b → a ≡ b
num_of_ℤ-injective a b h = ground arith

core_of_legacy : (e f : Row) → payload_legacy e ≡ payload_legacy f → core e ≡ core f
unfolding payload_legacy
core_of_legacy e f p = ground arith

core_of_payload : (e f : Row) → payload e ≡ payload f → core e ≡ core f
unfolding payload
core_of_payload e f p = ground arith

extra_of_payload : (e f : Row) → payload e ≡ payload f → extra e ≡ extra f
unfolding payload
extra_of_payload e f p = ground (arith, num_of_ℤ-injective e.risk f.risk)

module _ (py : Python) where
  -- What is documented of the writer of JSON, of two entries: a text tells the values that it was
  -- written of, and the texts of the two formats differ.
  pub record IsWritten (e f : Row) : Type 0 where
    pub modern : canonical py e ≡ canonical py f → payload e ≡ payload f
    pub legacy : canonical_legacy py e ≡ canonical_legacy py f → payload_legacy e ≡ payload_legacy f
    pub modern_first : canonical py e ≢ canonical_legacy py f
    pub legacy_first : canonical_legacy py e ≢ canonical py f

  -- A text that is hashed for an entry.
  abbrev pub IsText : Row → String → Type 0
  IsText e text = (text ≡ canonical py e) ⊎ (text ≡ canonical_legacy py e)

  -- Two different texts with one hash, each hashed for one of the two entries.
  abbrev pub Collision : Row → Row → Type 0
  Collision e f =
      (a : String) × (b : String) × IsText e a × IsText f b × (a ≢ b) × (py.sha256 a ≡ py.sha256 b)

  -- The entry's hash is of the present format.
  abbrev pub is_modern : Row → Bool
  is_modern e = compute_hash py e == e.hash

  -- Equal in what their hashes cover.
  abbrev pub Agree : Row → Row → Type 0
  Agree e f = (core e ≡ core f) × ((is_modern e ≡ false) ⊎ (extra e ≡ extra f))

  modern_modern :
      (e f : Row)
      → IsWritten e f
      → compute_hash py e ≡ e.hash
      → compute_hash py f ≡ f.hash
      → e.hash ≡ f.hash
      → Agree e f ⊎ Collision e f
  unfolding compute_hash
  modern_modern e f w he hf h = elim (text_discrete (canonical py e) (canonical py f)) [
    | yes p ↦
        let same = w.modern p in inl (core_of_payload e f same, inr (extra_of_payload e f same))
    | no n ↦ inr (_, _, inl refl, inl refl, n, he ∙ h ∙ sym hf)
  ]

  modern_legacy :
      (e f : Row)
      → IsWritten e f
      → compute_hash py e ≡ e.hash
      → legacy_hash py f ≡ f.hash
      → e.hash ≡ f.hash
      → Collision e f
  unfolding compute_hash legacy_hash
  modern_legacy e f w he hf h =
      (canonical py e, canonical_legacy py f, inl refl, inr refl, w.modern_first, he ∙ h ∙ sym hf)

  legacy_modern :
      (e f : Row)
      → IsWritten e f
      → legacy_hash py e ≡ e.hash
      → compute_hash py f ≡ f.hash
      → e.hash ≡ f.hash
      → Collision e f
  unfolding compute_hash legacy_hash
  legacy_modern e f w he hf h =
      (canonical_legacy py e, canonical py f, inr refl, inl refl, w.legacy_first, he ∙ h ∙ sym hf)

  legacy_legacy :
      (e f : Row)
      → IsWritten e f
      → is_modern e ≡ false
      → legacy_hash py e ≡ e.hash
      → legacy_hash py f ≡ f.hash
      → e.hash ≡ f.hash
      → Agree e f ⊎ Collision e f
  unfolding legacy_hash
  legacy_legacy e f w old he hf h =
      elim (text_discrete (canonical_legacy py e) (canonical_legacy py f)) [
        | yes p ↦ inl (core_of_legacy e f (w.legacy p), inl old)
        | no n ↦ inr (_, _, inr refl, inr refl, n, he ∙ h ∙ sym hf)
      ]

  module _ (sg : Signatures) (own : String) (pubs : List String) where
    pub format_cases :
        (e : Row)
        → hash_matches py sg own pubs e ≡ true
        → (compute_hash py e ≡ e.hash) ⊎ ((is_modern e ≡ false) × (legacy_hash py e ≡ e.hash))
    unfolding hash_matches
    format_cases e h =
        ground (arith, eq_iff (compute_hash py e) e.hash, eq_iff (legacy_hash py e) e.hash)

    pub rows-Agree :
        (e f : Row)
        → IsWritten e f
        → hash_matches py sg own pubs e ≡ true
        → hash_matches py sg own pubs f ≡ true
        → e.hash ≡ f.hash
        → Agree e f ⊎ Collision e f
    rows-Agree e f w he hf h = elim (format_cases e he) [
      | inl me ↦ elim (format_cases f hf) [
        | inl mf ↦ modern_modern e f w me mf h
        | inr lf ↦ inr (modern_legacy e f w me lf.1 h)
      ]
      | inr le ↦ elim (format_cases f hf) [
        | inl mf ↦ inr (legacy_modern e f w le.1 mf h)
        | inr lf ↦ legacy_legacy e f w le.0 le.1 lf.1 h
      ]
    ]
