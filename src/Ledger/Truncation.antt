-- ===== src/Ledger/Truncation.antt =====
-- What the anchor file and the incremental check see of a ledger that was changed from outside.
use domesticoracle.Prelude.{
  ℕ, ◌≤◌, String, ◌≡◌, refl, true, false, ◌↔◌, Option, none, some, List, [], ◌∷◌, ◌++◌, arith, All,
  keep, last?, last?-append, text_eq, eq_iff, inl, inr, Option-cases,
}
use domesticoracle.Prelude.Int.{ℤ}
use domesticoracle.Python.{Python}
use domesticoracle.Crypto.{Signatures}
use domesticoracle.Ledger.Entry.{
  Row, Ledger, Anchor, compute_hash, legacy_hash, payload_legacy, anchor_text,
}
use domesticoracle.Ledger.Append.{Draft, append, write_anchor}
use domesticoracle.Ledger.Verify.{Walk, broken, walked, walk, hash_matches, verify_chain, conclude}
use domesticoracle.Ledger.Anchoring.{hash_at, verify_anchor}
use domesticoracle.Ledger.Numbering.{after}

-- The anchor check, where the last line is signed.
pub anchor_check :
    (py : Python) (sg : Signatures) (own : String) (a : Anchor) (lines : List Anchor) (l : Ledger)
    → l.anchor_file ≡ some lines
    → last? lines ≡ some a
    → sg.verify_with own (anchor_text py a.id a.hash) a.sig ≡ true
    → ((verify_anchor py sg own l).consistent ≡ true) ↔ (hash_at a.id l.rows ≡ some a.hash)
unfolding verify_anchor
anchor_check py sg own a lines l file ends good = elim (Option-cases (hash_at a.id l.rows)) [
  | inl missing ↦ (ground arith, ground arith)
  | inr (h, found) ↦ (ground (arith, eq_iff h a.hash), ground (arith, eq_iff h a.hash))
]

module _ (py : Python) (sg : Signatures) (key : String) (written i : ℕ) (h : String) where
  unfoldable pub anchor_of : Anchor
  anchor_of = record { id = i; hash = h; ts = written; sig = sg.sign_with key (anchor_text py i h) }

  -- The line that an append adds to anchor.log is its last.
  pub anchor_line :
      (file : Option (List Anchor))
      → (lines : List Anchor) × (write_anchor py sg key written i h file ≡ some lines)
        × (last? lines ≡ some anchor_of)
  unfolding write_anchor anchor_of
  anchor_line none = (_, refl, refl)
  anchor_line (some lines) = (_, refl, last?-append lines _)

module _ (py : Python) (sg : Signatures) (key : String) (now written : ℕ) (d : Draft)
    (l : Ledger) where
  -- After an append, whatever is done to the rows, the anchor check passes exactly if the entry that
  -- was appended is still stored under its id with its hash: rows cut off the end and a rewritten
  -- last entry are both found.
  pub anchor_pins_last_entry :
      (rows : List Row)
      → ((text : String) → sg.verify_with (sg.public_of key) text (sg.sign_with key text) ≡ true)
      → let (entry, l') = append py sg key now written d l in
        ((verify_anchor py sg (sg.public_of key) (record l' { rows = rows })).consistent ≡ true)
        ↔ (hash_at entry.id rows ≡ some entry.hash)
  unfolding append anchor_of compute_hash
  anchor_pins_last_entry rows signed =
      let (entry, l') = append py sg key now written d l in
      let (lines, file, ends) = anchor_line py sg key written entry.id entry.hash l.anchor_file in
      anchor_check py sg (sg.public_of key) (anchor_of py sg key written entry.id entry.hash) lines
        (record l' { rows = rows }) file ends (signed _)

module _ (py : Python) (sg : Signatures) (own : String) (pubs : List String) where
  below :
      (start : ℕ) (old new : List Row)
      → All (λ (r : Row). r.id ≤ start) old
      → keep (after start) (old ++ new) ≡ keep (after start) new
  below start [] new h = refl
  below start (e ∷ old) new h = ground (arith, below start old new h.1)

  conclude_same :
      (w : Walk) (l l' : Ledger)
      → ((conclude py sg own pubs w l).0.valid ≡ (conclude py sg own pubs w l').0.valid)
        × ((conclude py sg own pubs w l).0.broken_at ≡ (conclude py sg own pubs w l').0.broken_at)
  conclude_same (broken v) l l' = (refl, refl)
  conclude_same (walked c h) l l' = (refl, refl)

  -- The incremental check is blind below its checkpoint: entries up to the checkpoint's id can be
  -- replaced by any others, or removed, and it answers as before.
  pub blind_below_checkpoint :
      (l : Ledger) (old old' new : List Row)
      → All (λ (r : Row). r.id ≤ l.checkpoint_id) old
      → All (λ (r : Row). r.id ≤ l.checkpoint_id) old'
      → let verdict = (verify_chain py sg own pubs false (record l { rows = old ++ new })).0 in
        let verdict' = (verify_chain py sg own pubs false (record l { rows = old' ++ new })).0 in
        (verdict.valid ≡ verdict'.valid) × (verdict.broken_at ≡ verdict'.broken_at)
  unfolding verify_chain
  blind_below_checkpoint l old old' new h h' =
      rw (below l.checkpoint_id old new h, below l.checkpoint_id old' new h')
        (conclude_same
          (walk py sg own pubs l.checkpoint_id l.checkpoint_hash (keep (after l.checkpoint_id) new))
          (record l { rows = old ++ new }) (record l { rows = old' ++ new }))

  -- An entry whose hash is of the legacy format keeps a matching hash whatever its args_json, its
  -- category and its risk are changed to.
  pub legacy_extras_unprotected :
      (e : Row) (args_json category : String) (risk : ℤ)
      → legacy_hash py e ≡ e.hash
      → hash_matches py sg own pubs
          (record e { args_json = args_json; category = category; risk = risk })
        ≡ true
  unfolding hash_matches legacy_hash payload_legacy
  legacy_extras_unprotected e args_json category risk h =
      ground (arith, eq_iff (legacy_hash py e) e.hash)
