-- ===== src/Ledger/Anchoring.antt =====
-- backend/ledger.py: comparing the ledger with the last line of anchor.log, and both checks together.
use domesticoracle.Prelude.{
  ℕ, String, Bool, true, false, ◌&&◌, Option, none, some, List, [], ◌∷◌, last?, not, ◌==◌, nat_eq,
  text_eq, if◌then◌else◌,
}
use domesticoracle.Python.{Python, concat, nat_text}
use domesticoracle.Crypto.{Signatures}
use domesticoracle.Ledger.Entry.{Row, Anchor, Ledger, anchor_text}
use domesticoracle.Ledger.Verify.{Verdict, verify_chain}

pub record AnchorVerdict : Type 0 where
  pub anchored : Bool
  pub consistent : Bool
  pub reason : String

-- SELECT hash FROM ledger WHERE id = ?
unfoldable pub hash_at : ℕ → List Row → Option String
hash_at i [] = none
hash_at i (row ∷ rows) = if row.id == i then some row.hash else hash_at i rows

pub record Integrity : Type 0 where
  pub valid : Bool
  pub checked : ℕ
  pub broken_at : Option ℕ
  pub reason : String
  pub chain : Verdict
  pub anchor : AnchorVerdict
  pub public_key : String

module _ (py : Python) (sg : Signatures) (own : String) where
  compare_anchor : Anchor → Option String → AnchorVerdict
  compare_anchor rec none = record {
    anchored = true;
    consistent = false;
    reason =
        concat
          ("Anchored entry #" ∷ nat_text py rec.id ∷ " is missing (rollback/truncation)." ∷ []);
  }
  compare_anchor rec (some hash) =
      if not (hash == rec.hash)
      then record {
        anchored = true;
        consistent = false;
        reason =
            concat
              ("Anchored entry #" ∷ nat_text py rec.id ∷ " hash differs (history rewritten)." ∷ []);
      }
      else record { anchored = true; consistent = true; reason = "Matches last anchor." }

  check_last : Option Anchor → List Row → AnchorVerdict
  unfolding compare_anchor hash_at
  check_last none rows = record {
    anchored = false;
    consistent = true;
    reason = "Anchor file empty.";
  }
  check_last (some rec) rows =
      if not (sg.verify_with own (anchor_text py rec.id rec.hash) rec.sig)
      then record { anchored = true; consistent = false; reason = "Anchor signature invalid." }
      else compare_anchor rec (hash_at rec.id rows)

  unfoldable pub verify_anchor : Ledger → AnchorVerdict
  unfolding check_last
  verify_anchor l = elim l.anchor_file [
    | none ↦ record { anchored = false; consistent = true; reason = "No anchor yet." }
    | some lines ↦ check_last (last? lines) l.rows
  ]

  unfoldable pub integrity : List String → Bool → Ledger → Integrity × Ledger
  unfolding verify_chain verify_anchor
  integrity pubs full l =
      let (chain, l') = verify_chain py sg own pubs full l in
      let anchor = verify_anchor l' in
      (
        record {
          valid = chain.valid && anchor.consistent;
          checked = chain.checked;
          broken_at = chain.broken_at;
          reason = if not chain.valid then chain.reason else anchor.reason;
          chain = chain;
          anchor = anchor;
          public_key = own;
        },
        l',
      )
