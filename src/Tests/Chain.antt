-- ===== src/Tests/Chain.antt =====
-- The ledger at concrete inputs.
use domesticoracle.Prelude.{
  String, ◌≡◌, ◌≢◌, refl, sym, true, false, ◌⊎◌, ◌↔◌, none, some, List, [], ◌∷◌, length, arith,
  eq_iff,
}
use domesticoracle.Prelude.Int.{pos}
use domesticoracle.Python.{Python, Json, obj, num_of, end, get, dumps, sort_keys}
use domesticoracle.Ledger.{
  Row, Ledger, Draft, init_db, genesis_hash, compute_hash, payload, payload_legacy, canonical,
  canonical_legacy, append, new_entry, verify_anchor, hash_at, integrity, walk, walked,
  hash_matches, verify_entry_sig,
}
use domesticoracle.Ledger.History.{SameHistory, Break, tip_fixes_history}
use domesticoracle.Ledger.Tamper.{IsWritten}
use domesticoracle.Ledger.Growth.{Use, record_entry, check, perform_all, no_false_alarm}
use domesticoracle.Ledger.Truncation.{anchor_pins_last_entry}
use domesticoracle.Tests.Host.{host, scheme}

abbrev draft : Draft
draft = record {
  actor_id = "ora.home";
  action = "control_device";
  args_summary = "device=lamp";
  decision = "allow";
  status = "executed";
  outcome = "done";
  category = "home_control";
  risk = pos 45;
  args = end;
  provenance = none;
}

abbrev uses : List Use
uses = record_entry 5 6 draft ∷ check false ∷ record_entry 7 8 draft ∷ []

signed : (text : String) → scheme.verify_with "k" text (scheme.sign_with "k" text) ≡ true
signed text = refl

signature_set : (text : String) → scheme.sign_with "k" text ≢ ""
signature_set text e = ground (arith, eq_iff "signed" "")

no_false_alarm_example :
    ((integrity host scheme "k"
        ("k" ∷ [])
        false
        (perform_all host scheme "k" [] uses init_db)).0.valid
      ≡ true)
    × ((integrity host scheme "k"
          ("k" ∷ [])
          false
          (perform_all host scheme "k" [] uses init_db)).0.checked
        ≡ length (perform_all host scheme "k" [] uses init_db).rows)
no_false_alarm_example = no_false_alarm host scheme "k" [] signed signature_set false uses

-- A writer whose texts show the format and nothing else.
abbrev format_of : Json → String
format_of (obj d) = elim (get "category" d) [ none ↦ "legacy" | some v ↦ "modern" ]
format_of v = "other"

abbrev writer : Python
writer = record host { compact = format_of }

abbrev stored : Row
stored = new_entry writer scheme "k" 5 6 draft init_db

stored_passes :
    walk writer scheme "k" ("k" ∷ []) 0 genesis_hash (stored ∷ []) ≡ walked 1 stored.hash
unfolding new_entry walk hash_matches verify_entry_sig compute_hash canonical payload dumps
    sort_keys get
stored_passes = refl

texts_differ : ◌≢◌ {A = String} "modern" "legacy"
texts_differ h = ground (arith, eq_iff "modern" "legacy")

stored-IsWritten : IsWritten writer stored stored
unfolding canonical canonical_legacy payload payload_legacy dumps sort_keys get
stored-IsWritten = record {
  modern = λ h. refl;
  legacy = λ h. refl;
  modern_first = λ h. texts_differ h;
  legacy_first = λ h. texts_differ (sym h);
}

tip_fixes_history_example :
    SameHistory writer (stored ∷ []) (stored ∷ []) ⊎ Break writer (stored ∷ []) (stored ∷ [])
tip_fixes_history_example =
    tip_fixes_history writer scheme "k" ("k" ∷ []) 1 1 stored.hash (stored ∷ []) (stored ∷ [])
      (stored-IsWritten, tt) stored_passes stored_passes

anchor_pins_last_entry_example :
    let (entry, l') = append host scheme "k" 5 6 draft init_db in
    ((verify_anchor host scheme "k" (record l' { rows = [] })).consistent ≡ true)
    ↔ (hash_at entry.id [] ≡ some entry.hash)
anchor_pins_last_entry_example = anchor_pins_last_entry host scheme "k" 5 6 draft init_db [] signed

abbrev checked : Ledger
checked = record init_db { checkpoint_id = 1 }

abbrev forged : Row
forged = record {
  id = 1;
  ts = num_of 5;
  actor_id = "ora.home";
  action = "control_device";
  args_summary = "device=lamp";
  args_json = "{}";
  decision = "allow";
  status = "executed";
  outcome = "never happened";
  prev_hash = genesis_hash;
  hash = "#actionother";
  sig = "";
  category = "other";
  risk = pos 0;
}

abbrev legacy : Row
legacy = record forged { hash = "#json" }
