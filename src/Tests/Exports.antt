-- ===== src/Tests/Exports.antt =====
-- The offline verifier at a concrete export.
use domesticoracle.Prelude.{
  String, ◌≡◌, refl, true, not, none, [], ◌∷◌, ◌&&◌, text_eq, ◌==◌, arith, eq_iff,
}
use domesticoracle.Prelude.Int.{pos}
use domesticoracle.Python.{end}
use domesticoracle.Crypto.{Signatures, KeyRecord, add_public}
use domesticoracle.Ledger.{Ledger, append, init_db, verify_chain}
use domesticoracle.Verifier.{build_pub_keys, verify_export}
use domesticoracle.Verifier.Keys.{passes}
use domesticoracle.Verifier.Agreement.{IsEd25519, verifier_agrees}
use domesticoracle.Tests.Host.{host}

-- A scheme without empty keys.
abbrev strict : Signatures
strict = record {
  public_of = λ (key : String). key;
  sign_with = λ _ _. "signed";
  verify_with = λ key _ (sig : String). not (key == "") && sig == "signed";
}

strict-IsEd25519 : IsEd25519 strict (λ sig. sig == "signed")
strict-IsEd25519 = record {
  hexed = λ key text sig h. ground arith;
  keyed = λ text sig. refl;
  signed = λ key text. ground arith;
}

abbrev own_key : KeyRecord
own_key = record { pub_hex = "k"; rotated_in = 0; rotated_out = none; active = true }

abbrev one_entry : Ledger
one_entry =
    (append host strict "k" 1 2
      (record {
        actor_id = "ora.home";
        action = "control_device";
        args_summary = "device=lamp";
        decision = "allow";
        status = "executed";
        outcome = "done";
        category = "device";
        risk = pos 10;
        args = end;
        provenance = none;
      })
      init_db).1

verifier_agrees_example :
    (verify_chain host strict "k"
      (add_public strict "k" 0 ("k" ∷ []) (own_key ∷ []))
      true
      one_entry).0.valid
    ≡ passes (
        verify_export host strict
          (λ _. true)
          (λ sig. sig == "signed")
          (record { public_key_hex = "k"; keyset = "k" ∷ []; entries = one_entry.rows }))
unfolding append
verifier_agrees_example =
    verifier_agrees host strict (λ _. true) (λ sig. sig == "signed") strict-IsEd25519 "k" "k" 0
      (own_key ∷ []) ("k" ∷ []) one_entry.rows (λ e. ground (arith, eq_iff "k" ""))
      (unfold build_pub_keys in refl) one_entry refl refl
