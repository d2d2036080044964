-- ===== src/Agent/Lookups.antt =====
-- backend/domestic_oracle/tools/safe_tools.py: the list of devices, which the agent may read without
-- the gate and which the ledger records.
use domesticoracle.Prelude.{ℕ, String, Bool, Option, none, some, List, [], ◌∷◌, if◌then◌else◌}
use domesticoracle.Prelude.Int.{ℤ}
use domesticoracle.Python.{Python, end, concat, take_text}
use domesticoracle.Crypto.{Signatures}
use domesticoracle.Risk.{category, score}
use domesticoracle.Ledger.{Ledger, Draft, append}
use domesticoracle.HomeAssistant.{Entity}

-- `"\n".join(lines)` after the first line.
abbrev more_lines : List Entity → List String
more_lines [] = []
more_lines (d ∷ devices) =
    "\n- " ∷ d.name ∷ " (" ∷ d.entity_id ∷ ") — currently " ∷ d.state ∷ more_lines devices

unfoldable pub devices_text : Bool → List Entity → String
devices_text live [] = "I don't see any smart-home devices."
devices_text live (d ∷ devices) = concat (
    "Devices in "
    ∷ (if live then "your Home Assistant" else "a mock home (no Home Assistant configured yet)")
    ∷ ":"
    ∷ more_lines (d ∷ devices))

module _ (py : Python) (sg : Signatures) (key : String) (now written : ℕ) where
  lookup_draft : String → ℤ → Draft
  lookup_draft outcome risk = record {
    actor_id = "oracle.agent";
    action = "discover_devices";
    args_summary = "(no args)";
    decision = "allow";
    status = "executed";
    outcome = outcome;
    category = category "discover_devices";
    risk = risk;
    args = end;
    provenance = none;
  }

  -- `none` is an exception.
  unfoldable pub discover_devices : Bool → List Entity → Ledger → Option (String × Ledger)
  unfolding devices_text lookup_draft append score
  discover_devices live devices l =
      let text = devices_text live devices in
      elim (score py "discover_devices" end "allow") [
        | none ↦ none
        | some risk ↦
            some (text, (append py sg key now written (lookup_draft (take_text 300 text) risk) l).1)
      ]
