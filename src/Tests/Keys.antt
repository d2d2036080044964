-- ===== src/Tests/Keys.antt =====
-- Keys and nonces at concrete inputs.
use domesticoracle.Prelude.{ℕ, true, none, some, [], ◌∷◌, text_eq}
use domesticoracle.Python.{unit}
use domesticoracle.Crypto.{KeyStore, KeyRecord}

abbrev second : ℕ
second = unit

abbrev active_key : KeyRecord
active_key = record { pub_hex = "old"; rotated_in = 1; rotated_out = none; active = true }

abbrev keys : KeyStore
keys = record {
  env_hex = "";
  key_file = some ("old", 1);
  server_key = some "old";
  keyset = active_key ∷ [];
}

-- A key set that was written for another key.
abbrev other_keys : KeyStore
other_keys = record keys { server_key = some "env"; env_hex = "env" }
