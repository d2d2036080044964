-- ===== src/Tests/Home.antt =====
-- Devices, signed requests and the passphrase at concrete inputs.
use domesticoracle.Prelude.{
  String, ◌≡◌, ◌≢◌, refl, ap, ◌∙◌, true, false, [], Option, none, some, ◌∷◌, arith, text_eq, eq_iff,
}
use domesticoracle.Prelude.Table.{lookup, insert}
use domesticoracle.Python.{end, num_of}
use domesticoracle.Crypto.{is_fresh, consume_nonce}
use domesticoracle.Consent.{Agent, Store}
use domesticoracle.Consent.Signed.{
  Signed, Passes, verify_agent_request, checked_agent, nonce_checked, accepted-Passes,
}
use domesticoracle.HomeAssistant.{Entity, match_entity, list_mock, reset, look}
use domesticoracle.Crypto.Replay.{others}
use domesticoracle.Consent.Replays.{replay_rejected}
use domesticoracle.Auth.{Owner}
use domesticoracle.Tests.Host.{host, scheme}
use domesticoracle.Tests.Gate.{home}

abbrev remote : Agent
remote = record {
  name = "Remote";
  status = "active";
  kind = "external";
  public_key = "r";
  created = 0;
}

abbrev house : Store
house = record home { agents = ("agent.1", remote) ∷ home.agents }

abbrev signed : Signed
signed = record {
  actor_id = "agent.1";
  action = "control_device";
  args = end;
  nonce = "n";
  ts = num_of 5;
  sig = "signed";
}

signed_accepted : (verify_agent_request host scheme 7_000_000 7_000_001 signed house).0.0 ≡ true
unfolding verify_agent_request checked_agent nonce_checked is_fresh consume_nonce insert lookup
signed_accepted = refl

accepted-Passes_example :
    (a : Agent) × Passes host scheme 7_000_000 7_000_001 signed house a
    × ((consume_nonce "n" 7_000_001 house.nonces).0 ≡ true)
accepted-Passes_example =
    accepted-Passes host scheme 7_000_000 7_000_001 signed house signed_accepted

-- The store after one other request.
abbrev later_house : Store
later_house = record house {
  nonces =
      others (("m", 8_000_000) ∷ [])
        (verify_agent_request host scheme 7_000_000 7_000_001 signed house).1.nonces;
}

replay_rejected_example :
    (verify_agent_request host scheme 9_000_000 400_000_000 signed later_house).0.0 ≡ false
replay_rejected_example =
    replay_rejected host scheme 7_000_000 7_000_001 9_000_000 400_000_000 signed signed house
      later_house (("m", 8_000_000) ∷ []) signed_accepted (omega arith) refl refl (omega arith, tt)
      refl refl

abbrev forged : Signed
forged = record signed { sig = "forged" }

abbrev split_dot : String → Option (String × String)
split_dot _ = some ("light", "x")

abbrev lamp : Entity
lamp = record {
  entity_id = "light.bedroom";
  name = "Bedroom Light";
  state = "off";
  domain = "light";
  attributes = end;
}

abbrev lookalike : Entity
lookalike = record lamp { entity_id = "switch.x"; name = "light.bedroom" }

abbrev id_of : Option Entity → String
id_of none = ""
id_of (some e) = e.entity_id

not_the_lock :
    (e : Entity)
    → match_entity host (list_mock split_dot reset) "light.bedroom" ≡ some e
    → e.entity_id ≢ "lock.front_door"
unfolding match_entity look
not_the_lock e found same =
    ground (arith, ap id_of found ∙ same, eq_iff "light.bedroom" "lock.front_door")

abbrev owner : Owner
owner = record { env = ""; passphrase = none; token_file = none }
