-- ===== src/Tests/Serving.antt =====
-- The server, its purchases and the listener at concrete inputs.
use domesticoracle.Prelude.{
  arith, ℕ, String, ◌≡◌, refl, true, ◌++◌, none, some, List, [], ◌∷◌, All, text_eq,
}
use domesticoracle.Prelude.Int.{ℤ, pos}
use domesticoracle.Python.{Json, str, num, fin, num_of, obj, field, end, get, dumps, ◌+?◌, dict_of}
use domesticoracle.HomeAssistant.{Entity, list_mock}
use domesticoracle.HomeAssistant.Listener.{
  connecting, Happening, connected, received, failed, woken, listening, greeted, admitted, heard,
  told, react, changed, event_data, event_in,
}
use domesticoracle.HomeAssistant.Live.{url_error, Open, live_list, seen_devices, control_live}
use domesticoracle.HomeAssistant.Moves.{Log, run, IsDevice}
use domesticoracle.HomeAssistant.Handshake.{History, newest_first, listener-History}
use domesticoracle.HomeAssistant.Kept.{IsAlive, listener_kept}
use domesticoracle.HomeAssistant.Caught.{Tells, control_live-Tells}
use domesticoracle.Consent.{Call, Setup, record_entry}
use domesticoracle.Consent.Receipts.{purchase_counted}
use domesticoracle.Ledger.Spending.{sum_today, add_each, amounts, summary_amounts}
use domesticoracle.Server.{
  Backend, Arrival, Turn, Route, open_to_all, owner_only, chat, change_mode, serve, mcp, guarded,
}
use domesticoracle.Server.Authority.{HasNoOwner, serve_all, only_the_owner}
use domesticoracle.Server.Kept.{IsGoverned}
use domesticoracle.Mcp.{Scope, send_message}
use domesticoracle.Tests.Host.{host}
use domesticoracle.Tests.Gate.{setup, home, lamp_off}
use domesticoracle.Tests.Approvals.{out, at_home, split_dot, tea}
use domesticoracle.Agent.Home.{Home}

abbrev server : Backend
server = record {
  store = home;
  sessions = [];
  owner = record { env = ""; passphrase = none; token_file = none };
  keys = record { env_hex = ""; key_file = none; server_key = some "k"; keyset = [] };
  chats = [];
  live = record { cache = []; subscribers = [] };
  is_running = true;
  mcp = record {
    enabled = "true";
    token = "";
    split_amp = λ (s : String). s ∷ [];
    partition = λ (s : String). (s, "");
    pretty = λ _. "json";
    compact_line = λ _. "json";
  };
}

abbrev arrival : Arrival
arrival = record {
  session = some "stolen";
  now = 5;
  written = 6;
  consumed_at = 7;
  fresh = "f";
  drawn = "d";
  token = "t";
  call = lamp_off;
}

abbrev turn : Turn
turn = record { tools = (lamp_off, tea) ∷ []; texts = "Done." ∷ []; failure = none }

abbrev scope : Scope
scope = record { type = "http"; query_string = ""; headers = [] }

abbrev requests : List (Arrival × Route)
requests =
    (arrival, owner_only (change_mode "permissive"))
    ∷ (arrival, open_to_all (chat "ann" "buy tea" turn))
    ∷ (arrival, open_to_all (mcp scope (guarded (send_message "bob" "hello"))))
    ∷ []

abbrev listed : Home ℕ → List Entity × Home ℕ
listed w = (list_mock split_dot w.0, w)

requests-HasNoOwner : HasNoOwner setup out listed requests (server, at_home)
unfolding HasNoOwner serve
requests-HasNoOwner = (refl, (refl, (refl, tt)))

only_the_owner_example : IsGoverned server (serve_all setup out listed requests (server, at_home)).0
only_the_owner_example = only_the_owner setup out listed requests server at_home requests-HasNoOwner

-- A reader that knows the one text that is written.
abbrev shop : Setup
shop = record setup { reading = record (setup.reading) { extract = λ _ _. some (num_of 5) } }

abbrev purchase : Call
purchase = record lamp_off { action = "make_purchase"; args = field "amount" (num (num_of 5)) end }

amount_of_five :
    (n : ℤ) → some (num (num_of 5)) ≡ some (num (fin n)) → some (num_of 5) ≡ some (fin n)
amount_of_five n h = ground arith

purchase_counted_example :
    sum_today host shop.reading "make_purchase"
      (num_of 0)
      (record_entry shop purchase "allow" "executed" "ok" (pos 60) home).1.ledger.rows
    ≡ add_each
        (λ x y. x +? y)
        (add_each
          (λ x y. x +? y)
          (num_of 0)
          (amounts host shop.reading "make_purchase" (num_of 0) home.ledger.rows ++ num_of 5 ∷ []))
        (summary_amounts host shop.reading "make_purchase" (num_of 0) home.ledger.rows)
purchase_counted_example =
    purchase_counted shop purchase "allow" "ok" (pos 60) home (pos 5_000_000) (num_of 0)
      (record {
        extracts = λ n h. amount_of_five n (unfold get in h);
        written = λ n h. unfold dumps in refl;
      })
      refl (unfold get in refl) refl

abbrev message : String → Json
message type = obj (field "type" (str type) end)

abbrev opened : Json
opened = obj (
    dict_of (
      ("type", str "event")
      ∷ (
        "event",
        obj (
            dict_of (
              (
                "data",
                obj (
                    dict_of (
                      ("entity_id", str "light.x")
                      ∷ ("new_state", obj (field "state" (str "on") end))
                      ∷ [])),
              )
              ∷ [])),
      )
      ∷ []))

abbrev happenings : List Happening
happenings =
    failed
    ∷ woken
    ∷ connected
    ∷ received (some (message "auth_required"))
    ∷ received (some (message "auth_ok"))
    ∷ received (some opened)
    ∷ []

abbrev log : Log
log = record {
  phase = listening;
  sent =
      obj (dict_of (("type", str "auth") ∷ ("access_token", str "token") ∷ []))
      ∷ obj (
          dict_of (
            ("id", num (num_of 1))
            ∷ ("type", str "subscribe_events")
            ∷ ("event_type", str "state_changed")
            ∷ []))
      ∷ [];
  seen =
      record {
        entity_id = "light.x";
        name = "light.x";
        state = "on";
        domain = "light";
        attributes = end;
      }
      ∷ [];
}

happenings_heard : run split_dot "token" connecting happenings ≡ some log
unfolding run react greeted admitted heard event_in event_data changed told get
happenings_heard = refl

listener-History_example : History listening (newest_first happenings [])
listener-History_example = listener-History split_dot "token" happenings log happenings_heard

listener_kept_example :
    IsAlive split_dot "token" listening × All (IsDevice split_dot "token") log.seen
listener_kept_example =
    listener_kept split_dot "token" happenings log (tt, (tt, (tt, (tt, (tt, (tt, tt))))))
      happenings_heard

-- An instance that cannot be reached.
abbrev unreached : Open ℕ
unreached verb path payload n = (url_error "timed out", n)

abbrev lost : Entity
lost = record {
  entity_id = "error";
  name = "Home Assistant unreachable: timed out";
  state = "error";
  domain = "error";
  attributes = end;
}

control_live-Tells_example : Tells (control_live host split_dot unreached "lamp" "on" none 0).0
control_live-Tells_example =
    control_live-Tells host split_dot unreached (λ verb path payload w. tt) "lamp" "on" none 0
      (lost ∷ []) (unfold live_list seen_devices in refl)
