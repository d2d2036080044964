-- ===== src/HomeAssistant/Listener.antt =====
-- backend/home_assistant.py: `_ha_ws_loop`, the task that listens to Home Assistant's WebSocket, as a
-- state machine: where the task waits, and what may come there.
use domesticoracle.Prelude.{
  ℕ, String, Bool, Option, none, some, List, [], ◌∷◌, ◌==◌, text_eq, if◌then◌else◌,
}
use domesticoracle.Python.{
  Json, str, num, obj, Dict, end, get, get_default, dict_of, num_of, truthy,
}
use domesticoracle.HomeAssistant.Catalog.{Entity}
use domesticoracle.HomeAssistant.{domain_of}
use domesticoracle.HomeAssistant.Live.{is_controllable, device_of}

-- What the task waits for: the connection, `auth_required`, the answer to its token, an event, or
-- the end of a pause of some seconds.
pub data Phase : Type 0 where
  connecting greeting authenticating listening : Phase
  pausing : ℕ → Phase
  stopped : Phase

-- What happens to a task that waits: a connection is made, a text arrives (`none` where it is not
-- JSON), what it waits for fails or takes too long, the pause is over, or the task is cancelled.
pub data Happening : Type 0 where
  connected : Happening
  received : Option Json → Happening
  failed woken cancelled : Happening

-- The texts that are sent, and the device that is handed to the callback.
pub record Moved : Type 0 where
  pub phase : Phase
  pub sent : List Json
  pub seen : Option Entity

abbrev pub to : Phase → Moved
to p = record { phase = p; sent = []; seen = none }

-- An exception: a pause of 5 seconds before the next connection.
abbrev pub broken : Moved
broken = to (pausing 5)

abbrev auth_message : String → Json
auth_message token = obj (dict_of (("type", str "auth") ∷ ("access_token", str token) ∷ []))

abbrev subscribe_message : Json
subscribe_message = obj (
    dict_of (
      ("id", num (num_of 1))
      ∷ ("type", str "subscribe_events")
      ∷ ("event_type", str "state_changed")
      ∷ []))

abbrev is_text : String → Json → Bool
is_text wanted (str s) = s == wanted
is_text wanted v = Bool.false

-- `msg.get("type") == wanted`
abbrev pub has_type : String → Dict → Bool
has_type wanted d = is_text wanted (get_default "type" (str "") d)

module _ (split_dot : String → Option (String × String)) (token : String) where
  unfoldable pub greeted : Option Json → Moved
  unfolding get
  greeted (some (obj msg)) =
      if has_type "auth_required" msg
      then record { phase = authenticating; sent = auth_message token ∷ []; seen = none }
      else to (pausing 10)
  greeted v = broken

  unfoldable pub admitted : Option Json → Moved
  unfolding get
  admitted (some (obj msg)) =
      if has_type "auth_ok" msg
      then record { phase = listening; sent = subscribe_message ∷ []; seen = none }
      else to (pausing 30)
  admitted v = broken

  abbrev pub tell : Option Entity → Moved
  tell none = broken
  tell (some e) = record { phase = listening; sent = []; seen = some e }

  unfoldable pub told : String → String → Json → Moved
  unfolding device_of
  told eid domain (obj ns) = tell (device_of ns eid domain)
  told eid domain v = broken

  -- The new state of an entity, where it is set and the entity's domain is controllable.
  unfoldable pub changed : Json → Json → Moved
  unfolding told
  changed (str eid) new_state =
      let domain = domain_of split_dot eid in
      if truthy new_state
      then if is_controllable domain then told eid domain new_state else to listening
      else to listening
  changed eid new_state = if truthy new_state then broken else to listening

  unfoldable pub event_data : Json → Moved
  unfolding changed get
  event_data (obj data_of) =
      changed (get_default "entity_id" (str "") data_of) (get_default "new_state" (obj end) data_of)
  event_data v = broken

  unfoldable pub event_in : Json → Moved
  unfolding event_data get
  event_in (obj event) = event_data (get_default "data" (obj end) event)
  event_in v = broken

  unfoldable pub heard : Option Json → Moved
  unfolding event_in get
  heard (some (obj msg)) =
      if has_type "event" msg then event_in (get_default "event" (obj end) msg) else to listening
  heard v = broken

  -- One move of the task; `none` where that cannot happen there.
  unfoldable pub react : Phase → Happening → Option Moved
  unfolding greeted admitted heard
  react stopped h = none
  react p cancelled = some (to stopped)
  react connecting connected = some (to greeting)
  react greeting (received v) = some (greeted v)
  react authenticating (received v) = some (admitted v)
  react listening (received v) = some (heard v)
  react (pausing n) woken = some (to connecting)
  react (pausing n) failed = none
  react p failed = some broken
  react p h = none
