-- ===== src/HomeAssistant/Live.antt =====
-- backend/home_assistant.py: the live backend, on the REST interface of Home Assistant.
use domesticoracle.Prelude.{
  String, Bool, Option, none, some, List, [], ◌∷◌, any, ◌==◌, text_eq, if◌then◌else◌,
}
use domesticoracle.Prelude.Table.{lookup}
use domesticoracle.Python.{
  Python, Json, null, str, arr, obj, Items, nil, item, Dict, end, field, set, get, get_default,
  concat, truthy,
}
use domesticoracle.Consent.{Effect, returned, raised}
use domesticoracle.HomeAssistant.Catalog.{Entity, result_state, extract_attrs}
use domesticoracle.HomeAssistant.{match_entity, service_for, domain_of, joined_names, sorted_names}

-- What opening a URL gives: the body, or an exception that is a URLError, an HTTPError or a
-- ValueError, or any other exception.
pub data Page : Type 0 where
  page : String → Page
  url_error : String → Page
  other_error : String → Page

-- What a step of the live backend gives: a value, an exception of those three kinds, or another.
pub data Got (A : Type 0) : Type 0 where
  value : A → Got A
  caught : String → Got A
  uncaught : String → Got A

-- urllib's `urlopen` with the address and token that are configured: method, path and payload.
abbrev pub Open : Type 0 → Type 0
Open W = String → String → Option Json → W → Page × W

abbrev pub controllable : List String
controllable =
    "light" ∷ "switch" ∷ "fan" ∷ "lock" ∷ "cover" ∷ "climate" ∷ "media_player" ∷ "input_boolean"
    ∷ "scene" ∷ "script" ∷ []

abbrev pub is_controllable : String → Bool
is_controllable domain = any (λ d. d == domain) controllable

-- The device of an entity's state, whose name and state are texts.
abbrev pub named : Json → Json → Dict → String → String → Option Entity
named (str name) (str state) raw eid domain = some (record {
  entity_id = eid;
  name = name;
  state = state;
  domain = domain;
  attributes = extract_attrs raw domain;
})
named name state raw eid domain = none

abbrev pub device_as : Dict → String → String → Json → Option Entity
device_as s eid domain (obj raw) =
    named (get_default "friendly_name" (str eid) raw) (get_default "state" (str "unknown") s) raw
      eid domain
device_as s eid domain v = none

unfoldable pub device_of : Dict → String → String → Option Entity
unfolding get extract_attrs
device_of s eid domain = device_as s eid domain (get_default "attributes" (obj end) s)

abbrev add_device : Option Entity → Got (List Entity) → Got (List Entity)
add_device none rest = uncaught "unreadable state"
add_device (some e) (value es) = value (e ∷ es)
add_device (some e) other = other

module _ (py : Python) (split_dot : String → Option (String × String)) where
  unfoldable pub devices_of : Items → Got (List Entity)
  unfolding device_of get
  devices_of nil = value []
  devices_of (item (obj s) states) =
      let rest = devices_of states in
      elim (get_default "entity_id" (str "") s) [
        | str eid ↦
            let domain = domain_of split_dot eid in
            if is_controllable domain then add_device (device_of s eid domain) rest else rest
        | _ ↦ uncaught "unreadable state"
      ]
  devices_of (item v states) = uncaught "object has no attribute 'get'"

  -- `_ha_request(…) or []`
  unfoldable pub devices_in : Got Json → Got (List Entity)
  unfolding devices_of
  devices_in (value (arr states)) = devices_of states
  devices_in (value v) = if truthy v then uncaught "not a list of states" else value []
  devices_in (caught error) = caught error
  devices_in (uncaught error) = uncaught error

  unfoldable pub read_page : Page → Got Json
  read_page (page body) =
      if py.strip body == ""
      then value null
      else elim (py.loads body) [ none ↦ caught "not JSON" | some v ↦ value v ]
  read_page (url_error error) = caught error
  read_page (other_error error) = uncaught error

  module _ {W : Type 0} (open_url : Open W) where
    -- `_ha_request`
    unfoldable pub ha_request : String → String → Option Json → W → Got Json × W
    unfolding read_page
    ha_request verb path payload w =
        let (answer, w') = open_url verb path payload w in (read_page answer, w')

    -- `_live_list`
    unfoldable pub live_list : W → Got (List Entity) × W
    unfolding ha_request devices_in
    live_list w =
        let (states, w') = ha_request "GET" "/api/states" none w in (devices_in states, w')

    abbrev added : Dict → Dict → Dict
    added end d = d
    added (field k v extra) d = added extra (set k v d)

    abbrev with_extra : Option Dict → Dict → Dict
    with_extra none d = d
    with_extra (some extra) d = added extra d

    abbrev result_of : String → String
    result_of service = elim (lookup service result_state) [ none ↦ service | some state ↦ state ]

    abbrev pub is_now : Entity → String → Got Json → Got String
    is_now entity service (value v) =
        value (concat (entity.name ∷ " is now " ∷ result_of service ∷ "." ∷ []))
    is_now entity service (caught error) = caught error
    is_now entity service (uncaught error) = uncaught error

    abbrev pub service_path : Entity → String → String
    service_path entity service = concat ("/api/services/" ∷ entity.domain ∷ "/" ∷ service ∷ [])

    abbrev pub service_payload : Entity → Option Dict → Json
    service_payload entity extra =
        obj (with_extra extra (field "entity_id" (str entity.entity_id) end))

    -- `_live_control`
    unfoldable pub live_control : Entity → String → Option Dict → W → Got String × W
    unfolding ha_request set lookup
    live_control entity service extra w =
        let (answer, w') =
          ha_request "POST" (service_path entity service) (some (service_payload entity extra)) w in
        (is_now entity service answer, w')

    -- `list_devices` of a configured instance; `none` is an exception.
    unfoldable pub seen_devices : Got (List Entity) → Option (List Entity)
    seen_devices (value es) = some es
    seen_devices (caught error) = some (
        record {
          entity_id = "error";
          name = concat ("Home Assistant unreachable: " ∷ error ∷ []);
          state = "error";
          domain = "error";
          attributes = end;
        }
        ∷ [])
    seen_devices (uncaught error) = none

    abbrev pub as_effect : Entity → Got String → Effect
    as_effect entity (value text) = returned text
    as_effect entity (caught error) =
        returned (concat ("Couldn't reach the " ∷ entity.name ∷ ": " ∷ error ∷ []))
    as_effect entity (uncaught error) = raised error

    unfoldable pub live_service : Entity → String → Option Dict → Option String → W → Effect × W
    unfolding live_control
    live_service entity action extra none w = (
      returned (
          concat (
            "I don't know how to '" ∷ action ∷ "' the " ∷ entity.name
            ∷ ". Try on, off, toggle, lock/unlock, or open/close." ∷ [])),
      w,
    )
    live_service entity action extra (some service) w =
        let (got, w') = live_control entity service extra w in (as_effect entity got, w')

    unfoldable pub live_found :
        List Entity → String → String → Option Dict → Option Entity → W → Effect × W
    unfolding live_service service_for
    live_found devices device action extra none w = (
      returned (
          concat (
            "I couldn't find a device called '"
            ∷ device
            ∷ "'. Devices I can see: "
            ∷ joined_names (sorted_names devices)
            ∷ "."
            ∷ [])),
      w,
    )
    live_found devices device action extra (some entity) w =
        live_service entity action extra (service_for py entity.domain action) w

    unfoldable pub live_among :
        String → String → Option Dict → Option (List Entity) → W → Effect × W
    unfolding live_found match_entity
    live_among device action extra none w = (raised "Home Assistant's answer is not read", w)
    live_among device action extra (some devices) w =
        live_found devices device action extra (match_entity py devices device) w

    -- `control` of a configured instance.
    unfoldable pub control_live : String → String → Option Dict → W → Effect × W
    unfolding live_list seen_devices live_among
    control_live device action extra w =
        let (got, w') = live_list w in live_among device action extra (seen_devices got) w'
