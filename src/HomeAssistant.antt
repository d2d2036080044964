-- ===== src/HomeAssistant.antt =====
-- backend/home_assistant.py: entities, services and the mock home, where no live instance is
-- configured. `split_dot` is Python's `s.split(".", 1)` where the text has a dot.
mod Catalog
pub mod Matching
pub mod Values
pub mod Live
pub mod Listener
pub mod Moves
pub mod Handshake
pub mod Kept
pub mod Caught
use text.Mathlib.Text.{find?}
use domesticoracle.Prelude.{
  ℕ, String, Bool, true, false, ◌||◌, not, Option, none, some, List, [], ◌∷◌, ◌++◌, map, ◌==◌,
  text_eq, if◌then◌else◌,
}
use domesticoracle.Prelude.Table.{Table, lookup, update}
use domesticoracle.Python.{Python, Dict, end, field, num, str, num_of, get, set, concat, is_lt_text}
use domesticoracle.Policy.{is_within}
unfoldable pub use Catalog.*

-- What the loop of `_match_entity` has seen.
pub record Seen : Type 0 where
  pub exact_id : Option Entity
  pub exact_name : Option Entity
  pub substring_hits : List Entity

abbrev pub only : List Entity → Option Entity
only (d ∷ []) = some d
only _ = none

abbrev pub choose : Seen → Option Entity
choose seen = elim seen.exact_id [
  | some d ↦ some d
  | none ↦ elim seen.exact_name [ some d ↦ some d | none ↦ only seen.substring_hits ]
]

module _ (py : Python) where
  -- The loop stops at an exact id.
  unfoldable pub look : String → List Entity → Seen → Seen
  look q [] seen = seen
  look q (d ∷ devices) seen =
      let eid = py.lower d.entity_id in
      let name = py.lower d.name in
      let named = look q devices (record seen { exact_name = some d }) in
      let hit = look q devices (record seen { substring_hits = seen.substring_hits ++ d ∷ [] }) in
      let other = look q devices seen in
      if eid == q
      then record seen { exact_id = some d }
      else if name == q
      then named
      else if is_within q name || is_within q eid
      then hit
      else other

  unfoldable pub match_entity : List Entity → String → Option Entity
  unfolding look
  match_entity devices device =
      let q = py.lower (py.strip device) in
      if q == ""
      then none
      else choose
          (look q devices (record { exact_id = none; exact_name = none; substring_hits = [] }))

  abbrev domain_service : String → String → Option String
  domain_service domain a = elim (lookup domain by_domain) [ none ↦ none | some t ↦ lookup a t ]

  unfoldable pub service_for : String → String → Option String
  unfolding lookup
  service_for domain action =
      let a = py.strip (py.lower action) in
      elim (domain_service domain a) [ some service ↦ some service | none ↦ lookup a generic ]

-- The state after a service, from the state before; `none` where the state stays.
abbrev pub new_state : String → String → Option String
new_state service current =
    if service == "toggle"
    then some (if current == "on" then "off" else "on")
    else lookup service result_state

abbrev pub adjust : String → String → Option Dict → String → Dict → Dict
adjust wanted key none service attrs = attrs
adjust wanted key (some extra) service attrs = elim (get key extra) [
  | none ↦ attrs
  | some v ↦ if service == wanted then set key v attrs else attrs
]

unfoldable pub operate : String → Option Dict → Device → Device
unfolding lookup get set
operate service extra d = record d {
  state = elim (new_state service d.state) [ none ↦ d.state | some state ↦ state ];
  attrs =
      adjust "set_temperature" "temperature" extra service
        (adjust "turn_on" "brightness" extra service d.attrs);
}

module _ (split_dot : String → Option (String × String)) where
  abbrev pub domain_of : String → String
  domain_of entity_id = elim (split_dot entity_id) [ none ↦ "" | some (domain, _) ↦ domain ]

  abbrev pub list_mock : Table String Device → List Entity
  list_mock [] = []
  list_mock ((eid, d) ∷ devices) =
      record {
        entity_id = eid;
        name = d.name;
        state = d.state;
        domain = domain_of eid;
        attributes = d.attrs;
      }
      ∷ list_mock devices

-- `sorted(…)` and `", ".join(…)`
abbrev insert_name : String → List String → List String
insert_name s [] = s ∷ []
insert_name s (t ∷ names) = if is_lt_text s t then s ∷ t ∷ names else t ∷ insert_name s names

abbrev pub sorted_names : List Entity → List String
sorted_names [] = []
sorted_names (d ∷ devices) = insert_name d.name (sorted_names devices)

abbrev pub joined_names : List String → String
joined_names [] = "none"
joined_names (s ∷ []) = s
joined_names (s ∷ t ∷ names) = concat (s ∷ ", " ∷ joined_names (t ∷ names) ∷ [])

module _ (py : Python) (split_dot : String → Option (String × String)) where
  -- `_MockHome.control`
  unfoldable pub control_mock :
      Entity → String → Option Dict → Table String Device → String × Table String Device
  unfolding operate
  control_mock entity service extra devices =
      let devices' = update entity.entity_id (operate service extra) devices in
      let state : String = elim (lookup entity.entity_id devices') [
        | none ↦ ""
        | some d ↦ d.state
      ] in
      (concat (entity.name ∷ " is now " ∷ state ∷ "." ∷ []), devices')

  unfoldable pub perform_service :
      Entity
      → String
      → Option Dict
      → Table String Device
      → Option String
      → String × Table String Device
  unfolding control_mock
  perform_service entity action extra devices none = (
    concat (
        "I don't know how to '" ∷ action ∷ "' the " ∷ entity.name
        ∷ ". Try on, off, toggle, lock/unlock, or open/close." ∷ []),
    devices,
  )
  perform_service entity action extra devices (some service) =
      let (text, devices') = control_mock entity service extra devices in
      (concat ("[MOCK] " ∷ text ∷ []), devices')

  unfoldable pub control_entity :
      String
      → String
      → Option Dict
      → Table String Device
      → Option Entity
      → String × Table String Device
  unfolding perform_service service_for
  control_entity device action extra devices none = (
    concat (
        "I couldn't find a device called '"
        ∷ device
        ∷ "'. Devices I can see: "
        ∷ joined_names (sorted_names (list_mock split_dot devices))
        ∷ "."
        ∷ []),
    devices,
  )
  control_entity device action extra devices (some entity) =
      perform_service entity action extra devices (service_for py entity.domain action)

  -- `control` of the mock home.
  unfoldable pub control :
      String → String → Option Dict → Table String Device → String × Table String Device
  unfolding match_entity control_entity
  control device action extra devices =
      control_entity device action extra devices
        (match_entity py (list_mock split_dot devices) device)
