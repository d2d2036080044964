-- ===== src/HomeAssistant/Catalog.antt =====
-- backend/home_assistant.py: devices, the tables of services and attributes, and the mock home.
use domesticoracle.Prelude.{String, Bool, ◌||◌, not, none, some, List, [], ◌∷◌, ◌==◌, text_eq}
use domesticoracle.Prelude.Table.{Table, lookup}
use domesticoracle.Python.{Dict, end, field, num, str, num_of, get}

-- A device of the mock home.
pub record Device : Type 0 where
  pub name : String
  pub state : String
  pub attrs : Dict

-- A row of list_devices.
pub record Entity : Type 0 where
  pub entity_id : String
  pub name : String
  pub state : String
  pub domain : String
  pub attributes : Dict

abbrev pub generic : Table String String
generic = ("on", "turn_on") ∷ ("off", "turn_off") ∷ ("toggle", "toggle") ∷ []

abbrev pub by_domain : Table String (Table String String)
by_domain =
    ("lock", ("lock", "lock") ∷ ("unlock", "unlock") ∷ ("on", "lock") ∷ ("off", "unlock") ∷ [])
    ∷ (
      "cover",
      ("open", "open_cover")
          ∷ ("close", "close_cover")
          ∷ ("on", "open_cover")
          ∷ ("off", "close_cover")
          ∷ [],
    )
    ∷ (
      "climate",
      ("set_temperature", "set_temperature")
          ∷ ("heat", "set_hvac_mode")
          ∷ ("cool", "set_hvac_mode")
          ∷ ("auto", "set_hvac_mode")
          ∷ ("off", "turn_off")
          ∷ [],
    )
    ∷ []

abbrev pub result_state : Table String String
result_state =
    ("turn_on", "on")
    ∷ ("turn_off", "off")
    ∷ ("lock", "locked")
    ∷ ("unlock", "unlocked")
    ∷ ("open_cover", "open")
    ∷ ("close_cover", "closed")
    ∷ ("set_temperature", "updated")
    ∷ []

abbrev pub reset : Table String Device
reset =
    (
      "light.living_room",
      record {
        name = "Living Room Lamp";
        state = "off";
        attrs = field "brightness" (num (num_of 200)) end;
      },
    )
    ∷ (
      "light.bedroom",
      record {
        name = "Bedroom Light";
        state = "off";
        attrs = field "brightness" (num (num_of 128)) end;
      },
    )
    ∷ ("switch.coffee_maker", record { name = "Coffee Maker"; state = "off"; attrs = end })
    ∷ (
      "fan.office",
      record {
        name = "Office Fan";
        state = "off";
        attrs = field "percentage" (num (num_of 50)) end;
      },
    )
    ∷ ("lock.front_door", record { name = "Front Door"; state = "locked"; attrs = end })
    ∷ (
      "cover.garage",
      record {
        name = "Garage Door";
        state = "closed";
        attrs = field "current_position" (num (num_of 0)) end;
      },
    )
    ∷ (
      "climate.thermostat",
      record {
        name = "Thermostat";
        state = "heat";
        attrs = field "current_temperature" (num (num_of 68)) (
            field "temperature" (num (num_of 70)) (
              field "hvac_mode" (str "heat") (
                field "min_temp" (num (num_of 60)) (
                  field "max_temp" (num (num_of 85))
                    (field "unit_of_measurement" (str "°F") end)))));
      },
    )
    ∷ []

-- The attributes that are shown of a device of each domain.
abbrev pub attrs_by_domain : Table String (List String)
attrs_by_domain =
    ("light", "brightness" ∷ "color_temp" ∷ "rgb_color" ∷ [])
    ∷ (
      "climate",
      "current_temperature" ∷ "temperature" ∷ "hvac_mode" ∷ "min_temp" ∷ "max_temp"
          ∷ "unit_of_measurement" ∷ [],
    )
    ∷ ("media_player", "media_title" ∷ "media_artist" ∷ "volume_level" ∷ "is_volume_muted" ∷ [])
    ∷ ("cover", "current_position" ∷ [])
    ∷ ("fan", "percentage" ∷ [])
    ∷ []

abbrev keep_keys : List String → Dict → Dict
keep_keys [] raw = end
keep_keys (k ∷ keys) raw = elim (get k raw) [
  | none ↦ keep_keys keys raw
  | some v ↦ field k v (keep_keys keys raw)
]

unfoldable pub extract_attrs : Dict → String → Dict
unfolding lookup get
extract_attrs raw domain = elim (lookup domain attrs_by_domain) [
  | none ↦ end
  | some keys ↦ keep_keys keys raw
]

-- ORA_HA_URL and ORA_HA_TOKEN, where an unset variable is the empty text; `rstrip_slash` is
-- `s.rstrip("/")`.
abbrev pub configured : (String → String) → String → String → Bool
configured rstrip_slash url token = not (rstrip_slash url == "" || token == "")
