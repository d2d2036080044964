-- ===== src/HomeAssistant/Values.antt =====
-- backend/home_assistant.py: `control` at the values that a stored request can hold, where a text is
-- expected.
use domesticoracle.Prelude.{String, Option, none, some, if◌then◌else◌}
use domesticoracle.Prelude.Table.{Table}
use domesticoracle.Python.{Python, Json, str, Dict, truthy}
use domesticoracle.Policy.{text_of}
use domesticoracle.Consent.{Effect, returned, raised}
use domesticoracle.HomeAssistant.{
  Device, Entity, match_entity, service_for, perform_service, control_entity, list_mock,
}

-- `(v or "")` where the next call is a method of texts; `none` where that raises AttributeError.
abbrev pub as_text : Json → Option String
as_text (str s) = some s
as_text v = if truthy v then none else some ""

module _ (py : Python) (split_dot : String → Option (String × String)) where
  abbrev as_effect : String × Table String Device → Effect × Table String Device
  as_effect (text, devices) = (returned text, devices)

  unfoldable pub control_action :
      String
      → Option Dict
      → Table String Device
      → Entity
      → Option String
      → Effect × Table String Device
  unfolding perform_service service_for
  control_action shown extra devices entity none =
      (raised "object has no attribute 'lower'", devices)
  control_action shown extra devices entity (some action) = as_effect (
      perform_service py split_dot entity shown extra devices (service_for py entity.domain action))

  unfoldable pub control_found :
      Json → Json → Option Dict → Table String Device → Option Entity → Effect × Table String Device
  unfolding control_action control_entity
  control_found device action extra devices none =
      as_effect (control_entity py split_dot (text_of py device) "" extra devices none)
  control_found device action extra devices (some entity) =
      control_action (text_of py action) extra devices entity (as_text action)

  unfoldable pub control_named :
      Json → Json → Option Dict → Table String Device → Option String → Effect × Table String Device
  unfolding control_found match_entity
  control_named device action extra devices none =
      (raised "object has no attribute 'strip'", devices)
  control_named device action extra devices (some name) =
      control_found device action extra devices (match_entity py (list_mock split_dot devices) name)

  unfoldable pub control_value :
      Json → Json → Option Dict → Table String Device → Effect × Table String Device
  unfolding control_named
  control_value device action extra devices =
      control_named device action extra devices (as_text device)
