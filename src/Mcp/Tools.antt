-- ===== src/Mcp/Tools.antt =====
-- backend/mcp_server.py: the guarded and the read-only tools. `pretty` is `json.dumps(v, indent=2)`.
use domesticoracle.Prelude.{
  ℕ, String, Option, none, some, List, [], ◌∷◌, map, ltb, ◌==◌, text_eq, if◌then◌else◌,
}
use domesticoracle.Prelude.Int.{ℤ, pos, negsuc}
use domesticoracle.Python.{
  Python, Json, num, str, arr, obj, Dict, end, field, Num, num_of, concat, dict_of, items_of,
}
use domesticoracle.Provenance.{Source}
use domesticoracle.Policy.{decision_text, Policies, evaluate}
use domesticoracle.Ledger.{Row, Ledger}
use domesticoracle.Ledger.Views.{list_entries}
use domesticoracle.HomeAssistant.{Entity}
use domesticoracle.Agent.{Outside}
use domesticoracle.Consent.{
  Store, Effect, returned, raised, Callable, Setup, Call, Reply, answer, failed, request_action,
}

pub data Tool : Type 0 where
  control_device : (entity_id command : String) → Tool
  make_purchase : (item : String) (amount : Num) (vendor : String) → Tool
  send_message : (recipient body : String) → Tool

abbrev pub mcp_actor : String
mcp_actor = "ora.mcp"

unfoldable pub action_of : Tool → String
action_of (control_device entity_id command) = "control_device"
action_of (make_purchase item amount vendor) = "make_purchase"
action_of (send_message recipient body) = "send_message"

unfoldable pub args_of : Tool → Dict
args_of (control_device entity_id command) =
    field "entity" (str entity_id) (field "command" (str command) end)
args_of (make_purchase item amount vendor) =
    field "item" (str item)
      (field "amount" (num amount) (if vendor == "" then end else field "vendor" (str vendor) end))
args_of (send_message recipient body) =
    field "recipient" (str recipient) (field "body" (str body) end)

abbrev from_mcp : String → Option String → List Source
from_mcp id content = record { type = "mcp_tool"; id = id; content = content } ∷ []

unfoldable pub sources_of : Tool → List Source
sources_of (control_device entity_id command) =
    from_mcp (concat ("mcp:control_device:" ∷ entity_id ∷ [])) none
sources_of (make_purchase item amount vendor) = from_mcp "mcp:make_purchase" none
sources_of (send_message recipient body) = from_mcp "mcp:send_message" (some body)

module _ {W : Type 0} (st : Setup) (out : Outside W) where
  unfoldable pub work_of : Tool → Callable W
  work_of (control_device entity_id command) w = out.control (str entity_id) (str command) none w
  work_of (make_purchase item amount vendor) w = (
    returned (
        concat (
          "Purchase queued: "
          ∷ item
          ∷ " $"
          ∷ st.py.fixed2 amount
          ∷ (if vendor == "" then "" else concat (" from " ∷ vendor ∷ []))
          ∷ "."
          ∷ [])),
    w,
  )
  work_of (send_message recipient body) w =
      (returned (concat ("Message to " ∷ recipient ∷ ": queued (no outbox configured)." ∷ [])), w)

  unfoldable pub call_of : Call → Tool → Call
  unfolding action_of args_of sources_of
  call_of c t = record c {
    actor_id = mcp_actor;
    action = action_of t;
    args = args_of t;
    sources = sources_of t;
  }

  -- `return _gate_message(result)`: no definition binds that name, so the call raises NameError.
  unfoldable pub gate_message : Reply → Effect
  gate_message (failed error) = raised error
  gate_message (answer a) = raised "name '_gate_message' is not defined"

  unfoldable pub run_tool : Call → Tool → Store → W → Effect × (Store × W)
  unfolding call_of work_of gate_message
  run_tool c t s w =
      let (reply, after) = request_action st (call_of c t) (work_of t) s w in
      (gate_message reply, after)

abbrev entity_json : Entity → Json
entity_json e = obj (
    dict_of (
      ("entity_id", str e.entity_id)
      ∷ ("name", str e.name)
      ∷ ("state", str e.state)
      ∷ ("domain", str e.domain)
      ∷ ("attributes", obj e.attributes)
      ∷ []))

-- `max(1, min(100, limit))`
abbrev pub page : ℤ → ℕ
page (negsuc n) = 1
page (pos n) = if ltb n 1 then 1 else if ltb 100 n then 100 else n

abbrev slim : Row → Json
slim e = obj (
    dict_of (
      ("id", num (num_of e.id))
      ∷ ("ts", num e.ts)
      ∷ ("actor", str e.actor_id)
      ∷ ("action", str e.action)
      ∷ ("summary", str e.args_summary)
      ∷ ("decision", str e.decision)
      ∷ ("status", str e.status)
      ∷ ("outcome", str e.outcome)
      ∷ []))

module _ (pretty : Json → String) where
  -- `ha.list_devices()` does not raise: it answers with an error row where the live call fails.
  unfoldable pub list_devices : List Entity → String
  list_devices devices = pretty (arr (items_of (map entity_json devices)))

  unfoldable pub query_ledger : ℤ → Ledger → String
  query_ledger limit l = pretty (arr (items_of (map slim (list_entries (page limit) l))))

-- A dry run. `args` is what `json.loads` gives, where that is an object; `compact_line` is
-- `json.dumps(v)`.
unfoldable pub check_policy :
    Python
    → (Json → String)
    → String
    → Option Dict
    → (hour : ℕ) (spent_today : Num) → Policies
    → Option String × Policies
check_policy py compact_line action none hour spent_today s =
    (some (compact_line (obj (field "error" (str "args_json is not valid JSON") end))), s)
check_policy py compact_line action (some args) hour spent_today s =
    let (verdict, s') =
      evaluate py
        (record { action = action; args = args; now_hour = hour; spent_today = spent_today }) s in
    (
      elim verdict [
        | none ↦ none
        | some (decision, reason) ↦ some (
            compact_line (
              obj (
                dict_of (
                  ("action", str action)
                  ∷ ("verdict", str (decision_text decision))
                  ∷ ("reason", str reason)
                  ∷ []))))
      ],
      s',
    )
