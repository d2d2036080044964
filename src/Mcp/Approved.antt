-- ===== src/Mcp/Approved.antt =====
-- What the owner's approval of a held MCP tool does.
use domesticoracle.Prelude.{ℕ, String, ◌≡◌, refl, ◌∙◌, ap, Option, none, some, text_eq}
use domesticoracle.Prelude.Table.{Table}
use domesticoracle.Python.{get, str}
use domesticoracle.Consent.{Store, Setup, Call, held, Answer, answer, request_action, resolve}
use domesticoracle.Consent.Held.{held_then_approved}
use domesticoracle.HomeAssistant.{Device, match_entity}
use domesticoracle.HomeAssistant.Values.{control_value}
use domesticoracle.Agent.{Outside, execute}
use domesticoracle.Agent.Home.{Home, Mail, outside_of}
use domesticoracle.Mcp.Tools.{control_device, call_of, work_of}

module _ {M : Type 0} (st : Setup) (split_dot : String → Option (String × String))
    (mail : Mail M) where
  abbrev home_out : Outside (Home M)
  home_out = outside_of st.py split_dot mail

  -- An empty name means no device.
  control_nothing :
      (devices : Table String Device)
      → st.py.lower (st.py.strip "") ≡ ""
      → (control_value st.py split_dot (str "") (str "") none devices).1 ≡ devices
  unfolding control_value match_entity
  control_nothing devices h = rw h refl

  -- A device command over MCP that is held and then approved, with the agent's executor registered,
  -- leaves every device of the mock home as it is: the stored arguments are called `entity` and
  -- `command`, and the executor reads `device` and `action`.
  pub approved_mcp_control_lost :
      (c : Call) (entity_id command : String) (now written : ℕ) (s s' : Store) (w w' : Home M)
      (a : Answer)
      → st.py.lower (st.py.strip "") ≡ ""
      → request_action st
          (call_of st home_out c (control_device entity_id command))
          (work_of st home_out (control_device entity_id command))
          s
          w
        ≡ (answer a, (s', w'))
      → a.status ≡ held
      → (resolve st now written (some (execute st.py home_out)) c.approval_id "approve" s' w').1.1.0
        ≡ w.0
  unfolding call_of execute get outside_of
  approved_mcp_control_lost c entity_id command now written s s' w w' a blank asked h =
      let t = control_device entity_id command in
      let (untouched, ran) =
        held_then_approved st (call_of st home_out c t) (work_of st home_out t)
          (execute st.py home_out) now written s s' w w' a asked h in
      ap (λ (v : Home M). v.0) ran ∙ control_nothing w.0 blank
