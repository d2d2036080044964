-- ===== src/Tests/Approvals.antt =====
-- Requests of the agent, of the MCP gateway and of the control panel that are held, and then approved.
use domesticoracle.Prelude.{
  ℕ, suc, text_eq, nat_eq, pair_eq, String, ◌≡◌, refl, true, Option, none, some, List, [], ◌∷◌,
  ◌||◌, ◌==◌, eq_iff, arith, if◌then◌else◌,
}
use domesticoracle.Prelude.Int.{pos}
use domesticoracle.Prelude.Table.{lookup, insert}
use domesticoracle.Python.{str, num_of, get}
use domesticoracle.Consent.{
  Store, returned, held, Answer, Reply, answer, failed, request_action, record_entry, resolve,
}
use domesticoracle.HomeAssistant.{reset}
use domesticoracle.Agent.{
  Outside, execute, Tool, make_purchase, action_of, args_of, work_of, call_of,
}
use domesticoracle.Agent.Home.{Home, Mail, outside_of}
use domesticoracle.Agent.Mirror.{executor_runs_the_tool, held_tool_then_approved}
use domesticoracle.Mcp
use domesticoracle.Limits.{check_and_record}
use domesticoracle.Risk.{score}
use domesticoracle.Policy.{get_mode}
use domesticoracle.Provenance.{is_suspicious, scan_sources}
use domesticoracle.Mcp.{Scope}
use domesticoracle.Mcp.Access.{in_query, in_headers, app_needs_token}
use domesticoracle.Mcp.Approved.{approved_mcp_control_lost}
use domesticoracle.Routes.{control_call, control_work, extra_of}
use domesticoracle.Routes.Panel.{approved_control_without_extra}
use domesticoracle.Tests.Host.{host}
use domesticoracle.Tests.Gate.{setup, home, lamp_off}

-- Everything that may be done on the day has been done.
abbrev busy : Store
busy = record home { counts = record { hourly = []; daily = (0, 3) ∷ [] } }

abbrev pub split_dot : String → Option (String × String)
split_dot s = some ("light", s)

abbrev mail : Mail ℕ
mail = record {
  send = λ to subject body n. (returned "sent", suc n);
  reply = λ email_id body n. (returned "sent", suc n);
  preview = λ email_id n. (returned "", n);
  mail_error = λ e. none;
}

abbrev pub out : Outside (Home ℕ)
out = outside_of host split_dot mail

abbrev pub at_home : Home ℕ
at_home = (reset, 0)

abbrev answer_in : Reply → Answer
answer_in (answer a) = a
answer_in (failed e) = record {
  status = held;
  reason = e;
  result = none;
  approval_id = none;
  ledger_id = 0;
}

abbrev pub tea : Tool
tea = make_purchase "tea" (num_of 5) "shop"

executor_runs_the_tool_example :
    execute setup.py out (action_of tea) (args_of tea) at_home ≡ work_of setup out tea at_home
executor_runs_the_tool_example = executor_runs_the_tool setup out tea at_home

abbrev asked : Reply × (Store × Home ℕ)
asked =
    request_action setup (call_of setup out lamp_off tea []) (work_of setup out tea) busy at_home

asked_answered : asked ≡ (answer (answer_in asked.0), asked.1)
unfolding request_action call_of lookup check_and_record score action_of get_mode insert
    record_entry get args_of
asked_answered = refl

asked_held : (answer_in asked.0).status ≡ held
unfolding request_action call_of lookup check_and_record score action_of get_mode insert
    record_entry get args_of
asked_held = refl

held_tool_then_approved_example :
    (asked.1.1 ≡ at_home)
    × ((resolve setup 5 6 (some (execute host out)) "apr_1" "approve" asked.1.0 asked.1.1).1.1
        ≡ (work_of setup out tea at_home).1)
held_tool_then_approved_example =
    held_tool_then_approved setup out lamp_off tea [] 5 6 busy asked.1.0 at_home asked.1.1
      (answer_in asked.0) asked_answered asked_held

abbrev gated : Reply × (Store × Home ℕ)
gated =
    request_action setup (Mcp.call_of setup out lamp_off (Mcp.control_device "light.bedroom" "on"))
      (Mcp.work_of setup out (Mcp.control_device "light.bedroom" "on")) busy at_home

gated_answered : gated ≡ (answer (answer_in gated.0), gated.1)
unfolding request_action Mcp.call_of lookup check_and_record score get_mode insert record_entry
    is_suspicious scan_sources
gated_answered = refl

gated_held : (answer_in gated.0).status ≡ held
unfolding request_action Mcp.call_of lookup check_and_record score get_mode insert record_entry
    is_suspicious scan_sources
gated_held = refl

approved_mcp_control_lost_example :
    (resolve setup 5 6 (some (execute host out)) "apr_1" "approve" gated.1.0 gated.1.1).1.1.0
    ≡ reset
approved_mcp_control_lost_example =
    approved_mcp_control_lost setup split_dot mail lamp_off "light.bedroom" "on" 5 6 busy gated.1.0
      at_home gated.1.1 (answer_in gated.0) refl gated_answered gated_held

abbrev dimmed : Reply × (Store × Home ℕ)
dimmed =
    request_action setup
      (control_call setup out lamp_off "light.bedroom" "on" (extra_of (some (pos 10)) none))
      (control_work setup out "light.bedroom" "on" (extra_of (some (pos 10)) none)) busy at_home

dimmed_answered : dimmed ≡ (answer (answer_in dimmed.0), dimmed.1)
unfolding request_action control_call lookup check_and_record score get_mode insert record_entry
dimmed_answered = refl

dimmed_held : (answer_in dimmed.0).status ≡ held
unfolding request_action control_call lookup check_and_record score get_mode insert record_entry
dimmed_held = refl

approved_control_without_extra_example :
    (resolve setup 5 6 (some (execute host out)) "apr_1" "approve" dimmed.1.0 dimmed.1.1).1.1
    ≡ (out.control (str "light.bedroom") (str "on") none at_home).1
approved_control_without_extra_example =
    approved_control_without_extra setup out lamp_off "light.bedroom" "on" (some (pos 10)) none 5 6
      busy dimmed.1.0 at_home dimmed.1.1 (answer_in dimmed.0) dimmed_answered dimmed_held

abbrev visitor : Scope
visitor = record { type = "http"; query_string = "token=abc"; headers = [] }

abbrev one_part : String → List String
one_part s = s ∷ []

abbrev at_token : String → String × String
at_token s = if s == "token=abc" then ("token", "abc") else (s, "")

app_needs_token_example :
    (in_query host one_part at_token "abc" visitor
      || in_headers host one_part at_token "abc" visitor)
    ≡ true
app_needs_token_example =
    app_needs_token host one_part at_token "abc" visitor (λ e. ground (arith, eq_iff "abc" "")) refl
      (unfold Mcp.serve in refl)
