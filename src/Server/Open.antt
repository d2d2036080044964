-- ===== src/Server/Open.antt =====
-- backend/main.py: the routes that ask for no session. The server's key is loaded here before the
-- gate runs, where it was not; the program loads it at the first entry that it signs.
use domesticoracle.Prelude.{
  ℕ, String, Bool, true, ◌||◌, not, Option, none, some, List, [], ◌∷◌, ◌==◌, nat_eq,
}
use domesticoracle.Python.{Dict}
use domesticoracle.Crypto.{
  KeyStore, load_or_create_server_key, server_public_key_hex, all_public_keys,
}
use domesticoracle.Ledger.{integrity}
use domesticoracle.Ledger.Views.{list_entries}
use domesticoracle.Ledger.Summary.{summary}
use domesticoracle.Ledger.Spending.{sum_today}
use domesticoracle.Python.{fin}
use domesticoracle.Prelude.Int.{pos}
use domesticoracle.Policy.{Decision, evaluate, get_mode, list_policies}
use domesticoracle.HomeAssistant.{Entity}
use domesticoracle.Agent.{Outside, Tool, run_tool}
use domesticoracle.Consent.{Store, Setup, Call, Answer, list_agents}
use domesticoracle.Consent.Signed.{Signed}
use domesticoracle.Routes.Chats.{get_history, begin_chat, end_chat}
use domesticoracle.Routes.Owner.{Response, ok, error, login, logout, agent_act, export_ledger}
use domesticoracle.Routes.{get_devices}
use domesticoracle.Monitor.{Result}
use domesticoracle.Mcp.{Scope}
use domesticoracle.Server.Gateway.{McpUse, open_mcp, open_health}
use domesticoracle.Server.State.{
  Backend, Arrival, Body, done, words, entries, checked, summed, exported, rules, verdict, agents,
  acted, devices, messages,
}

-- What the model that answers a chat message does: it uses guarded tools, sends texts, and ends, with
-- an exception if one came.
pub record Turn : Type 0 where
  pub tools : List (Call × Tool)
  pub texts : List String
  pub failure : Option String

pub data OpenRoute : Type 0 where
  log_in : String → OpenRoute
  log_out : OpenRoute
  get_ledger : ℕ → OpenRoute
  verify_ledger : Bool → OpenRoute
  ledger_summary : ℕ → OpenRoute
  export : OpenRoute
  get_policies get_policy_mode : OpenRoute
  policy_dryrun : String → Dict → OpenRoute
  get_agents : OpenRoute
  act : Signed → OpenRoute
  list_devices : OpenRoute
  history : String → OpenRoute
  chat : String → String → Turn → OpenRoute
  mcp : Scope → McpUse → OpenRoute
  check_health : (db anchor_dir : Option String) → Option Result → OpenRoute

module _ {W : Type 0} (st : Setup) (out : Outside W) (list_home : W → List Entity × W) where
  abbrev pub Step : Type 0
  Step = Backend × W → Response Body × (Backend × W)

  -- The key that signs, loaded where it was not.
  abbrev pub keyed : Arrival → Backend → String × KeyStore
  keyed a b = load_or_create_server_key a.fresh a.now b.keys

  abbrev pub setup_with : String → Setup
  setup_with key = record st { key = key }

  abbrev pub logged_in : Backend → W → Response String → Response Body × (Backend × W)
  logged_in b w (ok token) = (ok (words token), (b, w))
  logged_in b w (error code why) = (error code why, (b, w))

  unfoldable pub open_login : Arrival → String → Step
  unfolding login
  open_login a passphrase (b, w) =
      let (answer, (o, t)) = login st.py a.drawn a.token a.now passphrase b.owner b.sessions in
      logged_in (record b { owner = o; sessions = t }) w answer

  unfoldable pub open_verify : Arrival → Bool → Step
  unfolding server_public_key_hex all_public_keys integrity
  open_verify a full (b, w) =
      let (own, k1) = server_public_key_hex st.sg a.fresh a.now b.keys in
      let (pubs, k2) = all_public_keys st.sg a.fresh a.now k1 in
      let (result, l) = integrity st.py st.sg own pubs full b.store.ledger in
      (ok (checked result), (record b { keys = k2; store = record (b.store) { ledger = l } }, w))

  unfoldable pub open_export : Arrival → Step
  unfolding export_ledger
  open_export a (b, w) =
      let (e, k) = export_ledger st.py st.sg a.fresh a.now a.written b.keys b.store.ledger in
      (ok (exported e), (record b { keys = k }, w))

  abbrev pub told : Backend → W → Option (Decision × String) → Response Body × (Backend × W)
  told b w none = (error 500 "could not evaluate the policies", (b, w))
  told b w (some (decision, reason)) = (ok (verdict decision reason), (b, w))

  unfoldable pub open_dryrun : Arrival → String → Dict → Step
  unfolding evaluate sum_today
  open_dryrun a action args (b, w) =
      let (answer, p) =
        evaluate st.py
          (record {
            action = action;
            args = args;
            now_hour = a.call.hour;
            spent_today =
                sum_today st.py st.reading "make_purchase" a.call.midnight b.store.ledger.rows;
          })
          b.store.policies in
      told (record b { store = record (b.store) { policies = p } }) w answer

  abbrev was_accepted : Response Answer → Bool
  was_accepted (ok a) = true
  was_accepted (error code why) = not (code == 401)

  abbrev acted_as : Response Answer → Response Body
  acted_as (ok a) = ok (acted a)
  acted_as (error code why) = error code why

  -- A request that passes the check starts the agent's client, which registers the executor.
  unfoldable pub open_act : Arrival → Signed → Step
  unfolding agent_act
  open_act a r (b, w) =
      let (key, k) = keyed a b in
      let (answer, (s, w')) =
        agent_act (setup_with key) out a.now a.consumed_at a.call r b.store w in
      (
        acted_as answer,
        (record b { keys = k; store = s; is_running = was_accepted answer || b.is_running }, w'),
      )

  unfoldable pub use_tools : String → List (Call × Tool) → Store × W → Store × W
  unfolding run_tool
  use_tools key [] after = after
  use_tools key ((c, t) ∷ rest) (s, w) =
      use_tools key rest (run_tool (setup_with key) out c t s w).1

  -- The message is answered by the model; an empty one is a 400.
  unfoldable pub answer_chat : Arrival → String → Turn → Option String → Step
  unfolding end_chat use_tools
  answer_chat a user_id turn none s = (error 400 "empty message", s)
  answer_chat a user_id turn (some message) (b, w) =
      let (key, k) = keyed a b in
      let (s, w') = use_tools key turn.tools (b.store, w) in
      (
        ok (done true),
        (
          record b {
            keys = k;
            store = s;
            chats = end_chat st.py user_id turn.texts turn.failure b.chats;
            is_running = true;
          },
          w',
        ),
      )

  unfoldable pub open_chat : Arrival → String → String → Turn → Step
  unfolding begin_chat answer_chat
  open_chat a user_id message turn (b, w) =
      let (text, h) = begin_chat st.py user_id message b.chats in
      answer_chat a user_id turn text (record b { chats = h }, w)

  unfoldable pub serve_open : Arrival → OpenRoute → Step
  unfolding open_login open_verify open_export open_dryrun open_act open_chat logout summary
      open_mcp open_health get_mode get_history get_devices
  serve_open a (log_in passphrase) s = open_login a passphrase s
  serve_open a log_out (b, w) =
      (ok (done true), (record b { sessions = logout a.session b.sessions }, w))
  serve_open a (get_ledger limit) (b, w) =
      (ok (entries (list_entries limit b.store.ledger)), (b, w))
  serve_open a (verify_ledger full) s = open_verify a full s
  serve_open a (ledger_summary days) (b, w) =
      (ok (summed (summary days (fin (pos a.now)) b.store.ledger)), (b, w))
  serve_open a export s = open_export a s
  serve_open a get_policies (b, w) = (ok (rules (list_policies b.store.policies)), (b, w))
  serve_open a get_policy_mode (b, w) = (ok (words (get_mode b.store.policies)), (b, w))
  serve_open a (policy_dryrun action args) s = open_dryrun a action args s
  serve_open a get_agents (b, w) = (ok (agents (list_agents b.store)), (b, w))
  serve_open a (act r) s = open_act a r s
  serve_open a list_devices (b, w) =
      let (found, w') = list_home w in (ok (devices (get_devices b.live.cache found)), (b, w'))
  serve_open a (history user) (b, w) =
      let (found, h) = get_history user b.chats in
      (ok (messages found), (record b { chats = h }, w))
  serve_open a (chat user_id message turn) s = open_chat a user_id message turn s
  serve_open a (mcp scope use_of) s = open_mcp st out list_home a scope use_of s
  serve_open a (check_health db anchor_dir last) s =
      open_health st out list_home a db anchor_dir last s
