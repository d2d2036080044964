-- ===== src/Server/Governed.antt =====
-- backend/main.py: what the routes that ask for no session leave as it is.
use domesticoracle.Prelude.{
  String, ◌≡◌, refl, Bool, true, false, Option, none, some, List, [], ◌∷◌, arith,
}
use domesticoracle.Python.{Dict}
use domesticoracle.Auth
use domesticoracle.Auth.{require_owner}
use domesticoracle.Sessions.{Sessions}
use domesticoracle.Crypto.{server_public_key_hex}
use domesticoracle.Ledger.{integrity, verify_chain}
use domesticoracle.Policy.{Policies, evaluate, cached_policies, Decision}
use domesticoracle.HomeAssistant.{Entity}
use domesticoracle.Agent.{Outside, Tool, run_tool, execute, call_of, work_of, sources_of}
use domesticoracle.Consent.{Store, Setup, Call, request_action}
use domesticoracle.Consent.Signed.{Signed}
use domesticoracle.Consent.Untouched.{
  IsUntouched, IsUntouched-by, IsUntouched-same, IsUntouched-then, request-IsUntouched,
  verify-IsUntouched,
}
use domesticoracle.Routes.Chats.{begin_chat}
use domesticoracle.Routes.Owner.{
  Response, ok, error, login, export_ledger, agent_act, act_checked, act_admitted, act_call,
}
use domesticoracle.Server.{
  mcp, check_health, log_in, verify_ledger, export, policy_dryrun, act, chat, keyed, answer_chat,
  logged_in, told, setup_with, Backend, Arrival, Turn, OpenRoute, open_login, open_verify,
  open_export, open_dryrun, open_act, open_chat, use_tools, serve_open,
}
use domesticoracle.Server.Kept.{
  IsGoverned, same_key, load-KeepsKey, public-KeepsKey, all-KeepsKey, info-KeepsKey,
}
use domesticoracle.Server.Gated.{mcp-IsGoverned, health-IsGoverned}

module _ {W : Type 0} (st : Setup) (out : Outside W) (list_home : W → List Entity × W) where
  logged_in-IsGoverned :
      (b : Backend) (o : Auth.Owner) (t : Sessions) (w : W) (r : Response String)
      → IsGoverned b (logged_in st out list_home (record b { owner = o; sessions = t }) w r).1.0
  logged_in-IsGoverned b o t w (ok token) = record {
    store = IsUntouched-same b.store;
    key = same_key b.keys;
  }
  logged_in-IsGoverned b o t w (error code why) = record {
    store = IsUntouched-same b.store;
    key = same_key b.keys;
  }

  login-IsGoverned :
      (a : Arrival) (passphrase : String) (b : Backend) (w : W)
      → IsGoverned b (open_login st out list_home a passphrase (b, w)).1.0
  unfolding open_login
  login-IsGoverned a passphrase b w =
      let r = login st.py a.drawn a.token a.now passphrase b.owner b.sessions in
      logged_in-IsGoverned b r.1.0 r.1.1 w r.0

  verify-IsGoverned :
      (a : Arrival) (full : Bool) (b : Backend) (w : W)
      → IsGoverned b (open_verify st out list_home a full (b, w)).1.0
  unfolding open_verify integrity verify_chain
  verify-IsGoverned a full b w = record {
    store = IsUntouched-by b.store _ refl refl refl refl (ground arith);
    key = λ key e.
        all-KeepsKey a.fresh a.now st.sg (server_public_key_hex st.sg a.fresh a.now b.keys).1 key
          (public-KeepsKey a.fresh a.now st.sg b.keys key e);
  }

  export-IsGoverned :
      (a : Arrival) (b : Backend) (w : W) → IsGoverned b (open_export st out list_home a (b, w)).1.0
  unfolding open_export export_ledger
  export-IsGoverned a b w = record {
    store = IsUntouched-same b.store;
    key = info-KeepsKey a.fresh a.now st.sg b.keys;
  }

  told-IsGoverned :
      (b : Backend) (p : Policies) (w : W) (v : Option (Decision × String))
      → p.rows ≡ b.store.policies.rows
      → p.mode ≡ b.store.policies.mode
      → IsGoverned b
          (told st out list_home (record b { store = record (b.store) { policies = p } }) w v).1.0
  told-IsGoverned b p w none rows mode = record {
    store = IsUntouched-by b.store _ refl rows mode refl refl;
    key = same_key b.keys;
  }
  told-IsGoverned b p w (some verdict) rows mode = record {
    store = IsUntouched-by b.store _ refl rows mode refl refl;
    key = same_key b.keys;
  }

  dryrun-IsGoverned :
      (a : Arrival) (action : String) (args : Dict) (b : Backend) (w : W)
      → IsGoverned b (open_dryrun st out list_home a action args (b, w)).1.0
  unfolding open_dryrun evaluate cached_policies
  dryrun-IsGoverned a action args b w = told-IsGoverned b _ w _ (ground arith) (ground arith)

  tools-IsUntouched :
      (key : String) (tools : List (Call × Tool)) (s : Store) (w : W)
      → IsUntouched s (use_tools st out list_home key tools (s, w)).0
  unfolding use_tools run_tool
  tools-IsUntouched key [] s w = IsUntouched-same s
  tools-IsUntouched key ((c, t) ∷ rest) s w =
      let s1 = setup_with st out list_home key in
      let (sources, w1) = sources_of s1 out t w in
      let after = (request_action s1 (call_of s1 out c t sources) (work_of s1 out t) s w1).1 in
      IsUntouched-then s after.0 _
        (request-IsUntouched s1 (call_of s1 out c t sources) (work_of s1 out t) s w1)
        (tools-IsUntouched key rest after.0 after.1)

  admitted-IsUntouched :
      (key : String) (a : Arrival) (r : Signed) (s : Store) (w : W) (v : (Bool × String) × Store)
      → IsUntouched s v.1
      → IsUntouched s (act_checked (setup_with st out list_home key) out a.call r v w).1.0
  unfolding act_checked act_admitted
  admitted-IsUntouched key a r s w ((false, why), s') h = h
  admitted-IsUntouched key a r s w ((true, why), s') h =
      let s1 = setup_with st out list_home key in
      IsUntouched-then s s' _ h
        (request-IsUntouched s1 (act_call s1 out a.call r) (execute st.py out r.action r.args) s' w)

  act-IsGoverned :
      (a : Arrival) (r : Signed) (b : Backend) (w : W)
      → IsGoverned b (open_act st out list_home a r (b, w)).1.0
  unfolding open_act agent_act
  act-IsGoverned a r b w = record {
    store =
        admitted-IsUntouched _ a r b.store w _
          (verify-IsUntouched st.py st.sg a.now a.consumed_at r b.store);
    key = load-KeepsKey a.fresh a.now b.keys;
  }

  chat-IsGoverned :
      (a : Arrival) (user_id : String) (turn : Turn) (text : Option String) (b : Backend) (w : W)
      → IsGoverned b (answer_chat st out list_home a user_id turn text (b, w)).1.0
  unfolding answer_chat
  chat-IsGoverned a user_id turn none b w = record {
    store = IsUntouched-same b.store;
    key = same_key b.keys;
  }
  chat-IsGoverned a user_id turn (some text) b w = record {
    store = tools-IsUntouched (keyed st out list_home a b).0 turn.tools b.store w;
    key = load-KeepsKey a.fresh a.now b.keys;
  }

  -- What a route that asks for no session leaves as it is, whatever it is sent.
  pub open-IsGoverned :
      (a : Arrival) (r : OpenRoute) (b : Backend) (w : W)
      → IsGoverned b (serve_open st out list_home a r (b, w)).1.0
  unfolding serve_open open_chat
  open-IsGoverned a (log_in passphrase) b w = login-IsGoverned a passphrase b w
  open-IsGoverned a (verify_ledger full) b w = verify-IsGoverned a full b w
  open-IsGoverned a export b w = export-IsGoverned a b w
  open-IsGoverned a (policy_dryrun action args) b w = dryrun-IsGoverned a action args b w
  open-IsGoverned a (act r) b w = act-IsGoverned a r b w
  open-IsGoverned a (chat user_id message turn) b w =
      let (text, h) = begin_chat st.py user_id message b.chats in
      let g = chat-IsGoverned a user_id turn text (record b { chats = h }) w in
      record { store = g.store; key = g.key }
  open-IsGoverned a (mcp scope use_of) b w = mcp-IsGoverned st out list_home a scope use_of b w
  open-IsGoverned a (check_health db anchor_dir last) b w =
      health-IsGoverned st out list_home a db anchor_dir last b w
  open-IsGoverned a r b w = record { store = IsUntouched-same b.store; key = same_key b.keys }
