-- ===== src/Server/Gated.antt =====
-- backend/main.py: what the mounted MCP server and the health check leave as it is.
use domesticoracle.Prelude.{
  if◌then◌else◌, ℕ, String, ◌≡◌, refl, Bool, true, false, Option, none, some, List, arith,
}
use domesticoracle.Python.{Python, Json, Num, Dict}
use domesticoracle.Ledger.Spending.{sum_today}
use domesticoracle.Policy.{Policies, evaluate, cached_policies}
use domesticoracle.HomeAssistant.{Entity}
use domesticoracle.Agent.{Outside}
use domesticoracle.Consent.{Setup}
use domesticoracle.Consent.Untouched.{IsUntouched-by, IsUntouched-same, request-IsUntouched}
use domesticoracle.Routes.Owner.{Response, error}
use domesticoracle.Monitor.{Result}
use domesticoracle.Mcp
use domesticoracle.Mcp.{check_policy}
use domesticoracle.Routes.Status.{is_enabled}
use domesticoracle.Server.{
  McpUse, guarded, see_devices, see_ledger, try_policy, policy_tried, mcp_guarded, mcp_policy,
  mcp_use, mcp_passed, open_mcp, open_health, keyed, setup_with, Backend, Arrival, Body,
}
use domesticoracle.Server.Kept.{IsGoverned, same_key, load-KeepsKey, public-KeepsKey}

check_policy-same :
    (py : Python) (line : Json → String) (action : String) (args : Option Dict) (hour : ℕ)
    (spent : Num) (p : Policies)
    → ((check_policy py line action args hour spent p).1.rows ≡ p.rows)
      × ((check_policy py line action args hour spent p).1.mode ≡ p.mode)
unfolding check_policy evaluate cached_policies
check_policy-same py line action none hour spent p = (refl, refl)
check_policy-same py line action (some args) hour spent p = (ground arith, ground arith)

module _ {W : Type 0} (st : Setup) (out : Outside W) (list_home : W → List Entity × W) where
  tried-IsGoverned :
      (b : Backend) (w : W) (v : Option String × Policies)
      → v.1.rows ≡ b.store.policies.rows
      → v.1.mode ≡ b.store.policies.mode
      → IsGoverned b (policy_tried st out list_home b w v).1.0
  tried-IsGoverned b w (none, p) rows mode = record {
    store = IsUntouched-by b.store _ refl rows mode refl refl;
    key = same_key b.keys;
  }
  tried-IsGoverned b w (some text, p) rows mode = record {
    store = IsUntouched-by b.store _ refl rows mode refl refl;
    key = same_key b.keys;
  }

  use-IsGoverned :
      (a : Arrival) (use_of : McpUse) (b : Backend) (w : W)
      → IsGoverned b (mcp_use st out list_home a use_of (b, w)).1.0
  unfolding mcp_use mcp_guarded Mcp.run_tool mcp_policy
  use-IsGoverned a (guarded t) b w =
      let s1 = setup_with st out list_home (keyed st out list_home a b).0 in
      record {
        store =
            request-IsUntouched s1 (Mcp.call_of s1 out a.call t) (Mcp.work_of s1 out t) b.store w;
        key = load-KeepsKey a.fresh a.now b.keys;
      }
  use-IsGoverned a see_devices b w = record {
    store = IsUntouched-same b.store;
    key = same_key b.keys;
  }
  use-IsGoverned a (see_ledger limit) b w = record {
    store = IsUntouched-same b.store;
    key = same_key b.keys;
  }
  use-IsGoverned a (try_policy action args) b w =
      let spent = sum_today st.py st.reading "make_purchase" a.call.midnight b.store.ledger.rows in
      let (rows, mode) =
        check_policy-same st.py b.mcp.compact_line action args a.call.hour spent b.store.policies in
      tried-IsGoverned b w
        (check_policy st.py b.mcp.compact_line action args a.call.hour spent b.store.policies) rows
        mode

  passed-IsGoverned :
      (a : Arrival) (use_of : McpUse) (o : Mcp.Outcome) (b : Backend) (w : W)
      → IsGoverned b (mcp_passed st out list_home a use_of o (b, w)).1.0
  unfolding mcp_passed
  passed-IsGoverned a use_of Mcp.forwarded b w = use-IsGoverned a use_of b w
  passed-IsGoverned a use_of Mcp.forbidden b w = record {
    store = IsUntouched-same b.store;
    key = same_key b.keys;
  }
  passed-IsGoverned a use_of Mcp.dropped b w = record {
    store = IsUntouched-same b.store;
    key = same_key b.keys;
  }

  either-IsGoverned :
      (c : Bool) (b : Backend) (x y : Response Body × (Backend × W))
      → IsGoverned b x.1.0
      → IsGoverned b y.1.0
      → IsGoverned b (if c then x else y).1.0
  either-IsGoverned true b x y h k = h
  either-IsGoverned false b x y h k = k

  pub mcp-IsGoverned :
      (a : Arrival) (scope : Mcp.Scope) (use_of : McpUse) (b : Backend) (w : W)
      → IsGoverned b (open_mcp st out list_home a scope use_of (b, w)).1.0
  unfolding open_mcp
  mcp-IsGoverned a scope use_of b w =
      let answer = Mcp.serve st.py b.mcp.split_amp b.mcp.partition b.mcp.token scope in
      either-IsGoverned (is_enabled st.py b.mcp.enabled) b
        (mcp_passed st out list_home a use_of answer (b, w)) (error 404 "Not Found", (b, w))
        (passed-IsGoverned a use_of answer b w)
        (record { store = IsUntouched-same b.store; key = same_key b.keys })

  pub health-IsGoverned :
      (a : Arrival) (db anchor_dir : Option String) (last : Option Result) (b : Backend) (w : W)
      → IsGoverned b (open_health st out list_home a db anchor_dir last (b, w)).1.0
  unfolding open_health
  health-IsGoverned a db anchor_dir last b w = record {
    store = IsUntouched-same b.store;
    key = public-KeepsKey a.fresh a.now st.sg b.keys;
  }
