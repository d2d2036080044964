-- ===== src/Server/Owned.antt =====
-- backend/main.py: the owner's routes, behind `require_owner`.
use domesticoracle.Prelude.{ℕ, String, Bool, true, Option, none, some, List, if◌then◌else◌}
use domesticoracle.Prelude.Int.{ℤ}
use domesticoracle.Python.{Dict, Num}
use domesticoracle.Auth.{require_owner}
use domesticoracle.Crypto.Info.{keyset_info}
use domesticoracle.Limits.{get_status}
use domesticoracle.Policy.{Policies, set_mode, delete_policy}
use domesticoracle.Provenance.{patterns}
use domesticoracle.HomeAssistant.{Entity}
use domesticoracle.Agent.{Outside, execute}
use domesticoracle.Consent.{Store, Setup, Executor, list_pending, register_agent, set_agent_status}
use domesticoracle.Routes.Chats.{wipe_memory}
use domesticoracle.Routes.Owner.{
  Response, ok, error, Panel, keys_rotate, keys_backup, create_policy, control_device_endpoint,
  resolve_approval,
}
use domesticoracle.Routes.{subscribe}
use domesticoracle.Server.State.{
  Backend, Arrival, Body, done, words, counted, key_info, rotated, backed_up, pattern_list,
  saved_rule, panel, pending, resolved,
}
use domesticoracle.Server.Open.{OpenRoute, serve_open, keyed, setup_with}

pub data OwnerRoute : Type 0 where
  session_status limits_status keys_status backup_keys provenance_patterns approvals : OwnerRoute
  rotate_keys : (new_key : String) → OwnerRoute
  change_mode : String → OwnerRoute
  add_rule : String → Option Dict → Option String → OwnerRoute
  remove_rule : ℕ → OwnerRoute
  register : (actor_id name public_key : String) → OwnerRoute
  revoke_agent restore_agent : String → OwnerRoute
  device_events : ℕ → OwnerRoute
  control : String → String → Option ℤ → Option Num → OwnerRoute
  resolve_held : String → String → OwnerRoute
  forget : String → OwnerRoute

pub data Route : Type 0 where
  open_to_all : OpenRoute → Route
  owner_only : OwnerRoute → Route

module _ {W : Type 0} (st : Setup) (out : Outside W) (list_home : W → List Entity × W) where
  abbrev Step : Type 0
  Step = Backend × W → Response Body × (Backend × W)

  abbrev with_store : Backend → Store → Backend
  with_store b s = record b { store = s }

  abbrev with_policies : Backend → Policies → Backend
  with_policies b p = record b { store = record (b.store) { policies = p } }

  unfoldable pub owned_rotate : Arrival → String → Step
  unfolding keys_rotate
  owned_rotate a new_key (b, w) =
      let (r, (k, l)) =
        keys_rotate st.py st.sg a.fresh a.now a.written new_key b.keys b.store.ledger in
      (
        ok (rotated r.new_pub_hex r.retired_pub_hex r.rotation_count),
        (record b { keys = k; store = record (b.store) { ledger = l } }, w),
      )

  unfoldable pub owned_backup : Arrival → Step
  unfolding keys_backup
  owned_backup a (b, w) =
      let ((key, public), (k, l)) =
        keys_backup st.py st.sg a.fresh a.now a.written b.keys b.store.ledger in
      (
        ok (backed_up key public),
        (record b { keys = k; store = record (b.store) { ledger = l } }, w),
      )

  abbrev mode_as : Backend → W → String → Option Policies → Response Body × (Backend × W)
  mode_as b w mode none = (error 400 "Unknown mode", (b, w))
  mode_as b w mode (some p) = (ok (words mode), (with_policies b p, w))

  abbrev saved_as : Response ℕ → Response Body
  saved_as (ok id) = ok (saved_rule id)
  saved_as (error code why) = error code why

  abbrev registered_as : Backend → W → String → Option Store → Response Body × (Backend × W)
  registered_as b w actor_id none = (error 500 "UNIQUE constraint failed: agents.id", (b, w))
  registered_as b w actor_id (some s) = (ok (words actor_id), (with_store b s, w))

  abbrev panel_as : Response Panel → Response Body
  panel_as (ok p) = ok (panel p)
  panel_as (error code why) = error code why

  unfoldable pub owned_control : Arrival → String → String → Option ℤ → Option Num → Step
  unfolding control_device_endpoint
  owned_control a device action brightness temperature (b, w) =
      let (key, k) = keyed st out list_home a b in
      let (answer, (s, w')) =
        control_device_endpoint (setup_with st out list_home key) out a.call device action
          brightness temperature b.store w in
      (panel_as answer, (record b { keys = k; store = s }, w'))

  abbrev executor_of : Backend → Option (Executor W)
  executor_of b = if b.is_running then some (execute st.py out) else none

  unfoldable pub owned_resolve : Arrival → String → String → Step
  unfolding resolve_approval
  owned_resolve a approval_id decision (b, w) =
      let (key, k) = keyed st out list_home a b in
      let (answer, (s, w')) =
        resolve_approval (setup_with st out list_home key) a.now a.written (executor_of b)
          approval_id decision b.store w in
      (ok (resolved answer), (record b { keys = k; store = s }, w'))

  unfoldable pub serve_owner : Arrival → OwnerRoute → Step
  unfolding owned_rotate owned_backup owned_control owned_resolve get_status keyset_info set_mode
      delete_policy create_policy register_agent set_agent_status subscribe wipe_memory list_pending
  serve_owner a session_status s = (ok (done true), s)
  serve_owner a limits_status (b, w) =
      (ok (counted (get_status st.caps a.now b.store.counts)), (b, w))
  serve_owner a keys_status (b, w) =
      let (info, k) = keyset_info st.sg a.fresh a.now b.keys in
      (ok (key_info info), (record b { keys = k }, w))
  serve_owner a backup_keys s = owned_backup a s
  serve_owner a provenance_patterns s = (ok (pattern_list (patterns st.registry)), s)
  serve_owner a approvals (b, w) = (ok (pending (list_pending b.store)), (b, w))
  serve_owner a (rotate_keys new_key) s = owned_rotate a new_key s
  serve_owner a (change_mode mode) (b, w) = mode_as b w mode (set_mode mode b.store.policies)
  serve_owner a (add_rule rule_type params label) (b, w) =
      let (answer, p) = create_policy a.now rule_type params label b.store.policies in
      (saved_as answer, (with_policies b p, w))
  serve_owner a (remove_rule id) (b, w) =
      let (found, p) = delete_policy id b.store.policies in
      (ok (done found), (with_policies b p, w))
  serve_owner a (register actor_id name public_key) (b, w) =
      registered_as b w actor_id (register_agent actor_id name public_key a.now b.store)
  serve_owner a (revoke_agent actor_id) (b, w) =
      let (found, s) = set_agent_status actor_id "revoked" b.store in
      (ok (done found), (with_store b s, w))
  serve_owner a (restore_agent actor_id) (b, w) =
      let (found, s) = set_agent_status actor_id "active" b.store in
      (ok (done found), (with_store b s, w))
  serve_owner a (device_events id) (b, w) =
      (ok (done true), (record b { live = subscribe id b.live }, w))
  serve_owner a (control device action brightness temperature) s =
      owned_control a device action brightness temperature s
  serve_owner a (resolve_held approval_id decision) s = owned_resolve a approval_id decision s
  serve_owner a (forget user) (b, w) =
      (ok (done true), (record b { chats = wipe_memory user b.chats }, w))

  -- `Depends(require_owner)`: no route behind it is called without a session.
  unfoldable pub admit : Step → Option Bool → Step
  admit route none s = (error 401 "Owner session required.", s)
  admit route (some _) s = route s

  unfoldable pub serve : Arrival → Route → Step
  unfolding serve_open serve_owner admit require_owner
  serve a (open_to_all r) s = serve_open st out list_home a r s
  serve a (owner_only r) (b, w) =
      let (allowed, t) = require_owner a.session a.now b.sessions in
      admit (serve_owner a r) allowed (record b { sessions = t }, w)
