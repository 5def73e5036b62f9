-- ===== src/Handshake.antt =====
-- shellagent/browser_identity.go: the challenge that a browser key answers, and the pairing of keys
-- that the agent does not know.
pub mod Pairing
pub mod Invariant
pub mod Contained
pub mod Effective
use dynapp_agent.Prelude.{
  ℕ, String, Bool, true, false, ◌||◌, ◌&&◌, List, [], ◌∷◌, ◌++◌, ◌==◌, if◌then◌else◌, not, Option,
  none, some, length, ltb,
}
use dynapp_agent.Types.{
  Host, Json, Fields, Config, Connect, BrowserIdentity, BrowserJwk, BrowserClient, ResolvedApp,
  SocketAuthentication, DirectLocalInit, DirectLocalProof, DirectLocalApp,
}
use dynapp_agent.Types.Numbers.{ℤ, pos, negsuc, ltb_ℤ, Time, unix_milli}
use dynapp_agent.Sets.{normalize_permission_set, union_strings, subtract_strings, intersect_strings}
use dynapp_agent.Origins.{
  is_authority_origin, catalog_app_id, parse_origin, origin_equivalent, store_slug,
}
use dynapp_agent.Apps.{
  resolve_app, resolve_manifest_app, normalize_permission_list, connect_from_init,
}
use dynapp_agent.Client.{apply_browser_client}
use dynapp_agent.Grants.{
  match_direct_local_identity, verify_browser_proof, is_valid_identity, find_approved_app_grant,
  merge_synced_identities,
}
use dynapp_agent.Permissions.{
  permissions_manage, Agent, PreApproval, PendingRequest, RequestKind, pairing, RequestTemplate,
  register_pending, consume_pre_approval, await_decision, unregister_pending, Wake, Result, ok, err,
}
use dynapp_agent.Permissions.Edit.{upsert_browser_identity, with_identities, notify}

-- directLocalOutcome, for the ends that carry no authentication.
pub data Refusal : Type 0 where
  probe aborted rejected declined : Refusal

-- A pairing that waits for the authority: the identity so far, the app, and the request as it was
-- registered.
pub record Waiting : Type 0 where
  pub identity : BrowserIdentity
  pub app : ResolvedApp
  pub request : PendingRequest

-- How a handshake goes on.
pub data Outcome : Type 0 where
  accepted : SocketAuthentication → Outcome
  refused : Refusal → Outcome
  waits : Waiting → Outcome

-- authForIdentity, without and with an app.
unfoldable pub auth_for_identity : BrowserIdentity → Option ResolvedApp → SocketAuthentication
auth_for_identity identity none = record {
  capabilities = normalize_permission_set identity.capabilities;
  stored = identity.capabilities;
  declared = identity.capabilities;
  connect = identity.connect;
  key_id = identity.key_id;
  origin = identity.origin;
  store_id = identity.store_id;
  app_name = store_slug identity.store_id;
  development = false;
  ok = true;
}
auth_for_identity identity (some app) = record {
  capabilities = normalize_permission_set (intersect_strings identity.capabilities app.declared);
  stored = identity.capabilities;
  declared = app.declared;
  connect = app.connect;
  key_id = identity.key_id;
  origin = identity.origin;
  store_id = if identity.store_id == "" then app.store_id else identity.store_id;
  app_name = app.name;
  development = app.development;
  ok = true;
}

-- The identity that a decision for an app writes.
unfoldable pub granted_identity :
    Time → List String → List String → ResolvedApp → BrowserIdentity → BrowserIdentity
granted_identity now granted declared app identity = record identity {
  capabilities = normalize_permission_set (intersect_strings granted app.declared);
  declared = normalize_permission_set declared;
  connect = app.connect;
  approved_at = unix_milli now;
}

-- The closure `persist`: an identity that changed is saved.
pub persist : Bool → BrowserIdentity → Agent → Agent
persist changed identity agent =
    if changed then notify (upsert_browser_identity identity agent) else agent

has_any : List String → Bool
has_any values = ltb 0 (length values)

module _ (host : Host) (fetch : Config → String → Option Fields) where
  -- The authority's catalog manifest declares more than the authority holds.
  raised_authority : Option ResolvedApp → BrowserIdentity → Bool → BrowserIdentity × Bool
  unfolding has_any
  raised_authority none identity changed = (identity, changed)
  raised_authority (some resolved) identity changed =
      let declared = union_strings resolved.declared (permissions_manage ∷ []) in
      if has_any (subtract_strings declared identity.capabilities)
      then (
        record identity {
          capabilities = union_strings identity.capabilities declared;
          declared = union_strings identity.declared declared;
          connect = resolved.connect;
        },
        true,
      )
      else (identity, changed)

  continue_authority : Config → BrowserIdentity → Bool → Agent → SocketAuthentication × Agent
  unfolding raised_authority
  continue_authority config identity changed agent =
      let manifest = resolve_manifest_app host fetch config (catalog_app_id host config) in
      let (raised, changed') = raised_authority manifest identity changed in
      (auth_for_identity raised none, persist changed' raised agent)

  -- The branches of continuePairedIdentity for an app that was resolved, whose Connect is never nil.
  continue_with_app :
      ResolvedApp
      → BrowserIdentity
      → Bool
      → Option PreApproval
      → Time
      → Agent
      → SocketAuthentication × Agent
  unfolding granted_identity has_any
  continue_with_app app identity changed (some approval) now agent =
      let granted = granted_identity now approval.capabilities app.declared app identity in
      let named = record granted {
        store_id = if identity.store_id == "" then app.store_id else identity.store_id;
      } in
      (auth_for_identity named (some app), persist true named agent)
  continue_with_app app identity changed none now agent =
      let expanded = normalize_permission_set (union_strings identity.declared app.declared) in
      let raised = record identity { declared = expanded; connect = app.connect } in
      if has_any (subtract_strings expanded identity.declared)
      then (auth_for_identity raised (some app), persist true raised agent)
      else (auth_for_identity identity (some app), persist changed identity agent)

  continue_app :
      DirectLocalInit
      → String
      → BrowserIdentity
      → Bool
      → Time
      → Agent
      → SocketAuthentication × Agent
  unfolding continue_with_app
  continue_app init request_origin identity changed now agent =
      let without : SocketAuthentication × Agent =
        (auth_for_identity identity none, persist changed identity agent) in
      if not (ltb_ℤ (pos 1) init.version)
      then without
      else elim (resolve_app host fetch agent.config request_origin init) [
        | none ↦ without
        | some app ↦
            let (approval, agent') = consume_pre_approval now app.store_id agent in
            continue_with_app app identity changed approval now agent'
      ]

  unfoldable pub continue_paired_identity :
      Config
      → BrowserIdentity
      → DirectLocalInit
      → String
      → Time
      → Agent
      → SocketAuthentication × Agent
  unfolding continue_authority continue_app
  continue_paired_identity config found init request_origin now agent =
      let (identity, changed) = apply_browser_client host found init.client in
      if identity.authority
      then continue_authority config identity changed agent
      else continue_app init request_origin identity changed now agent
