-- ===== src/Permissions/Edit.antt =====
-- The edits of saved grants in shellagent/permissions.go (updateGrant, revokeGrant) and of native
-- grants in shellagent/native_apps.go.
pub mod Kept
pub mod Native
use Prim.Native.String.{◌++◌ as ◌++ₛ◌}
use dynapp_agent.Prelude.{
  ℕ, String, Bool, false, ◌||◌, List, [], ◌∷◌, ◌==◌, if◌then◌else◌, not, starts_with, Option, none,
  some, length, ltb,
}
use dynapp_agent.Text.{trim_space, trim_prefix}
use dynapp_agent.Types.{
  Host, Fields, Config, BrowserIdentity, BrowserClient, BrowserJwk, NativeApp, lookup_field,
  string_value,
}
use dynapp_agent.Types.Numbers.{pos, is_zero, Time, unix_milli}
use dynapp_agent.Sets.{normalize_permission_set, union_strings, subtract_strings, intersect_strings}
use dynapp_agent.Origins.{valid_store_id}
use dynapp_agent.Apps.{resolve_manifest_app}
use dynapp_agent.Grants.{
  native_key_prefix, find_identity, upsert_identity, remove_identity, native_app, upsert_native_app,
  is_valid_native_app,
}
use dynapp_agent.Permissions.{
  permissions_manage, Agent, notified, selector_required, no_grant, capabilities_required, Result,
  ok, err, capability_arg, close_sockets_bound_to,
}

-- closePairingDeclined and websocket.StatusServiceRestart
abbrev pub pairing_declined : ℕ
pairing_declined = 4403

abbrev pub service_restart : ℕ
service_restart = 1012

-- grantSelector
pub record Selector : Type 0 where
  pub key_id : String
  pub origin : String
  pub store_id : String

pub grant_selector : Host → Fields → Result Selector
grant_selector host args =
    let key_id = trim_space (string_value host (lookup_field "keyId" args)) in
    let origin = trim_space (string_value host (lookup_field "origin" args)) in
    let store_id = trim_space (string_value host (lookup_field "storeId" args)) in
    if key_id == "" || origin == ""
    then err selector_required
    else ok (record { key_id = key_id; origin = origin; store_id = store_id })

unfoldable pub with_identities : List BrowserIdentity → Agent → Agent
with_identities identities agent = record agent {
  config = record (agent.config) { browser_identities = identities };
}

-- upsertBrowserIdentity
unfoldable pub upsert_browser_identity : BrowserIdentity → Agent → Agent
unfolding with_identities
upsert_browser_identity identity agent =
    with_identities (upsert_identity identity agent.config.browser_identities) agent

unfoldable pub notify : Agent → Agent
notify agent = record agent { effects = notified ∷ agent.effects }

-- The set that a caller asks for, cut to the ceiling where one is known; only the authority keeps
-- `permissions.manage`.
unfoldable pub clamp_request : List String → Bool → List String → List String
clamp_request ceiling authority requested =
    let cut = if ltb 0 (length ceiling) then intersect_strings requested ceiling else requested in
    normalize_permission_set (
      if authority
      then union_strings cut (permissions_manage ∷ [])
      else subtract_strings cut (permissions_manage ∷ []))

-- What the grant edits answer.
pub data Grant : Type 0 where
  browser : BrowserIdentity → Grant
  native : NativeApp → Grant
  revoked : Grant

module _ (host : Host) (fetch : Config → String → Option Fields) where
  -- declaredCeiling
  pub declared_ceiling : Config → String → List String → List String
  declared_ceiling config store_id stored =
      let ceiling = normalize_permission_set stored in
      if not (valid_store_id store_id)
      then ceiling
      else elim (resolve_manifest_app host fetch config store_id) [
        | none ↦ ceiling
        | some resolved ↦ normalize_permission_set (union_strings ceiling resolved.declared)
      ]

  -- The identity that updateGrant writes.
  unfoldable pub edited_identity :
      Time → List String → List String → BrowserIdentity → BrowserIdentity
  unfolding clamp_request
  edited_identity now ceiling requested identity =
      let capabilities = clamp_request ceiling identity.authority requested in
      record identity {
        capabilities = capabilities;
        declared = union_strings ceiling capabilities;
        approved_at = if is_zero identity.approved_at then unix_milli now else identity.approved_at;
      }

  pub edited_native_app : Time → List String → List String → NativeApp → NativeApp
  unfolding clamp_request
  edited_native_app now ceiling requested app =
      let capabilities = clamp_request ceiling app.authority requested in
      record app {
        capabilities = capabilities;
        declared = union_strings ceiling capabilities;
        approved_at = if is_zero app.approved_at then unix_milli now else app.approved_at;
      }

  -- upsertNativeApp: an app that does not validate is not written.
  pub save_native_app : NativeApp → Agent → Agent
  save_native_app app agent =
      let written = record agent {
        config = record (agent.config) {
          native_apps = upsert_native_app app agent.config.native_apps;
        };
      } in
      if is_valid_native_app host app then written else agent

  abbrev no_jwk : BrowserJwk
  no_jwk = record { kty = ""; crv = ""; x = ""; y = "" }

  abbrev no_client : BrowserClient
  no_client = record {
    browser = "";
    version = "";
    platform = "";
    mobile = false;
    mode = "";
    label = "";
  }

  -- The identity by which closeNativeSockets names the sockets of an app.
  native_identity : NativeApp → BrowserIdentity
  native_identity app = record {
    key_id = native_key_prefix ++ₛ app.store_id;
    public_key_jwk = no_jwk;
    origin = app.origin;
    capabilities = [];
    store_id = app.store_id;
    connect = [];
    approved_at = pos 0;
    declared = [];
    authority = false;
    client = no_client;
  }

  pub update_native_grant : Time → String → List String → Agent → Result NativeApp × Agent
  unfolding edited_native_app native_identity
  update_native_grant now store_id requested agent =
      elim (native_app store_id agent.config.native_apps) [
        | none ↦ (err no_grant, agent)
        | some app ↦
            let ceiling = declared_ceiling agent.config store_id app.declared in
            let edited = edited_native_app now ceiling requested app in
            (
              ok edited,
              notify (
                  close_sockets_bound_to (native_identity edited) service_restart
                    (save_native_app edited agent)),
            )
      ]

  pub revoke_native_grant : String → Agent → Result NativeApp × Agent
  unfolding native_identity
  revoke_native_grant store_id agent = elim (native_app store_id agent.config.native_apps) [
    | none ↦ (err no_grant, agent)
    | some app ↦
        let cleared : NativeApp = record app {
          capabilities = if app.authority then permissions_manage ∷ [] else [];
          declared = [];
          approved_at = pos 0;
        } in
        (
          ok cleared,
          notify (
              close_sockets_bound_to (native_identity cleared) pairing_declined
                (save_native_app cleared agent)),
        )
  ]

  -- The app that a native key names: the store id given, or the one in the key.
  native_store_id : Selector → String
  native_store_id selector =
      if selector.store_id == ""
      then trim_prefix selector.key_id native_key_prefix
      else selector.store_id

  native_answer : Result NativeApp × Agent → Result Grant × Agent
  native_answer (ok app, agent) = (ok (native app), agent)
  native_answer (err e, agent) = (err e, agent)

  revoked_answer : Result NativeApp × Agent → Result Grant × Agent
  revoked_answer (ok app, agent) = (ok revoked, agent)
  revoked_answer (err e, agent) = (err e, agent)

  -- updateGrant for a browser identity.
  unfoldable pub update_identity : Time → Selector → Fields → Agent → Result Grant × Agent
  update_identity now selector args agent =
      elim (find_identity selector.key_id selector.origin selector.store_id
        agent.config.browser_identities) [
          | none ↦ (err no_grant, agent)
          | some identity ↦ elim (capability_arg args) [
            | none ↦ (err capabilities_required, agent)
            | some requested ↦
                let ceiling = declared_ceiling agent.config selector.store_id identity.declared in
                let edited = edited_identity now ceiling requested identity in
                (
                  ok (browser edited),
                  notify (
                      close_sockets_bound_to edited service_restart
                        (upsert_browser_identity edited agent)),
                )
          ]
        ]

  update_selected : Time → Selector → Fields → Agent → Result Grant × Agent
  unfolding native_answer native_store_id
  update_selected now selector args agent =
      if starts_with selector.key_id native_key_prefix
      then elim (capability_arg args) [
        | none ↦ (err capabilities_required, agent)
        | some requested ↦
            native_answer (update_native_grant now (native_store_id selector) requested agent)
      ]
      else update_identity now selector args agent

  pub update_grant : Time → Fields → Agent → Result Grant × Agent
  unfolding update_selected
  update_grant now args agent = elim (grant_selector host args) [
    | err e ↦ (err e, agent)
    | ok selector ↦ update_selected now selector args agent
  ]

  -- revokeGrant for a browser identity.
  unfoldable pub revoke_identity : Selector → Agent → Result Grant × Agent
  revoke_identity selector agent =
      elim (find_identity selector.key_id selector.origin selector.store_id
        agent.config.browser_identities) [
          | none ↦ (err no_grant, agent)
          | some identity ↦
              let kept =
                remove_identity selector.key_id selector.origin selector.store_id
                  agent.config.browser_identities in
              (
                ok revoked,
                notify
                    (close_sockets_bound_to identity pairing_declined (with_identities kept agent)),
              )
        ]

  revoke_selected : Selector → Agent → Result Grant × Agent
  unfolding revoked_answer native_store_id
  revoke_selected selector agent =
      if starts_with selector.key_id native_key_prefix
      then revoked_answer (revoke_native_grant (native_store_id selector) agent)
      else revoke_identity selector agent

  pub revoke_grant : Fields → Agent → Result Grant × Agent
  unfolding revoke_selected
  revoke_grant args agent = elim (grant_selector host args) [
    | err e ↦ (err e, agent)
    | ok selector ↦ revoke_selected selector agent
  ]
