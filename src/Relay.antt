-- ===== src/Relay.antt =====
-- shellagent/relay.go: what a relay socket may do, and the sessions that share one relay socket.
pub mod Grant
use dynapp_agent.Prelude.{
  ℕ, zero, suc, ◌+◌, String, Bool, true, false, ◌||◌, ◌&&◌, List, [], ◌∷◌, ◌==◌, not, if◌then◌else◌,
  Option, none, some, nat_eq,
}
use dynapp_agent.Text.{trim_space}
use dynapp_agent.Types.{BrowserIdentity, Connect, ResolvedApp, SocketAuthentication}
use dynapp_agent.Sets.{normalize_permission_set, union_strings, intersect_strings}
use dynapp_agent.Origins.{valid_store_id, store_slug}

-- The fields of a hello that relayGrantFor reads; `app` is the store id of its app block.
pub record Hello : Type 0 where
  pub key_id : String
  pub app : Option String

-- The identity is one that the hello's key and app name.
unfoldable pub is_named : String → Option String → BrowserIdentity → Bool
is_named key_id none identity = identity.key_id == key_id && not identity.authority
is_named key_id (some store_id) identity =
    identity.key_id == key_id
    && not identity.authority
    && (identity.store_id == "" || identity.store_id == trim_space store_id)

-- connect[scheme] = unionStrings(connect[scheme], patterns)
unfoldable pub add_patterns : String → List String → Connect → Connect
add_patterns scheme patterns [] = (scheme, union_strings [] patterns) ∷ []
add_patterns scheme patterns ((key, old) ∷ connect) =
    let rest = (key, old) ∷ add_patterns scheme patterns connect in
    if key == scheme then (key, union_strings old patterns) ∷ connect else rest

unfoldable pub merge_connect : Connect → Connect → Connect
unfolding add_patterns
merge_connect connect [] = connect
merge_connect connect ((scheme, patterns) ∷ rest) =
    merge_connect (add_patterns scheme patterns connect) rest

-- What the loop over the identities that the hello names has gathered.
pub record Matched : Type 0 where
  pub base : List String
  pub found : Bool
  pub origin : String
  pub capabilities : List String
  pub connect : Connect

unfoldable pub take_identity : BrowserIdentity → Matched → Matched
unfolding merge_connect
take_identity identity m = record {
  base = union_strings m.base identity.capabilities;
  found = true;
  origin = if m.origin == "" then identity.origin else m.origin;
  capabilities = if m.origin == "" then identity.capabilities else m.capabilities;
  connect = merge_connect m.connect identity.connect;
}

unfoldable pub match_loop : String → Option String → List BrowserIdentity → Matched → Matched
unfolding is_named take_identity
match_loop key_id app [] m = m
match_loop key_id app (identity ∷ identities) m =
    let next = match_loop key_id app identities (take_identity identity m) in
    let same = match_loop key_id app identities m in
    if is_named key_id app identity then next else same

-- A Go slice that may be nil.
abbrev pub Slice : Type 0
Slice = Option (List String)

unfoldable pub values : Slice → List String
values none = []
values (some l) = l

-- The result of intersectStrings, which is nil when nothing is common.
unfoldable pub non_nil : List String → Slice
non_nil [] = none
non_nil (x ∷ l) = some (x ∷ l)

-- The new value of `base` in the loop over all identities.
unfoldable pub narrow : ℕ → Slice → List String → Slice
unfolding non_nil
narrow zero base capabilities = some (normalize_permission_set capabilities)
narrow (suc index) none capabilities = some (normalize_permission_set capabilities)
narrow (suc index) (some l) capabilities = non_nil (intersect_strings l capabilities)

-- The loop for a hello that names no identity.
unfoldable pub common_loop : ℕ → Slice → List BrowserIdentity → Slice
unfolding narrow
common_loop index base [] = base
common_loop index base (identity ∷ identities) =
    let skip = common_loop (index + 1) base identities in
    let next = common_loop (index + 1) (narrow index base identity.capabilities) identities in
    if identity.authority then skip else next

abbrev pub no_match : Matched
no_match = record { base = []; found = false; origin = ""; capabilities = []; connect = [] }

-- The authentication before the app block of the hello is read.
unfoldable pub identity_grant : List BrowserIdentity → Hello → SocketAuthentication
unfolding match_loop common_loop values
identity_grant identities hello =
    let key_id = trim_space hello.key_id in
    let m = if key_id == "" then no_match else match_loop key_id hello.app identities no_match in
    let base = if m.found then m.base else values (common_loop 0 none identities) in
    record {
      capabilities = normalize_permission_set base;
      stored = normalize_permission_set m.capabilities;
      declared = normalize_permission_set base;
      connect = if m.found then m.connect else [];
      key_id = if m.found then key_id else "";
      origin = m.origin;
      store_id = "";
      app_name = "";
      development = false;
      ok = true;
    }

-- The app block: the manifest, where it resolves, bounds the capabilities.
unfoldable pub narrow_to_app :
    (String → Option ResolvedApp) → String → SocketAuthentication → SocketAuthentication
narrow_to_app resolve store_id auth =
    if valid_store_id store_id
    then elim (resolve store_id) [
      | none ↦ record auth { store_id = store_id; app_name = store_slug store_id }
      | some app ↦ record auth {
        store_id = store_id;
        capabilities = normalize_permission_set (intersect_strings auth.capabilities app.declared);
        declared = app.declared;
        connect = app.connect;
        app_name = app.name;
      }
    ]
    else auth

-- relayGrantFor
unfoldable pub relay_grant_for :
    List BrowserIdentity → Hello → (String → Option ResolvedApp) → SocketAuthentication
unfolding identity_grant narrow_to_app
relay_grant_for identities hello resolve =
    let auth = identity_grant identities hello in
    elim hello.app [
      | none ↦ auth
      | some store_id ↦ narrow_to_app resolve (trim_space store_id) auth
    ]
