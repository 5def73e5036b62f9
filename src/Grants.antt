-- ===== src/Grants.antt =====
-- The saved grants: browser identities and native apps in the agent's configuration, from
-- shellagent/browser_identity.go, shellagent/native_apps.go and shellagent/config.go.
pub mod Lookup
pub mod Approved
use Prim.Native.String.{◌++◌, len}
use dynapp_agent.Prelude.{
  ℕ, String, Bool, true, false, ◌||◌, ◌&&◌, List, [], ◌∷◌, ◌++◌ as append, ◌==◌, if◌then◌else◌, ◌≡◌,
  refl, not, starts_with, Option, none, some, nat_eq, leb, ltb, any_of, keep_if, length,
}
use dynapp_agent.Text.{trim_prefix, trim_space, ends_with}
use dynapp_agent.Types.{
  Host, Config, BrowserIdentity, BrowserJwk, NativeApp, SocketAuthentication, DirectLocalInit,
  DirectLocalProof, DirectLocalApp,
}
use dynapp_agent.Types.Numbers.{ℤ, pos, negsuc, ltb_ℤ}
use dynapp_agent.Sets.{same_capability_set, string_slice_has}
use dynapp_agent.Origins.{
  valid_store_id, valid_identity_origin, origin_equivalent, same_identity_origin, parse_origin,
  loopback_hostname,
}

abbrev pub native_key_prefix : String
native_key_prefix = "native:"

-- The key under which an identity is stored: key id, origin and store id.
unfoldable pub has_key : String → String → String → BrowserIdentity → Bool
has_key key_id origin store_id identity =
    identity.key_id == key_id && (identity.origin == origin && identity.store_id == store_id)

-- The loop of findIdentity.
unfoldable pub find_identity :
    String → String → String → List BrowserIdentity → Option BrowserIdentity
find_identity key_id origin store_id [] = none
find_identity key_id origin store_id (identity ∷ identities) =
    if has_key key_id origin store_id identity
    then some identity
    else find_identity key_id origin store_id identities

-- The loop of upsertBrowserIdentity: every entry under the key is overwritten, and `replaced` says
-- whether there was one.
replace_identities : BrowserIdentity → List BrowserIdentity → List BrowserIdentity
replace_identities identity [] = []
replace_identities identity (existing ∷ identities) =
    (if has_key identity.key_id identity.origin identity.store_id existing
      then identity
      else existing)
    ∷ replace_identities identity identities

pub upsert_identity : BrowserIdentity → List BrowserIdentity → List BrowserIdentity
unfolding replace_identities
upsert_identity identity identities =
    let replaced = any_of (has_key identity.key_id identity.origin identity.store_id) identities in
    let written = replace_identities identity identities in
    if replaced then written else append written (identity ∷ [])

-- The loop of revokeGrant: the entries under other keys are kept.
unfoldable pub remove_identity :
    String → String → String → List BrowserIdentity → List BrowserIdentity
remove_identity key_id origin store_id identities =
    keep_if (λ existing. not (has_key key_id origin store_id existing)) identities

-- nativeApp
pub native_app : String → List NativeApp → Option NativeApp
native_app store_id [] = none
native_app store_id (app ∷ apps) =
    if app.store_id == store_id then some app else native_app store_id apps

unfoldable pub replace_native_apps : NativeApp → List NativeApp → List NativeApp
replace_native_apps app [] = []
replace_native_apps app (existing ∷ apps) =
    (if existing.store_id == app.store_id then app else existing) ∷ replace_native_apps app apps

-- The writes of upsertNativeApp, for an app that passed its Validate.
unfoldable pub upsert_native_app : NativeApp → List NativeApp → List NativeApp
unfolding replace_native_apps
upsert_native_app app apps =
    let replaced = any_of (λ (existing : NativeApp). existing.store_id == app.store_id) apps in
    let written = replace_native_apps app apps in
    if replaced then written else append written (app ∷ [])

-- hasNativeGrant
pub has_native_grant : Config → SocketAuthentication → Bool
has_native_grant config auth =
    elim (native_app (trim_prefix auth.key_id native_key_prefix) config.native_apps) [
      | none ↦ false
      | some app ↦ app.origin == auth.origin && same_capability_set app.capabilities auth.stored
    ]

-- The test of hasBrowserIdentity on one identity.
unfoldable pub holds_grant : SocketAuthentication → BrowserIdentity → Bool
holds_grant auth identity =
    identity.key_id == auth.key_id
    && (identity.origin == auth.origin
        && ((identity.store_id == "" || identity.store_id == auth.store_id)
            && same_capability_set identity.capabilities auth.stored))

unfoldable pub has_browser_identity : Config → SocketAuthentication → Bool
unfolding holds_grant has_native_grant
has_browser_identity config auth =
    if starts_with auth.key_id native_key_prefix
    then has_native_grant config auth
    else any_of (holds_grant auth) config.browser_identities

-- The classes of findApprovedAppGrant: 2 for a grant of this app, 1 for an old grant that names no
-- app, 0 for neither.
pub grant_priority : String → BrowserIdentity → ℕ
grant_priority store_id identity =
    if identity.store_id == store_id && ltb_ℤ (pos 0) identity.approved_at
    then 2
    else if identity.store_id == "" && ltb 0 (length identity.capabilities)
    then 1
    else 0

-- `best` and `bestPriority`; `none` while nothing is found.
abbrev pub Best : Type 0
Best = Option (BrowserIdentity × ℕ)

-- The grant at hand takes the place of the best one.
pub is_better : BrowserIdentity → ℕ → Best → Bool
is_better identity priority none = true
is_better identity priority (some (best, best_priority)) =
    ltb best_priority priority
    || (nat_eq priority best_priority && ltb_ℤ best.approved_at identity.approved_at)

-- What is sent back: an error in Go is `none`.
pub verify_browser_proof : Host → BrowserIdentity → String → String → String → Bool
verify_browser_proof host identity nonce signed_origin signature =
    if not (identity.origin == signed_origin)
      && not (origin_equivalent host identity.origin signed_origin)
    then false
    else host.verify_signature identity.public_key_jwk nonce signed_origin identity.key_id signature

-- BrowserIdentity.Validate
unfoldable pub is_valid_identity : Host → BrowserIdentity → Bool
is_valid_identity host identity =
    let key = identity.public_key_jwk in
    if not (key.kty == "EC")
      || not (key.crv == "P-256")
      || not (nat_eq (len key.x) 43)
      || not (nat_eq (len key.y) 43)
      || not (nat_eq (len identity.key_id) 43)
      || not (valid_identity_origin host identity.origin)
    then false
    else if not (identity.store_id == "") && not (valid_store_id identity.store_id)
    then false
    else host.key_digest key == identity.key_id

-- NativeApp.Validate
pub is_valid_native_app : Host → NativeApp → Bool
is_valid_native_app host app =
    if not (valid_store_id app.store_id) then false else elim (parse_origin host app.origin) [
      | none ↦ false
      | some parsed ↦
          if not (parsed.scheme == "https")
            && not (parsed.scheme == "http" && loopback_hostname host parsed.hostname)
          then false
          else not (trim_space app.path == "")
    ]

module _ (host : Host) where
  -- The loop of findApprovedAppGrant.
  best_grant : String → String → Best → List BrowserIdentity → Best
  unfolding grant_priority is_better
  best_grant origin store_id best [] = best
  best_grant origin store_id best (identity ∷ identities) =
      let priority = grant_priority store_id identity in
      best_grant origin store_id
        (if identity.authority || not (same_identity_origin host identity.origin origin)
          then best
          else if nat_eq priority 0
          then best
          else if is_better identity priority best
          then some (identity, priority)
          else best)
        identities

  pub find_approved_app_grant : List BrowserIdentity → String → String → Option BrowserIdentity
  unfolding best_grant
  find_approved_app_grant identities origin store_id =
      elim (best_grant origin store_id none identities) [
        | none ↦ none
        | some (identity, _) ↦ some identity
      ]

  -- The two `continue` tests of matchDirectLocalIdentity.
  is_candidate : DirectLocalInit → DirectLocalProof → String → BrowserIdentity → Bool
  is_candidate init proof request_origin identity =
      if not (identity.key_id == proof.key_id)
        || not (origin_equivalent host identity.origin proof.origin)
        || not (origin_equivalent host identity.origin request_origin)
      then false
      else elim init.app [
        | none ↦ true
        | some app ↦ not (
            not (identity.store_id == "")
            && (not identity.authority && not (identity.store_id == app.store_id)))
      ]

  pub match_direct_local_identity :
      List BrowserIdentity
      → DirectLocalInit
      → DirectLocalProof
      → String
      → String
      → Option BrowserIdentity
  unfolding is_candidate
  match_direct_local_identity [] init proof nonce request_origin = none
  match_direct_local_identity (identity ∷ identities) init proof nonce request_origin =
      if is_candidate init proof request_origin identity
        && verify_browser_proof host identity nonce proof.origin proof.signature
      then some identity
      else match_direct_local_identity identities init proof nonce request_origin

  -- normalizeBrowserIdentities; `none` is its error.
  normalize_loop : List String → List BrowserIdentity → Option (List BrowserIdentity)
  normalize_loop seen [] = some []
  normalize_loop seen (identity ∷ identities) =
      let key = identity.key_id ++ ("\n" ++ (identity.origin ++ ("\n" ++ identity.store_id))) in
      let skip = normalize_loop seen identities in
      let keep = normalize_loop (key ∷ seen) identities in
      if not (is_valid_identity host identity)
      then none
      else if string_slice_has seen key
      then skip
      else elim keep [ none ↦ none | some rest ↦ some (identity ∷ rest) ]

  pub normalize_browser_identities : List BrowserIdentity → Option (List BrowserIdentity)
  unfolding normalize_loop
  normalize_browser_identities value = normalize_loop [] value

  pub is_local : BrowserIdentity → Bool
  is_local identity = ltb_ℤ (pos 0) identity.approved_at

  pub merge_synced_identities : List BrowserIdentity → List BrowserIdentity → List BrowserIdentity
  unfolding is_local
  merge_synced_identities existing fresh =
      let merged = append (keep_if is_local existing) fresh in
      elim (normalize_browser_identities merged) [ none ↦ merged | some normal ↦ normal ]
