-- ===== src/Apps.antt =====
-- What the agent learns of an app before it asks for approval: the second half of
-- shellagent/app_resolution.go. The request to Dyner is a parameter, `fetch`, which returns the
-- decoded app record or nothing.
pub mod Trimmed
use Prim.Native.String.{len}
use dynapp_agent.Prelude.{
  String, Bool, true, false, ◌||◌, ◌&&◌, List, [], ◌∷◌, ◌++◌, ◌==◌, if◌then◌else◌, not, Option,
  none, some, nat_eq, ltb, any_of,
}
use dynapp_agent.Text.{trim_space, trim_right_if, contains_char, sort_strings}
use dynapp_agent.Types.{
  Host, Json, null, boolean, number, text, array, object, Items, nil, cons, Fields, end, field,
  Config, Connect, ResolvedApp, DirectLocalInit, DirectLocalApp, lookup_field, string_value,
  string_list,
}
use dynapp_agent.Sets.{string_slice_has}
use dynapp_agent.Origins.{
  valid_store_id, store_slug, classify_origin, OriginKind, rejected, development, hosted,
  identified, legacy_hosted_origin_matches,
}
use dynapp_agent.Connect.{http_connect_entries, http_connect_patterns}

-- A value that is an object, and one that is an array.
as_object : Json → Option Fields
as_object (object fields) = some fields
as_object _ = none

as_items : Json → Items
as_items (array items) = items
as_items _ = nil

object_field : String → Option Fields → Option Fields
unfolding as_object
object_field name none = none
object_field name (some fields) = as_object (lookup_field name fields)

module _ (host : Host) where
  -- The id that normalizePermissionList reads from an entry.
  entry_id : Json → String
  entry_id (text id) = trim_space id
  entry_id (object entry) = trim_space (string_value host (lookup_field "permission" entry))
  entry_id _ = ""

  is_bad_id : String → Bool
  is_bad_id id =
      id == ""
      || ltb 80 (len id)
      || contains_char
          (λ c.
            nat_eq c b' ' || nat_eq c 9 || nat_eq c 10 || nat_eq c 34 || nat_eq c 39 || nat_eq c 92)
          id

  permission_loop : List String → Items → List String
  permission_loop seen nil = []
  permission_loop seen (cons value values) =
      let id = entry_id value in
      let skip = permission_loop seen values in
      let keep = id ∷ permission_loop (id ∷ seen) values in
      if is_bad_id id || string_slice_has seen id then skip else keep

  pub normalize_permission_list : Items → List String
  unfolding permission_loop entry_id is_bad_id
  normalize_permission_list values = sort_strings (permission_loop [] values)

  -- The loop of manifestBackendPermissions over the entries, for one scheme.
  entry_connects : String → Items → List String
  entry_connects permission nil = []
  entry_connects permission (cons (object entry) values) =
      let rest = entry_connects permission values in
      if trim_space (string_value host (lookup_field "permission" entry)) == permission
      then http_connect_entries (lookup_field "connect" entry) ++ rest
      else rest
  entry_connects permission (cons _ values) = entry_connects permission values

  connect_of : Option Fields → List String
  connect_of none = []
  connect_of (some item) = http_connect_entries (lookup_field "connect" item)

  -- rawConnect of one scheme: its permission, and the two names that the `net` object has for it.
  raw_connect : String → String → String → Fields → List String
  unfolding entry_connects connect_of
  raw_connect scheme permission dotted manifest =
      let network = object_field "net" (some manifest) in
      entry_connects permission (as_items (lookup_field "backendPermissions" manifest))
      ++ (connect_of (object_field scheme (object_field "protocol" network))
          ++ connect_of (object_field dotted network))

  -- One entry of the connect map: nothing to add for an empty list, `none` for a bad pattern.
  add_connect : String → List String → Option Connect → Option Connect
  add_connect scheme [] rest = rest
  add_connect scheme (value ∷ values) none = none
  add_connect scheme (value ∷ values) (some rest) =
      elim (http_connect_patterns host (value ∷ values) scheme) [
        | none ↦ none
        | some patterns ↦ some ((scheme, patterns) ∷ rest)
      ]

  -- manifestBackendPermissions; `none` is its error.
  pub manifest_backend_permissions : Fields → Option (List String × Connect)
  unfolding raw_connect add_connect
  manifest_backend_permissions manifest =
      let declared =
        normalize_permission_list (as_items (lookup_field "backendPermissions" manifest)) in
      let http = raw_connect "http" "net.protocol.http" "protocol.http" manifest in
      let https = raw_connect "https" "net.protocol.https" "protocol.https" manifest in
      elim (add_connect "http" http (add_connect "https" https (some []))) [
        | none ↦ none
        | some connect ↦ some (declared, connect)
      ]

  entries_of : String → Option Fields → List String
  entries_of scheme none = []
  entries_of scheme (some fields) = http_connect_entries (lookup_field scheme fields)

  -- connectFromInit; `none` is its error.
  pub connect_from_init : Option Fields → Option Connect
  unfolding add_connect entries_of
  connect_from_init value =
      add_connect "http" (entries_of "http" value)
        (add_connect "https" (entries_of "https" value) (some []))

  -- The revision that appFromDynerManifest reads.
  first_item : Items → Option Fields
  unfolding as_object
  first_item nil = none
  first_item (cons value values) = as_object value

  latest_revision : Fields → Option Fields
  unfolding object_field first_item
  latest_revision detail = elim (object_field "latestRevision" (some detail)) [
    | some revision ↦ some revision
    | none ↦ first_item (as_items (lookup_field "revisions" detail))
  ]

  name_of : Option Fields → String
  name_of none = ""
  name_of (some fields) = trim_space (string_value host (lookup_field "name" fields))

  app_name : String → Option Fields → Option Fields → String
  unfolding name_of
  app_name store_id app manifest =
      if not (name_of app == "")
      then name_of app
      else if not (name_of manifest == "")
      then name_of manifest
      else store_slug store_id

  -- appFromDynerManifest; `none` is its error.
  pub app_from_dyner_manifest : String → Fields → Option ResolvedApp
  unfolding latest_revision app_name
  app_from_dyner_manifest store_id detail =
      elim (object_field "manifest" (latest_revision detail)) [
        | none ↦ none
        | some manifest ↦ elim (manifest_backend_permissions manifest) [
          | none ↦ none
          | some (declared, connect) ↦ some (record {
            store_id = store_id;
            name = app_name store_id (object_field "app" (some detail)) (some manifest);
            development = false;
            declared = declared;
            connect = connect;
          })
        ]
      ]

  hosted_origins : Fields → List String
  hosted_origins detail =
      let nested : List String = elim (object_field "app" (some detail)) [
        | none ↦ []
        | some app ↦ string_list (lookup_field "hostedOrigins" app)
      ] in
      elim (string_list (lookup_field "hostedOrigins" detail)) [
        | [] ↦ nested
        | first ∷ others ↦ first ∷ others
      ]

  -- appFromDynerDetail; `none` is its error.
  pub app_from_dyner_detail : Config → String → String → Fields → Option ResolvedApp
  unfolding hosted_origins
  app_from_dyner_detail config origin store_id detail =
      let canonical = host.to_lower (trim_space origin) in
      let names = λ (candidate : String).
        host.to_lower (trim_right_if (λ c. nat_eq c b'/') (trim_space candidate)) == canonical in
      let app = app_from_dyner_manifest store_id detail in
      elim (hosted_origins detail) [
        | [] ↦ if legacy_hosted_origin_matches host config canonical store_id then app else none
        | first ∷ others ↦ if any_of names (first ∷ others) then app else none
      ]

  module _ (fetch : Config → String → Option Fields) where
    -- resolveManifestApp; `none` is its error.
    pub resolve_manifest_app : Config → String → Option ResolvedApp
    resolve_manifest_app config store_id =
        if not (valid_store_id store_id) then none else elim (fetch config store_id) [
          | none ↦ none
          | some detail ↦ app_from_dyner_manifest store_id detail
        ]

    development_app : String → DirectLocalApp → Option ResolvedApp
    development_app store_id app = elim (connect_from_init app.connect) [
      | none ↦ none
      | some connect ↦ some (record {
        store_id = store_id;
        name = store_slug store_id;
        development = true;
        declared = normalize_permission_list app.declared_permissions;
        connect = connect;
      })
    ]

    hosted_app : Config → String → String → Option ResolvedApp
    hosted_app config origin store_id = elim (fetch config store_id) [
      | none ↦ none
      | some detail ↦ app_from_dyner_detail config origin store_id detail
    ]

    -- resolveApp; `none` is its error.
    pub resolve_app : Config → String → DirectLocalInit → Option ResolvedApp
    unfolding development_app hosted_app
    resolve_app config origin init = elim init.app [
      | none ↦ none
      | some app ↦
          let store_id = trim_space app.store_id in
          if not (valid_store_id store_id)
          then none
          else elim (classify_origin host config config.browser_identities origin) [
            | development ↦ development_app store_id app
            | hosted ↦ hosted_app config origin store_id
            | rejected ↦ none
            | identified ↦ none
          ]
    ]
