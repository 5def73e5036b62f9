-- ===== src/Apps/Trimmed.antt =====
-- shellagent/app_resolution.go: what a resolved app declares has no white space at an end.
use dynapp_agent.Prelude.{
  String, Bool, true, false, List, [], ◌∷◌, ◌⊎◌, ◌≡◌, refl, if◌then◌else◌, not, Option, none, some,
  arith, eq_iff, inl, inr, subst, Option-cases,
}
use dynapp_agent.Text.{trim_space, trim_space_idem}
use dynapp_agent.Types.{
  Host, Json, null, boolean, number, text, array, object, Items, nil, cons, Fields, Config,
  ResolvedApp, DirectLocalInit, DirectLocalApp, Connect, lookup_field,
}
use dynapp_agent.Sets.{string_slice_has}
use dynapp_agent.Sets.Membership.{has-sort_strings, IsTrimmed}
use dynapp_agent.Origins.{OriginKind, rejected, development, hosted, identified, valid_store_id}
use dynapp_agent.Apps.{
  entry_id, permission_loop, normalize_permission_list, manifest_backend_permissions,
  app_from_dyner_manifest, app_from_dyner_detail, development_app, hosted_app, resolve_app,
  add_connect, as_items, latest_revision, object_field, hosted_origins, raw_connect,
  connect_from_init,
}

List-cases :
    (l : List String)
    → (l ≡ []) ⊎ ((first : String) × ((others : List String) × (l ≡ first ∷ others)))
List-cases [] = inl refl
List-cases (first ∷ others) = inr (first, (others, refl))

trim_nil : trim_space "" ≡ ""
unfolding trim_space
trim_nil = refl

module _ (host : Host) where
  entry_id_trimmed : (value : Json) → trim_space (entry_id host value) ≡ entry_id host value
  unfolding entry_id
  entry_id_trimmed null = trim_nil
  entry_id_trimmed (boolean b) = trim_nil
  entry_id_trimmed (number n) = trim_nil
  entry_id_trimmed (text s) = trim_space_idem s
  entry_id_trimmed (array items) = trim_nil
  entry_id_trimmed (object fields) = trim_space_idem _

  permission_loop-IsTrimmed :
      (seen : List String) (values : Items) → IsTrimmed (permission_loop host seen values)
  unfolding permission_loop string_slice_has
  permission_loop-IsTrimmed seen nil x h = absurd (ground arith)
  permission_loop-IsTrimmed seen (cons value values) x h = ground (
    arith,
    permission_loop-IsTrimmed seen values x,
    permission_loop-IsTrimmed (entry_id host value ∷ seen) values x,
    eq_iff (entry_id host value) x,
    entry_id_trimmed value,
  )

  normalize_permission_list-IsTrimmed :
      (values : Items) → IsTrimmed (normalize_permission_list host values)
  unfolding normalize_permission_list
  normalize_permission_list-IsTrimmed values x h =
      permission_loop-IsTrimmed [] values x (rw has-sort_strings at h)

  abbrev pub DeclaresTrimmed : Option ResolvedApp → Type 0
  DeclaresTrimmed none = Unit
  DeclaresTrimmed (some app) = IsTrimmed app.declared

  abbrev manifest_connects : Fields → Option Connect
  manifest_connects manifest =
      add_connect host "http" (raw_connect host "http" "net.protocol.http" "protocol.http" manifest)
        (add_connect host "https"
          (raw_connect host "https" "net.protocol.https" "protocol.https" manifest) (some []))

  manifest_backend_permissions-IsTrimmed :
      (manifest : Fields) (declared : List String) (connect : Connect)
      → manifest_backend_permissions host manifest ≡ some (declared, connect)
      → IsTrimmed declared
  unfolding manifest_backend_permissions
  manifest_backend_permissions-IsTrimmed manifest declared connect h =
      let permissions : Items = as_items (lookup_field "backendPermissions" manifest) in
      elim (Option-cases (manifest_connects manifest)) [
        | inl e ↦ absurd (ground (arith, e))
        | inr (c, e) ↦
            let got : some (normalize_permission_list host permissions, c)
                ≡ some (declared, connect) =
              rw (e, manifest_backend_permissions) at h in
            let same : normalize_permission_list host permissions ≡ declared = cc got in
            subst IsTrimmed same (normalize_permission_list-IsTrimmed permissions)
      ]

  app_from_dyner_manifest-DeclaresTrimmed :
      (store_id : String) (detail : Fields)
      → DeclaresTrimmed (app_from_dyner_manifest host store_id detail)
  unfolding app_from_dyner_manifest
  app_from_dyner_manifest-DeclaresTrimmed store_id detail =
      elim (Option-cases (object_field "manifest" (latest_revision host detail))) [
        | inl e ↦ rw (e, app_from_dyner_manifest) tt
        | inr (manifest, e) ↦ elim (Option-cases (manifest_backend_permissions host manifest)) [
          | inl e' ↦ rw (e, e', app_from_dyner_manifest) tt
          | inr ((declared, connect), e') ↦
              rw (e, e', app_from_dyner_manifest)
                (manifest_backend_permissions-IsTrimmed manifest declared connect e')
        ]
      ]

  only_if :
      (names : Bool) (app : Option ResolvedApp)
      → DeclaresTrimmed app
      → DeclaresTrimmed (if names then app else none)
  only_if true app h = h
  only_if false app h = tt

  unless :
      (good : Bool) (app : Option ResolvedApp)
      → DeclaresTrimmed app
      → DeclaresTrimmed (if not good then none else app)
  unless true app h = h
  unless false app h = tt

  app_from_dyner_detail-DeclaresTrimmed :
      (config : Config) (origin store_id : String) (detail : Fields)
      → DeclaresTrimmed (app_from_dyner_detail host config origin store_id detail)
  unfolding app_from_dyner_detail
  app_from_dyner_detail-DeclaresTrimmed config origin store_id detail =
      let app = app_from_dyner_manifest-DeclaresTrimmed store_id detail in
      elim (List-cases (hosted_origins host detail)) [
        | inl e ↦ rw (e, app_from_dyner_detail) (only_if _ _ app)
        | inr (first, (others, e)) ↦ rw (e, app_from_dyner_detail) (only_if _ _ app)
      ]

  module _ (fetch : Config → String → Option Fields) where
    hosted_app-DeclaresTrimmed :
        (config : Config) (origin store_id : String)
        → DeclaresTrimmed (hosted_app host fetch config origin store_id)
    unfolding hosted_app
    hosted_app-DeclaresTrimmed config origin store_id =
        elim (Option-cases (fetch config store_id)) [
          | inl e ↦ rw (e, hosted_app) tt
          | inr (detail, e) ↦
              rw (e, hosted_app)
                (app_from_dyner_detail-DeclaresTrimmed config origin store_id detail)
        ]

    development_app-DeclaresTrimmed :
        (store_id : String) (app : DirectLocalApp)
        → DeclaresTrimmed (development_app host fetch store_id app)
    unfolding development_app
    development_app-DeclaresTrimmed store_id app =
        elim (Option-cases (connect_from_init host app.connect)) [
          | inl e ↦ rw (e, development_app) tt
          | inr (connect, e) ↦
              rw (e, development_app) (normalize_permission_list-IsTrimmed app.declared_permissions)
        ]

    by_origin :
        (kind : OriginKind) (config : Config) (origin store_id : String) (app : DirectLocalApp)
        → DeclaresTrimmed (elim kind [
          | development ↦ development_app host fetch store_id app
          | hosted ↦ hosted_app host fetch config origin store_id
          | rejected ↦ none
          | identified ↦ none
        ])
    by_origin rejected config origin store_id app = tt
    by_origin development config origin store_id app = development_app-DeclaresTrimmed store_id app
    by_origin hosted config origin store_id app = hosted_app-DeclaresTrimmed config origin store_id
    by_origin identified config origin store_id app = tt

    by_app :
        (config : Config) (origin : String) (init : DirectLocalInit) (app : DirectLocalApp)
        → init.app ≡ some app
        → DeclaresTrimmed (resolve_app host fetch config origin init)
    unfolding resolve_app
    by_app config origin init app e =
        rw (e, resolve_app)
          (unless (valid_store_id (trim_space app.store_id)) _
            (by_origin _ config origin (trim_space app.store_id) app))

    pub resolve_app-DeclaresTrimmed :
        (config : Config) (origin : String) (init : DirectLocalInit)
        → DeclaresTrimmed (resolve_app host fetch config origin init)
    unfolding resolve_app
    resolve_app-DeclaresTrimmed config origin init = elim (Option-cases init.app) [
      | inl e ↦ rw (e, resolve_app) tt
      | inr (app, e) ↦ by_app config origin init app e
    ]
