-- ===== src/Permissions/Edit/Native.antt =====
-- The edits of native grants in shellagent/native_apps.go, and updateGrant of
-- shellagent/permissions.go for both kinds of grants, keep permissions.manage with the authority.
use dynapp_agent.Prelude.{
  String, Bool, true, false, ◌||◌, List, [], ◌∷◌, ◌++◌, ◌==◌, ◌≡◌, if◌then◌else◌, not, Option, All,
  any_of, arith, Bool-cases, Option-cases, inl, inr,
}
use dynapp_agent.Types.{Host, Fields, Config, NativeApp}
use dynapp_agent.Types.Numbers.{Time}
use dynapp_agent.Sets.Membership.{IsTrimmed}
use dynapp_agent.Grants.{
  native_app, find_identity, upsert_native_app, replace_native_apps, is_valid_native_app,
}
use dynapp_agent.Permissions.{Agent, Result, ok, err, capability_arg, close_sockets_bound_to}
use dynapp_agent.Permissions.Edit.{
  Selector, Grant, grant_selector, edited_native_app, save_native_app, update_native_grant,
  native_store_id, native_answer, update_identity, update_selected, update_grant, notify,
  with_identities, upsert_browser_identity, declared_ceiling,
}
use dynapp_agent.Permissions.Edit.Kept.{
  capability_arg-IsTrimmed, clamp_request-manages, update_grant-OnlyAuthorityManages,
}
use dynapp_agent.Handshake.Invariant.{manages, OnlyAuthorityManages}

-- Only an authority app may hold `permissions.manage`.
unfoldable pub is_contained_app : NativeApp → Bool
is_contained_app app = app.authority || not (manages app.capabilities)

abbrev IsContainedApp : NativeApp → Type 0
IsContainedApp app = is_contained_app app ≡ true

-- No saved native app but an authority's holds `permissions.manage`.
abbrev pub OnlyAuthorityAppsManage : Agent → Type 0
OnlyAuthorityAppsManage agent = All IsContainedApp agent.config.native_apps

All-append_one :
    (app : NativeApp) (apps : List NativeApp)
    → All IsContainedApp apps
    → IsContainedApp app
    → All IsContainedApp (apps ++ app ∷ [])
All-append_one app [] a h = (h, tt)
All-append_one app (x ∷ apps) a h = (a.0, All-append_one app apps a.1 h)

All-replace_native_apps :
    (app : NativeApp) (apps : List NativeApp)
    → IsContainedApp app
    → All IsContainedApp apps
    → All IsContainedApp (replace_native_apps app apps)
unfolding replace_native_apps
All-replace_native_apps app [] h a = tt
All-replace_native_apps app (x ∷ apps) h a = (
  elim (Bool-cases (x.store_id == app.store_id)) [ inl e ↦ rw e h | inr e ↦ rw e (a.0) ],
  All-replace_native_apps app apps h a.1,
)

All-upsert_native_app :
    (app : NativeApp) (apps : List NativeApp)
    → IsContainedApp app
    → All IsContainedApp apps
    → All IsContainedApp (upsert_native_app app apps)
unfolding upsert_native_app
All-upsert_native_app app apps h a =
    elim (Bool-cases (any_of (λ (existing : NativeApp). existing.store_id == app.store_id) apps)) [
      | inl e ↦ rw e (All-replace_native_apps app apps h a)
      | inr e ↦ rw e (All-append_one app _ (All-replace_native_apps app apps h a) h)
    ]

module _ (host : Host) (fetch : Config → String → Option Fields) where
  edited-IsContainedApp :
      (now : Time) (ceiling requested : List String) (app : NativeApp)
      → IsTrimmed requested
      → IsContainedApp (edited_native_app host fetch now ceiling requested app)
  unfolding edited_native_app is_contained_app
  edited-IsContainedApp now ceiling requested app t =
      ground (arith, clamp_request-manages ceiling app.authority requested t)

  saved-contained :
      (app : NativeApp) (agent : Agent)
      → IsContainedApp app
      → OnlyAuthorityAppsManage agent
      → OnlyAuthorityAppsManage (save_native_app host fetch app agent)
  unfolding save_native_app
  saved-contained app agent h c = elim (Bool-cases (is_valid_native_app host app)) [
    | inl e ↦ rw (e, save_native_app) (All-upsert_native_app app agent.config.native_apps h c)
    | inr e ↦ rw (e, save_native_app) c
  ]

  native_grant-contained :
      (now : Time) (store_id : String) (requested : List String) (agent : Agent)
      → IsTrimmed requested
      → OnlyAuthorityAppsManage agent
      → OnlyAuthorityAppsManage
          (native_answer host fetch (update_native_grant host fetch now store_id requested agent)).1
  unfolding update_native_grant native_answer notify close_sockets_bound_to
  native_grant-contained now store_id requested agent t c =
      elim (Option-cases (native_app store_id agent.config.native_apps)) [
        | inl e ↦ rw (e, update_native_grant, native_answer) c
        | inr (app, e) ↦
            let ceiling = declared_ceiling host fetch agent.config store_id app.declared in
            let edited = edited_native_app host fetch now ceiling requested app in
            rw (e, update_native_grant, native_answer)
              (saved-contained edited agent (edited-IsContainedApp now ceiling requested app t) c)
      ]

  identity_grant-contained :
      (now : Time) (selector : Selector) (args : Fields) (agent : Agent)
      → OnlyAuthorityAppsManage agent
      → OnlyAuthorityAppsManage (update_identity host fetch now selector args agent).1
  unfolding update_identity notify close_sockets_bound_to upsert_browser_identity with_identities
  identity_grant-contained now selector args agent c =
      elim (Option-cases (
        find_identity selector.key_id selector.origin selector.store_id
          agent.config.browser_identities)) [
            | inl e ↦ rw (e, update_identity) c
            | inr (identity, e) ↦ elim (Option-cases (capability_arg args)) [
              | inl f ↦ rw (e, f, update_identity) c
              | inr (requested, f) ↦ rw (e, f, update_identity) c
            ]
          ]

  either-contained :
      (test : Bool) (left right : Result Grant × Agent)
      → OnlyAuthorityAppsManage left.1
      → OnlyAuthorityAppsManage right.1
      → OnlyAuthorityAppsManage (if test then left else right).1
  either-contained true left right l r = l
  either-contained false left right l r = r

  selected-contained :
      (now : Time) (selector : Selector) (args : Fields) (agent : Agent)
      → OnlyAuthorityAppsManage agent
      → OnlyAuthorityAppsManage (update_selected host fetch now selector args agent).1
  unfolding update_selected
  selected-contained now selector args agent c =
      let other = identity_grant-contained now selector args agent c in
      elim (Option-cases (capability_arg args)) [
        | inl e ↦ rw (e, update_selected) (either-contained _ _ _ c other)
        | inr (requested, e) ↦
            rw (e, update_selected)
              (either-contained _ _ _
                (native_grant-contained now (native_store_id host fetch selector) requested agent
                  (capability_arg-IsTrimmed args requested e) c)
                other)
      ]

  by_selector :
      (selector : Result Selector) (act : Selector → Result Grant × Agent) (agent : Agent)
      → OnlyAuthorityAppsManage agent
      → ((s : Selector) → OnlyAuthorityAppsManage (act s).1)
      → OnlyAuthorityAppsManage
          (elim selector as (λ r. Result Grant × Agent) [ err e ↦ (err e, agent) | ok s ↦ act s ]).1
  by_selector (err e) act agent c k = c
  by_selector (ok s) act agent c k = k s

  -- updateGrant, whatever its arguments name and ask for, keeps both invariants: no saved identity but
  -- an authority's, and no pre-approval, holds `permissions.manage`, and no saved native app but an
  -- authority's holds it.
  pub update_grant-AuthorityManages :
      (now : Time) (args : Fields) (agent : Agent)
      → OnlyAuthorityManages agent
      → OnlyAuthorityAppsManage agent
      → OnlyAuthorityManages (update_grant host fetch now args agent).1
        × OnlyAuthorityAppsManage (update_grant host fetch now args agent).1
  unfolding update_grant
  update_grant-AuthorityManages now args agent c d = (
    update_grant-OnlyAuthorityManages host fetch now args agent c,
    by_selector (grant_selector host args)
        (λ selector. update_selected host fetch now selector args agent) agent d
        (λ selector. selected-contained now selector args agent d),
  )
