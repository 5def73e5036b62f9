-- ===== src/Permissions/Edit/Kept.antt =====
-- The edits of grants in shellagent/permissions.go and shellagent/native_apps.go keep the invariant
-- that only an authority identity may manage permissions.
use dynapp_agent.Prelude.{
  String, Bool, true, false, List, ◌≡◌, refl, subst, if◌then◌else◌, Option, some, All-keep_if,
  arith, Bool-cases, Option-cases, inl, inr,
}
use dynapp_agent.Types.{
  Host, Json, Fields, Config, BrowserIdentity, NativeApp, lookup_field, string_list,
}
use dynapp_agent.Types.Numbers.{Time}
use dynapp_agent.Sets.{normalize_permission_set}
use dynapp_agent.Sets.Membership.{IsTrimmed, normalize_permission_set-IsTrimmed}
use dynapp_agent.Sets.Canonical.{normalize_permission_set_idem}
use dynapp_agent.Grants.{native_app, find_identity, remove_identity, is_valid_native_app}
use dynapp_agent.Permissions.{
  permissions_manage, Agent, Result, ok, err, is_null, capability_arg, close_sockets_bound_to,
}
use dynapp_agent.Permissions.Clamp.{clamp_request-has}
use dynapp_agent.Permissions.Edit.{
  Selector, Grant, grant_selector, clamp_request, declared_ceiling, edited_identity,
  save_native_app, update_native_grant, revoke_native_grant, native_store_id, native_answer,
  revoked_answer, update_identity, update_selected, update_grant, revoke_identity, revoke_selected,
  revoke_grant, notify, with_identities,
}
use dynapp_agent.Handshake.Invariant.{
  manages, is_contained, IsContained, OnlyAuthorityManages, contained_upsert,
}

pub capability_arg-IsTrimmed :
    (args : Fields) (requested : List String)
    → capability_arg args ≡ some requested
    → IsTrimmed requested
unfolding capability_arg
capability_arg-IsTrimmed args requested h =
    elim (Bool-cases (is_null (lookup_field "capabilities" args))) [
      | inl e ↦ absurd (ground (arith, e, h))
      | inr e ↦
          let value : Json = lookup_field "capabilities" args in
          let got : some (normalize_permission_set (string_list value)) ≡ some requested =
            rw e at h in
          let same : normalize_permission_set (string_list value) ≡ requested = cc got in
          subst IsTrimmed same (normalize_permission_set-IsTrimmed (string_list value))
    ]

clamp_request-normal :
    (ceiling : List String) (authority : Bool) (requested : List String)
    → normalize_permission_set (clamp_request ceiling authority requested)
      ≡ clamp_request ceiling authority requested
unfolding clamp_request
clamp_request-normal ceiling authority requested = normalize_permission_set_idem _

pub clamp_request-manages :
    (ceiling : List String) (authority : Bool) (requested : List String)
    → IsTrimmed requested
    → manages (clamp_request ceiling authority requested) ≡ authority
unfolding manages
clamp_request-manages ceiling authority requested t =
    rw (clamp_request-normal, clamp_request-has ceiling authority requested permissions_manage t)
      refl

module _ (host : Host) (fetch : Config → String → Option Fields) where
  edited-IsContained :
      (now : Time) (ceiling requested : List String) (identity : BrowserIdentity)
      → IsTrimmed requested
      → IsContained (edited_identity host fetch now ceiling requested identity)
  unfolding edited_identity is_contained
  edited-IsContained now ceiling requested identity t =
      ground (arith, clamp_request-manages ceiling identity.authority requested t)

  update_identity-kept :
      (now : Time) (selector : Selector) (args : Fields) (agent : Agent)
      → OnlyAuthorityManages agent
      → OnlyAuthorityManages (update_identity host fetch now selector args agent).1
  unfolding update_identity notify close_sockets_bound_to
  update_identity-kept now selector args agent c =
      elim (Option-cases (
        find_identity selector.key_id selector.origin selector.store_id
          agent.config.browser_identities)) [
            | inl e ↦ rw (e, update_identity) c
            | inr (identity, e) ↦ elim (Option-cases (capability_arg args)) [
              | inl e' ↦ rw (e, e', update_identity) c
              | inr (requested, e') ↦
                  let ceiling =
                    declared_ceiling host fetch agent.config selector.store_id identity.declared in
                  let edited = edited_identity host fetch now ceiling requested identity in
                  let safe =
                    edited-IsContained now ceiling requested identity
                      (capability_arg-IsTrimmed args requested e') in
                  rw (e, e', update_identity) (contained_upsert edited agent safe c)
            ]
          ]

  save_native_app-kept :
      (app : NativeApp) (agent : Agent)
      → OnlyAuthorityManages agent
      → OnlyAuthorityManages (save_native_app host fetch app agent)
  unfolding save_native_app
  save_native_app-kept app agent c = elim (Bool-cases (is_valid_native_app host app)) [
    | inl e ↦ rw (e, save_native_app) c
    | inr e ↦ rw (e, save_native_app) c
  ]

  update_native_grant-kept :
      (now : Time) (store_id : String) (requested : List String) (agent : Agent)
      → OnlyAuthorityManages agent
      → OnlyAuthorityManages (update_native_grant host fetch now store_id requested agent).1
  unfolding update_native_grant notify close_sockets_bound_to
  update_native_grant-kept now store_id requested agent c =
      elim (Option-cases (native_app store_id agent.config.native_apps)) [
        | inl e ↦ rw (e, update_native_grant) c
        | inr (app, e) ↦ rw (e, update_native_grant) (save_native_app-kept _ agent c)
      ]

  revoke_native_grant-kept :
      (store_id : String) (agent : Agent)
      → OnlyAuthorityManages agent
      → OnlyAuthorityManages (revoke_native_grant host fetch store_id agent).1
  unfolding revoke_native_grant notify close_sockets_bound_to
  revoke_native_grant-kept store_id agent c =
      elim (Option-cases (native_app store_id agent.config.native_apps)) [
        | inl e ↦ rw (e, revoke_native_grant) c
        | inr (app, e) ↦ rw (e, revoke_native_grant) (save_native_app-kept _ agent c)
      ]

  revoke_identity-kept :
      (selector : Selector) (agent : Agent)
      → OnlyAuthorityManages agent
      → OnlyAuthorityManages (revoke_identity host fetch selector agent).1
  unfolding revoke_identity notify close_sockets_bound_to with_identities remove_identity
  revoke_identity-kept selector agent c =
      elim (Option-cases (
        find_identity selector.key_id selector.origin selector.store_id
          agent.config.browser_identities)) [
            | inl e ↦ rw (e, revoke_identity) c
            | inr (identity, e) ↦
                rw (e, revoke_identity)
                  (All-keep_if IsContained _ agent.config.browser_identities c.0, c.1)
          ]

  native_answer-kept :
      (end : Result NativeApp × Agent)
      → OnlyAuthorityManages end.1
      → OnlyAuthorityManages (native_answer host fetch end).1
        × OnlyAuthorityManages (revoked_answer host fetch end).1
  unfolding native_answer revoked_answer
  native_answer-kept (ok app, agent) c = (c, c)
  native_answer-kept (err e, agent) c = (c, c)

  either_kept :
      (test : Bool) (left right : Result Grant × Agent)
      → OnlyAuthorityManages left.1
      → OnlyAuthorityManages right.1
      → OnlyAuthorityManages (if test then left else right).1
  either_kept true left right l r = l
  either_kept false left right l r = r

  update_selected-kept :
      (now : Time) (selector : Selector) (args : Fields) (agent : Agent)
      → OnlyAuthorityManages agent
      → OnlyAuthorityManages (update_selected host fetch now selector args agent).1
  unfolding update_selected
  update_selected-kept now selector args agent c = elim (Option-cases (capability_arg args)) [
    | inl e ↦
        rw (e, update_selected)
          (either_kept _ _ _ c (update_identity-kept now selector args agent c))
    | inr (requested, e) ↦
        rw (e, update_selected)
          (either_kept _ _ _
            (native_answer-kept
              (update_native_grant host fetch now (native_store_id host fetch selector) requested
                agent)
              (update_native_grant-kept now (native_store_id host fetch selector) requested agent
                c)).0
            (update_identity-kept now selector args agent c))
  ]

  by_selector :
      (selector : Result Selector) (act : Selector → Result Grant × Agent) (agent : Agent)
      → OnlyAuthorityManages agent
      → ((s : Selector) → OnlyAuthorityManages (act s).1)
      → OnlyAuthorityManages
          (elim selector as (λ r. Result Grant × Agent) [ err e ↦ (err e, agent) | ok s ↦ act s ]).1
  by_selector (err e) act agent c k = c
  by_selector (ok s) act agent c k = k s

  pub update_grant-OnlyAuthorityManages :
      (now : Time) (args : Fields) (agent : Agent)
      → OnlyAuthorityManages agent
      → OnlyAuthorityManages (update_grant host fetch now args agent).1
  unfolding update_grant
  update_grant-OnlyAuthorityManages now args agent c =
      by_selector (grant_selector host args)
        (λ selector. update_selected host fetch now selector args agent) agent c
        (λ selector. update_selected-kept now selector args agent c)

  revoke_selected-kept :
      (selector : Selector) (agent : Agent)
      → OnlyAuthorityManages agent
      → OnlyAuthorityManages (revoke_selected host fetch selector agent).1
  unfolding revoke_selected
  revoke_selected-kept selector agent c =
      let store_id = native_store_id host fetch selector in
      either_kept _ _ _
        (native_answer-kept (revoke_native_grant host fetch store_id agent)
          (revoke_native_grant-kept store_id agent c)).1
        (revoke_identity-kept selector agent c)

  -- revokeGrant, whatever its arguments name, keeps the invariant that no saved identity but an
  -- authority's, and no pre-approval, holds `permissions.manage`.
  pub revoke_grant-OnlyAuthorityManages :
      (args : Fields) (agent : Agent)
      → OnlyAuthorityManages agent
      → OnlyAuthorityManages (revoke_grant host fetch args agent).1
  unfolding revoke_grant
  revoke_grant-OnlyAuthorityManages args agent c =
      by_selector (grant_selector host args) (λ selector. revoke_selected host fetch selector agent)
        agent c (λ selector. revoke_selected-kept selector agent c)
