-- ===== src/Handshake/Contained.antt =====
-- The handshake of shellagent/browser_identity.go keeps the invariant of Handshake/Invariant.antt:
-- continuePairedIdentity.
use dynapp_agent.Prelude.{
  String, Bool, true, false, ◌||◌, List, ◌≡◌, refl, ◌∙◌, subst, if◌then◌else◌, not, Option, none,
  some, arith, Option-cases, inl, inr,
}
use dynapp_agent.Types.{
  Host, Fields, Config, BrowserIdentity, BrowserClient, ResolvedApp, SocketAuthentication,
  DirectLocalInit,
}
use dynapp_agent.Types.Numbers.{Time}
use dynapp_agent.Apps.{resolve_app, resolve_manifest_app}
use dynapp_agent.Origins.{catalog_app_id}
use dynapp_agent.Client.{apply_browser_client}
use dynapp_agent.Permissions.{Agent, PreApproval, consume_pre_approval}
use dynapp_agent.Handshake.{
  auth_for_identity, granted_identity, persist, raised_authority, continue_authority,
  continue_with_app, continue_app, continue_paired_identity,
}
use dynapp_agent.Handshake.Invariant.{
  manages, is_contained, IsContained, OnlyAuthorityManages, SafelyConsumed, contained_persist,
  manages-intersect, manages-normalize, consume_pre_approval-SafelyConsumed,
}

-- A socket may manage permissions only on behalf of an authority identity, and the saved grants
-- keep the invariant.
abbrev pub Bounded : Bool → SocketAuthentication × Agent → Type 0
Bounded authority (auth, agent) =
    (authority || not (manages auth.capabilities) ≡ true) × OnlyAuthorityManages agent

pub granted-IsContained :
    (now : Time) (granted declared : List String) (app : ResolvedApp) (identity : BrowserIdentity)
    → manages granted ≡ false
    → IsContained (granted_identity now granted declared app identity)
unfolding granted_identity is_contained
granted-IsContained now granted declared app identity h =
    ground (arith, manages-intersect granted app.declared h)

pub auth_for_identity-manages :
    (identity : BrowserIdentity) (app : Option ResolvedApp)
    → IsContained identity
    → identity.authority || not (manages (auth_for_identity identity app).capabilities) ≡ true
unfolding auth_for_identity is_contained
auth_for_identity-manages identity none h = ground (arith, manages-normalize identity.capabilities)
auth_for_identity-manages identity (some app) h =
    ground (arith, manages-intersect identity.capabilities app.declared)

pub apply_browser_client-IsContained :
    (host : Host) (identity : BrowserIdentity) (client : Option BrowserClient)
    → (is_contained (apply_browser_client host identity client).0 ≡ is_contained identity)
      × ((apply_browser_client host identity client).0.authority ≡ identity.authority)
unfolding apply_browser_client is_contained
apply_browser_client-IsContained host identity client = (ground arith, ground arith)

-- An identity that keeps the invariant is saved and answered.
settle :
    (identity : BrowserIdentity) (changed : Bool) (app : Option ResolvedApp) (agent : Agent)
    → IsContained identity
    → OnlyAuthorityManages agent
    → Bounded identity.authority (auth_for_identity identity app, persist changed identity agent)
settle identity changed app agent h c =
    (auth_for_identity-manages identity app h, contained_persist changed identity agent h c)

either :
    (authority test : Bool) (left right : SocketAuthentication × Agent)
    → Bounded authority left
    → Bounded authority right
    → Bounded authority (if test then left else right)
either authority true left right l r = l
either authority false left right l r = r

by_authority :
    (authority : Bool) (left right : SocketAuthentication × Agent)
    → (authority ≡ true → Bounded true left)
    → Bounded authority right
    → Bounded authority (if authority then left else right)
by_authority true left right l r = l refl
by_authority false left right l r = r

module _ (host : Host) (fetch : Config → String → Option Fields) where
  continue_with_app-Bounded :
      (app : ResolvedApp) (identity : BrowserIdentity) (changed : Bool)
      (approval : Option PreApproval) (now : Time) (agent : Agent)
      → IsContained identity
      → SafelyConsumed (approval, agent)
      → Bounded identity.authority
          (continue_with_app host fetch app identity changed approval now agent)
  unfolding continue_with_app is_contained granted_identity
  continue_with_app-Bounded app identity changed (some approval) now agent h c =
      settle _ true (some app) agent
        (granted-IsContained now approval.capabilities app.declared app identity c.0) c.1
  continue_with_app-Bounded app identity changed none now agent h c =
      either identity.authority _ _ _ (settle _ true (some app) agent h c)
        (settle identity changed (some app) agent h c)

  consumed :
      (app : ResolvedApp) (identity : BrowserIdentity) (changed : Bool) (now : Time)
      (taken : Option PreApproval × Agent)
      → IsContained identity
      → SafelyConsumed taken
      → Bounded identity.authority
          (continue_with_app host fetch app identity changed taken.0 now taken.1)
  consumed app identity changed now (approval, agent) h c =
      continue_with_app-Bounded app identity changed approval now agent h c

  continue_app-Bounded :
      (init : DirectLocalInit) (origin : String) (identity : BrowserIdentity) (changed : Bool)
      (now : Time) (agent : Agent)
      → IsContained identity
      → OnlyAuthorityManages agent
      → Bounded identity.authority (continue_app host fetch init origin identity changed now agent)
  unfolding continue_app
  continue_app-Bounded init origin identity changed now agent h c =
      elim (Option-cases (resolve_app host fetch agent.config origin init)) [
        | inl e ↦
            rw (e, continue_app)
              (either identity.authority _ _ _ (settle identity changed none agent h c)
                (settle identity changed none agent h c))
        | inr (app, e) ↦
            rw (e, continue_app)
              (either identity.authority _ _ _ (settle identity changed none agent h c) (
                consumed app identity changed now (consume_pre_approval now app.store_id agent) h
                  (consume_pre_approval-SafelyConsumed now app.store_id agent c)))
      ]

  raised_authority-authority :
      (manifest : Option ResolvedApp) (identity : BrowserIdentity) (changed : Bool)
      → (raised_authority host fetch manifest identity changed).0.authority ≡ identity.authority
  unfolding raised_authority
  raised_authority-authority none identity changed = refl
  raised_authority-authority (some app) identity changed = ground arith

  pub authority-IsContained :
      (identity : BrowserIdentity) → identity.authority ≡ true → IsContained identity
  unfolding is_contained
  authority-IsContained identity h = rw h refl

  continue_authority-Bounded :
      (config : Config) (identity : BrowserIdentity) (changed : Bool) (agent : Agent)
      → identity.authority ≡ true
      → OnlyAuthorityManages agent
      → Bounded true (continue_authority host fetch config identity changed agent)
  unfolding continue_authority
  continue_authority-Bounded config identity changed agent h c =
      let manifest = resolve_manifest_app host fetch config (catalog_app_id host config) in
      let raised = raised_authority host fetch manifest identity changed in
      let still =
        authority-IsContained raised.0 (raised_authority-authority manifest identity changed ∙ h) in
      (refl, contained_persist raised.1 raised.0 agent still c)

  continued :
      (config : Config) (init : DirectLocalInit) (origin : String) (identity : BrowserIdentity)
      (changed : Bool) (now : Time) (agent : Agent)
      → IsContained identity
      → OnlyAuthorityManages agent
      → Bounded identity.authority (
          if identity.authority
          then continue_authority host fetch config identity changed agent
          else continue_app host fetch init origin identity changed now agent)
  continued config init origin identity changed now agent h c =
      by_authority identity.authority _ _
        (λ e. continue_authority-Bounded config identity changed agent e c)
        (continue_app-Bounded init origin identity changed now agent h c)

  -- A key that is known reconnects: if its identity and all saved grants keep the invariant, then
  -- the saved grants still keep it, and the socket holds `permissions.manage` only if the identity
  -- is an authority's.
  pub continue_paired_identity-Bounded :
      (config : Config) (found : BrowserIdentity) (init : DirectLocalInit) (origin : String)
      (now : Time) (agent : Agent)
      → IsContained found
      → OnlyAuthorityManages agent
      → Bounded found.authority
          (continue_paired_identity host fetch config found init origin now agent)
  unfolding continue_paired_identity
  continue_paired_identity-Bounded config found init origin now agent h c =
      let described = apply_browser_client host found init.client in
      let same = apply_browser_client-IsContained host found init.client in
      subst
        (λ a. Bounded a (continue_paired_identity host fetch config found init origin now agent))
        same.1 (continued config init origin described.0 described.1 now agent (same.0 ∙ h) c)
