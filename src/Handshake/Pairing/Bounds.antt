-- ===== src/Handshake/Pairing/Bounds.antt =====
-- pairUnknownIdentity of shellagent/browser_identity.go, and the wait for a decision, keep the
-- invariant of Handshake/Invariant.antt.
use dynapp_agent.Prelude.{
  String, Bool, true, false, ◌||◌, List, [], ◌∷◌, ◌≡◌, refl, sym, subst, if◌then◌else◌, not, Option,
  none, some, All, arith, Option-cases, inl, inr,
}
use dynapp_agent.Types.{
  Host, Fields, Config, BrowserIdentity, BrowserJwk, ResolvedApp, DirectLocalInit, DirectLocalProof,
  DirectLocalApp,
}
use dynapp_agent.Types.Numbers.{Time}
use dynapp_agent.Apps.Trimmed.{DeclaresTrimmed, resolve_app-DeclaresTrimmed}
use dynapp_agent.Origins.{is_authority_origin}
use dynapp_agent.Client.{apply_browser_client}
use dynapp_agent.Sets.{subtract_strings}
use dynapp_agent.Grants.{find_approved_app_grant}
use dynapp_agent.Permissions.{
  permissions_manage, Agent, PreApproval, PendingRequest, Wake, decided, expired, cancelled, Result,
  ok, err, consume_pre_approval, register_pending, unregister_pending, await_decision,
}
use dynapp_agent.Permissions.Requests.{
  SameGrants, register_pending-SameGrants, unregister_pending-SameGrants,
}
use dynapp_agent.Permissions.Edit.{upsert_browser_identity, notify}
use dynapp_agent.Handshake.{
  Refusal, rejected, aborted, Waiting, Outcome, accepted, refused, waits, auth_for_identity,
  granted_identity,
}
use dynapp_agent.Handshake.Pairing.{
  new_identity, grant_app, authority_identity, record_authority_identity, ask_authority,
  pair_by_grant, pair_with_app, pair_verified, pair_with_key, pairing_request,
  pair_unknown_identity, finish_pairing, auto_approved_identity,
}
use dynapp_agent.Handshake.Invariant.{
  manages, is_contained, IsContained, IsHarmless, OnlyAuthorityManages, SafelyConsumed,
  contained_upsert, manages-intersect-right, manages-normalize, manages-subtract,
  consume_pre_approval-SafelyConsumed,
}
use dynapp_agent.Handshake.Contained.{
  auth_for_identity-manages, authority-IsContained, apply_browser_client-IsContained,
}

-- How a handshake may end, for an origin that is trusted as authority or not: a socket holds
-- `permissions.manage` only under a trusted origin, a pairing that waits is for an app that does not
-- declare it, and the saved grants keep the invariant.
unfoldable pub OutcomeBounded : Bool → Outcome × Agent → Type 0
OutcomeBounded trusted (accepted auth, agent) =
    (trusted || not (manages auth.capabilities) ≡ true) × OnlyAuthorityManages agent
OutcomeBounded trusted (refused refusal, agent) = OnlyAuthorityManages agent
OutcomeBounded trusted (waits waiting, agent) =
    (manages waiting.app.declared ≡ false × waiting.identity.authority ≡ false)
    × OnlyAuthorityManages agent

-- The untrusted outcome is one that a trusted origin may have too.
weaken :
    (trusted : Bool) (end : Outcome × Agent) → OutcomeBounded false end → OutcomeBounded trusted end
unfolding OutcomeBounded
weaken trusted (accepted auth, agent) h = (ground (arith, h.0), h.1)
weaken trusted (refused refusal, agent) h = h
weaken trusted (waits waiting, agent) h = h

-- A plain identity is granted a set that, cut to what the app declares, cannot manage.
grant_app-OutcomeBounded :
    (now : Time) (granted declared : List String) (app : ResolvedApp) (identity : BrowserIdentity)
    (agent : Agent)
    → manages app.declared ≡ false
    → identity.authority ≡ false
    → OnlyAuthorityManages agent
    → OutcomeBounded false (grant_app now granted declared app identity agent)
unfolding OutcomeBounded grant_app granted_identity is_contained notify
grant_app-OutcomeBounded now granted declared app identity agent d a c =
    let written = record (granted_identity now granted declared app identity) {
      store_id = app.store_id;
    } in
    let safe = manages-intersect-right granted app.declared d in
    let contained : IsContained written = ground (arith, safe) in
    (
      ground (arith, a, auth_for_identity-manages written (some app) contained),
      contained_upsert written agent contained c,
    )

-- A state with the same grants keeps the invariant.
same_grants :
    (agent after : Agent)
    → SameGrants agent after
    → OnlyAuthorityManages agent
    → OnlyAuthorityManages after
same_grants agent after s c = (
  subst (λ (config : Config). All IsContained config.browser_identities) (sym s.0) c.0,
  subst (λ approvals. All IsHarmless approvals) (sym s.1) c.1,
)

auto_approved :
    (now : Time) (app : ResolvedApp) (identity : BrowserIdentity) (agent : Agent)
    → manages app.declared ≡ false
    → identity.authority ≡ false
    → OnlyAuthorityManages agent
    → OutcomeBounded false (
      accepted (auth_for_identity (auto_approved_identity now app identity) (some app)),
      upsert_browser_identity (auto_approved_identity now app identity) agent,
    )
unfolding OutcomeBounded auto_approved_identity is_contained
auto_approved now app identity agent d a c =
    let written = auto_approved_identity now app identity in
    let contained : IsContained written = ground (arith, manages-normalize app.declared) in
    (
      ground (arith, a, auth_for_identity-manages written (some app) contained),
      contained_upsert written agent contained c,
    )

module _ (host : Host) (fetch : Config → String → Option Fields) where
  -- What follows the registration of a request.
  after_request :
      (sent : Bool) (app : ResolvedApp) (identity : BrowserIdentity) (result : Result (Unit {0}))
      (registered : Agent) (requests : List PendingRequest)
      → manages app.declared ≡ false
      → identity.authority ≡ false
      → OnlyAuthorityManages registered
      → OutcomeBounded false (elim result [
        | err _ ↦ (refused rejected, registered)
        | ok _ ↦ elim requests [
          | [] ↦ (refused rejected, registered)
          | request ∷ _ ↦
              if sent
              then (
                waits (record { identity = identity; app = app; request = request }),
                registered,
              )
              else (refused aborted, unregister_pending request.id registered)
        ]
      ])
  unfolding OutcomeBounded
  after_request sent app identity (err e) registered requests d a c = c
  after_request sent app identity (ok _) registered [] d a c = c
  after_request true app identity (ok _) registered (request ∷ rest) d a c = ((d, a), c)
  after_request false app identity (ok _) registered (request ∷ rest) d a c =
      same_grants registered (unregister_pending request.id registered)
        (unregister_pending-SameGrants request.id registered) c

  ask_authority-OutcomeBounded :
      (now : Time) (draws : List (Option (String × String))) (sent : Bool) (app : ResolvedApp)
      (identity : BrowserIdentity) (agent : Agent)
      → manages app.declared ≡ false
      → identity.authority ≡ false
      → OnlyAuthorityManages agent
      → OutcomeBounded false (ask_authority host fetch now draws sent app identity agent)
  unfolding ask_authority
  ask_authority-OutcomeBounded now draws sent app identity agent d a c =
      let asked = register_pending now draws (pairing_request app identity) agent in
      after_request sent app identity asked.0 asked.1 asked.1.requests d a (
        same_grants agent asked.1
          (register_pending-SameGrants now draws (pairing_request app identity) agent) c)

  either_outcome :
      (trusted test : Bool) (left right : Outcome × Agent)
      → OutcomeBounded trusted left
      → OutcomeBounded trusted right
      → OutcomeBounded trusted (if test then left else right)
  either_outcome trusted true left right l r = l
  either_outcome trusted false left right l r = r

  by_found :
      (now : Time) (draws : List (Option (String × String))) (sent : Bool)
      (proof : DirectLocalProof) (app : ResolvedApp) (identity : BrowserIdentity) (agent : Agent)
      → manages app.declared ≡ false
      → identity.authority ≡ false
      → OnlyAuthorityManages agent
      → OutcomeBounded false (pair_by_grant host fetch now draws sent proof app identity agent)
  unfolding pair_by_grant
  by_found now draws sent proof app identity agent d a c =
      elim (Option-cases
        (find_approved_app_grant host agent.config.browser_identities proof.origin app.store_id)) [
          | inl e ↦
              rw (e, pair_by_grant)
                (either_outcome false _ _ _ (auto_approved now app identity agent d a c)
                  (ask_authority-OutcomeBounded now draws sent app identity agent d a c))
          | inr (existing, e) ↦
              rw (e, pair_by_grant)
                (grant_app-OutcomeBounded now existing.capabilities _ app identity agent d a c)
        ]

  consumed :
      (now : Time) (draws : List (Option (String × String))) (sent : Bool)
      (proof : DirectLocalProof) (app : ResolvedApp) (identity : BrowserIdentity)
      (taken : Option PreApproval × Agent)
      → manages app.declared ≡ false
      → identity.authority ≡ false
      → SafelyConsumed taken
      → OutcomeBounded false (elim taken.0 [
        | some approved ↦ grant_app now approved.capabilities app.declared app identity taken.1
        | none ↦ pair_by_grant host fetch now draws sent proof app identity taken.1
      ])
  consumed now draws sent proof app identity (some approved, agent) d a c =
      grant_app-OutcomeBounded now approved.capabilities app.declared app identity agent d a c.1
  consumed now draws sent proof app identity (none, agent) d a c =
      by_found now draws sent proof app identity agent d a c

  pair_with_app-OutcomeBounded :
      (now : Time) (draws : List (Option (String × String))) (sent : Bool)
      (proof : DirectLocalProof) (resolved : ResolvedApp) (identity : BrowserIdentity)
      (agent : Agent)
      → DeclaresTrimmed host (some resolved)
      → identity.authority ≡ false
      → OnlyAuthorityManages agent
      → OutcomeBounded false (pair_with_app host fetch now draws sent proof resolved identity agent)
  unfolding pair_with_app
  pair_with_app-OutcomeBounded now draws sent proof resolved identity agent t a c =
      consumed now draws sent proof
        (record resolved {
          declared = subtract_strings resolved.declared (permissions_manage ∷ []);
        })
        identity (consume_pre_approval now resolved.store_id agent)
        (manages-subtract resolved.declared t) a
        (consume_pre_approval-SafelyConsumed now resolved.store_id agent c)

  record_authority-OutcomeBounded :
      (now : Time) (config : Config) (app : Option DirectLocalApp) (identity : BrowserIdentity)
      (agent : Agent)
      → OnlyAuthorityManages agent
      → OutcomeBounded true (record_authority_identity host fetch now config app identity agent)
  unfolding OutcomeBounded record_authority_identity authority_identity notify
  record_authority-OutcomeBounded now config app identity agent c =
      let written = authority_identity host fetch now config app identity in
      (refl, contained_upsert written agent (authority-IsContained host fetch written refl) c)

  by_resolved :
      (now : Time) (draws : List (Option (String × String))) (sent : Bool)
      (proof : DirectLocalProof) (identity : BrowserIdentity) (agent : Agent)
      (app : Option ResolvedApp)
      → DeclaresTrimmed host app
      → identity.authority ≡ false
      → OnlyAuthorityManages agent
      → OutcomeBounded false (elim app [
        | none ↦ (refused rejected, agent)
        | some resolved ↦ pair_with_app host fetch now draws sent proof resolved identity agent
      ])
  unfolding OutcomeBounded
  by_resolved now draws sent proof identity agent none t a c = c
  by_resolved now draws sent proof identity agent (some resolved) t a c =
      pair_with_app-OutcomeBounded now draws sent proof resolved identity agent t a c

  by_trust :
      (trusted : Bool) (left right : Outcome × Agent)
      → OutcomeBounded true left
      → OutcomeBounded false right
      → OutcomeBounded trusted (if trusted then left else right)
  unfolding OutcomeBounded
  by_trust true left right l r = l
  by_trust false left right l r = r

  pair_verified-OutcomeBounded :
      (now : Time) (draws : List (Option (String × String))) (sent : Bool) (config : Config)
      (init : DirectLocalInit) (proof : DirectLocalProof) (origin : String)
      (identity : BrowserIdentity) (agent : Agent)
      → identity.authority ≡ false
      → OnlyAuthorityManages agent
      → OutcomeBounded
          (is_authority_origin host config origin)
          (pair_verified host fetch now draws sent config init proof origin identity agent)
  unfolding pair_verified
  pair_verified-OutcomeBounded now draws sent config init proof origin identity agent a c =
      by_trust _ _ _ (record_authority-OutcomeBounded now config init.app identity agent c) (
        by_resolved now draws sent proof identity agent _
          (resolve_app-DeclaresTrimmed host fetch agent.config origin init) a c)

  refused_bounded :
      (trusted : Bool) (refusal : Refusal) (agent : Agent)
      → OnlyAuthorityManages agent
      → OutcomeBounded trusted (refused refusal, agent)
  unfolding OutcomeBounded
  refused_bounded trusted refusal agent c = c

  by_key :
      (key : Option BrowserJwk) (now : Time) (draws : List (Option (String × String))) (sent : Bool)
      (config : Config) (init : DirectLocalInit) (proof : DirectLocalProof) (nonce origin : String)
      (agent : Agent)
      → OnlyAuthorityManages agent
      → OutcomeBounded
          (is_authority_origin host config origin)
          (pair_with_key host fetch now draws sent config init proof nonce origin agent key)
  unfolding pair_with_key new_identity
  by_key none now draws sent config init proof nonce origin agent c =
      refused_bounded _ rejected agent c
  by_key (some key) now draws sent config init proof nonce origin agent c =
      let fresh = new_identity key proof in
      let identity = (apply_browser_client host fresh init.client).0 in
      either_outcome _ _ _ _ (refused_bounded _ rejected agent c) (
        pair_verified-OutcomeBounded now draws sent config init proof origin identity agent
          ((apply_browser_client-IsContained host fresh init.client).1) c)

  -- A key that is not known pairs: if the saved grants and the pre-approvals keep the invariant,
  -- they keep it, and the socket holds `permissions.manage` only if the origin of the request is an
  -- authority origin.
  pub pair_unknown_identity-OutcomeBounded :
      (now : Time) (draws : List (Option (String × String))) (sent : Bool) (config : Config)
      (init : DirectLocalInit) (proof : DirectLocalProof) (nonce origin : String) (agent : Agent)
      → OnlyAuthorityManages agent
      → OutcomeBounded
          (is_authority_origin host config origin)
          (pair_unknown_identity host fetch now draws sent config init proof nonce origin agent)
  unfolding pair_unknown_identity
  pair_unknown_identity-OutcomeBounded now draws sent config init proof nonce origin agent c =
      by_key init.public_key_jwk now draws sent config init proof nonce origin agent c

  -- The wait of a pairing ends, whatever set the authority's decision carries: if the app does not
  -- declare `permissions.manage`, the identity is no authority's, and the saved grants keep the
  -- invariant, as they do where pairUnknownIdentity waits, then the saved grants keep it afterwards,
  -- and the socket does not hold `permissions.manage`.
  pub finish_pairing-OutcomeBounded :
      (now : Time) (wake : Wake) (waiting : Waiting) (agent : Agent)
      → manages waiting.app.declared ≡ false
      → waiting.identity.authority ≡ false
      → OnlyAuthorityManages agent
      → OutcomeBounded false (finish_pairing host fetch now wake waiting agent)
  unfolding OutcomeBounded finish_pairing await_decision
  finish_pairing-OutcomeBounded now (decided (some granted)) waiting agent d a c =
      grant_app-OutcomeBounded now granted waiting.app.declared waiting.app waiting.identity
        (unregister_pending waiting.request.id agent) d a
        (same_grants agent (unregister_pending waiting.request.id agent)
          (unregister_pending-SameGrants waiting.request.id agent) c)
  finish_pairing-OutcomeBounded now (decided none) waiting agent d a c =
      same_grants agent (unregister_pending waiting.request.id agent)
        (unregister_pending-SameGrants waiting.request.id agent) c
  finish_pairing-OutcomeBounded now expired waiting agent d a c =
      same_grants agent (unregister_pending waiting.request.id agent)
        (unregister_pending-SameGrants waiting.request.id agent) c
  finish_pairing-OutcomeBounded now cancelled waiting agent d a c =
      same_grants agent (unregister_pending waiting.request.id agent)
        (unregister_pending-SameGrants waiting.request.id agent) c
