-- ===== src/Handshake/Effective.antt =====
-- What a socket may do after the handshake of shellagent/browser_identity.go.
use dynapp_agent.Prelude.{
  ℕ, String, Bool, true, false, ◌&&◌, List, ◌≡◌, refl, subst, Option, some, arith, map,
}
use dynapp_agent.Text.{trim_space}
use dynapp_agent.Types.{
  Host, Fields, Config, BrowserIdentity, ResolvedApp, SocketAuthentication, DirectLocalInit,
  DirectLocalProof,
}
use dynapp_agent.Types.Numbers.{Time}
use dynapp_agent.Sets.{string_slice_has, normalize_permission_set, intersect_strings}
use dynapp_agent.Sets.Membership.{has-normalize_permission_set, has-map-trim_space}
use dynapp_agent.Origins.{is_authority_origin}
use dynapp_agent.Access.{socket_allows}
use dynapp_agent.Access.Gate.{is_covered, socket_allows-has}
use dynapp_agent.Permissions.{permissions_manage, Agent, permission_denied, err}
use dynapp_agent.Permissions.Service.{handle_permissions}
use dynapp_agent.Handshake.{Outcome, accepted, refused, waits, auth_for_identity}
use dynapp_agent.Handshake.Pairing.{pair_unknown_identity}
use dynapp_agent.Handshake.Pairing.Bounds.{OutcomeBounded, pair_unknown_identity-OutcomeBounded}
use dynapp_agent.Handshake.Invariant.{
  manages, OnlyAuthorityManages, has-map_intersect, has-map_intersect_right,
}

-- Whatever capability the socket of an app holds, the saved grant holds it and the app's current
-- manifest declares it, white space at the ends aside.
pub auth_for_identity-within :
    (identity : BrowserIdentity) (app : ResolvedApp) (x : String)
    → string_slice_has (auth_for_identity identity (some app)).capabilities x ≡ true
    → (string_slice_has (normalize_permission_set identity.capabilities) x
        && string_slice_has (normalize_permission_set app.declared) x)
      ≡ true
unfolding auth_for_identity
auth_for_identity-within identity app x h = ground (
  arith,
  h,
  has-normalize_permission_set (intersect_strings identity.capabilities app.declared) x,
  has-normalize_permission_set identity.capabilities x,
  has-normalize_permission_set app.declared x,
  has-map_intersect identity.capabilities app.declared x,
  has-map_intersect_right identity.capabilities app.declared x,
)

trim_manage : trim_space permissions_manage ≡ permissions_manage
unfolding trim_space
trim_manage = refl

manages_of : (l : List String) → string_slice_has l permissions_manage ≡ true → manages l ≡ true
unfolding manages
manages_of l h =
    let trimmed : string_slice_has (map trim_space l) permissions_manage ≡ true =
      subst (λ s. string_slice_has (map trim_space l) s ≡ true) trim_manage
        (has-map-trim_space l permissions_manage h) in
    ground (arith, trimmed, has-normalize_permission_set l permissions_manage)

uncovered : is_covered permissions_manage ≡ false
unfolding is_covered
uncovered = refl

unmanaged :
    (capabilities : List String)
    → manages capabilities ≡ false
    → socket_allows capabilities permissions_manage ≡ false
unmanaged capabilities h = ground (
  arith,
  h,
  uncovered,
  manages_of capabilities,
  socket_allows-has capabilities permissions_manage,
)

module _ (host : Host) (fetch : Config → String → Option Fields) where
  -- A socket whose set does not hold `permissions.manage` gets an error from the permissions
  -- service, whatever it calls, and changes nothing.
  pub handle_permissions-denied :
      (auth : SocketAuthentication) (socket : ℕ) (now : Time) (method : String) (args : Fields)
      (agent : Agent)
      → manages auth.capabilities ≡ false
      → handle_permissions host fetch (some auth) socket now method args agent
        ≡ (err permission_denied, agent)
  unfolding handle_permissions
  handle_permissions-denied auth socket now method args agent h =
      rw (unmanaged auth.capabilities h) refl

  untrusted :
      (end : Outcome × Agent) (auth : SocketAuthentication)
      → OutcomeBounded false end
      → end.0 ≡ accepted auth
      → manages auth.capabilities ≡ false
  unfolding OutcomeBounded
  untrusted (accepted found, agent) auth b e =
      let same : found ≡ auth = cc e in
      subst (λ (a : SocketAuthentication). manages a.capabilities ≡ false) same
        (ground (arith, b.0))
  untrusted (refused refusal, agent) auth b e = absurd (ground (arith, e))
  untrusted (waits waiting, agent) auth b e = absurd (ground (arith, e))

  -- A key that pairs from an origin that is no authority origin cannot manage permissions: where
  -- the saved grants and pre-approvals keep the invariant and the pairing is accepted, every call of
  -- the permissions service on that socket is refused and changes nothing.
  pub pair_unknown_identity-denied :
      (now : Time) (draws : List (Option (String × String))) (sent : Bool) (config : Config)
      (init : DirectLocalInit) (proof : DirectLocalProof) (nonce origin : String) (agent : Agent)
      (auth : SocketAuthentication) (socket : ℕ) (later : Time) (method : String) (args : Fields)
      (after : Agent)
      → OnlyAuthorityManages agent
      → is_authority_origin host config origin ≡ false
      → (pair_unknown_identity host fetch now draws sent config init proof nonce origin agent).0
        ≡ accepted auth
      → handle_permissions host fetch (some auth) socket later method args after
        ≡ (err permission_denied, after)
  pair_unknown_identity-denied now draws sent config init proof nonce origin agent auth socket later
        method args after c o e =
      let bounded =
        pair_unknown_identity-OutcomeBounded host fetch now draws sent config init proof nonce
          origin agent c in
      let end =
        pair_unknown_identity host fetch now draws sent config init proof nonce origin agent in
      let low : OutcomeBounded false end = subst (λ t. OutcomeBounded t end) o bounded in
      handle_permissions-denied auth socket later method args after (untrusted end auth low e)
