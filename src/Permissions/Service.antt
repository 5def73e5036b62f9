-- ===== src/Permissions/Service.antt =====
-- handlePermissionsRPC of shellagent/permissions.go, and rpcCapability of shellagent/agent.go.
use dynapp_agent.Prelude.{
  ℕ, String, ◌∷◌, ◌==◌, if◌then◌else◌, not, Option, none, some, nat_eq, any_of,
}
use dynapp_agent.Types.{Host, Fields, Config, SocketAuthentication}
use dynapp_agent.Types.Numbers.{Time}
use dynapp_agent.Access.{socket_allows}
use dynapp_agent.Permissions.{
  permissions_manage, Agent, PreApproval, Decided, permission_denied, unsupported_method, Result,
  ok, err, decide_permissions, preapprove_permissions,
}
use dynapp_agent.Permissions.Edit.{Grant, update_grant, revoke_grant}

-- What the service answers. The text of a listing is not modelled.
pub data Answer : Type 0 where
  listing : Answer
  decided_as : Decided → Answer
  grant : Grant → Answer
  preapproved_as : PreApproval → Answer
  subscribed : Answer

answer_as : {A : Type 0} → (A → Answer) → Result A × Agent → Result Answer × Agent
answer_as f (ok a, agent) = (ok (f a), agent)
answer_as f (err e, agent) = (err e, agent)

-- The map of subscribers holds a socket once.
subscribe : ℕ → Agent → Agent
subscribe socket agent = record agent {
  subscribers =
      if any_of (nat_eq socket) agent.subscribers
      then agent.subscribers
      else socket ∷ agent.subscribers;
}

module _ (host : Host) (fetch : Config → String → Option Fields) where
  dispatch : ℕ → Time → String → Fields → Agent → Result Answer × Agent
  unfolding answer_as subscribe
  dispatch socket now method args agent =
      if method == "list"
      then (ok listing, agent)
      else if method == "decide"
      then answer_as decided_as (decide_permissions host now args agent)
      else if method == "update"
      then answer_as grant (update_grant host fetch now args agent)
      else if method == "revoke"
      then answer_as grant (revoke_grant host fetch args agent)
      else if method == "preapprove"
      then answer_as preapproved_as (preapprove_permissions host now args agent)
      else if method == "subscribe"
      then (ok subscribed, subscribe socket agent)
      else (err unsupported_method, agent)

  unfoldable pub handle_permissions :
      Option SocketAuthentication → ℕ → Time → String → Fields → Agent → Result Answer × Agent
  unfolding dispatch
  handle_permissions none socket now method args agent = (err permission_denied, agent)
  handle_permissions (some auth) socket now method args agent =
      let served = dispatch socket now method args agent in
      if not (socket_allows auth.capabilities permissions_manage)
      then (err permission_denied, agent)
      else served
