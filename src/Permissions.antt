-- ===== src/Permissions.antt =====
-- shellagent/permissions.go: the registry of requests that wait for the authority's decision, the
-- decisions made before a launch, and the edits of saved grants.
pub mod Requests
pub mod Decisions
pub mod PreApprovals
pub mod Edit
pub mod Clamp
pub mod Saved
pub mod Closing
pub mod Service
use Prim.Native.String.{len}
use dynapp_agent.Prelude.{
  ℕ, zero, suc, ◌+◌, ◌*◌, String, Bool, true, false, ◌||◌, ◌&&◌, List, [], ◌∷◌, ◌++◌, ◌==◌,
  if◌then◌else◌, ◌≡◌, refl, not, starts_with, Option, none, some, nat_eq, leb, ltb, any_of, keep_if,
  length, map,
}
use dynapp_agent.Text.{trim_space, trim_prefix, sort_strings}
use dynapp_agent.Types.{
  Host, Json, null, boolean, number, text, array, object, Items, nil, cons, Fields, end, field,
  Config, BrowserIdentity, NativeApp, ResolvedApp, SocketAuthentication, lookup_field, string_value,
  string_list,
}
use dynapp_agent.Types.Numbers.{
  ℤ, pos, negsuc, ltb_ℤ, is_zero, Time, wrap_mul, add_duration, unix_milli,
}
use dynapp_agent.Sets.{normalize_permission_set, union_strings, subtract_strings, intersect_strings}
use dynapp_agent.Origins.{valid_store_id}
use dynapp_agent.Grants.{
  native_key_prefix, find_identity, upsert_identity, remove_identity, native_app, upsert_native_app,
  is_valid_native_app,
}

abbrev pub permissions_manage : String
permissions_manage = "permissions.manage"

-- pendingRequestTTL, defaultPreApprovalTTL and maxPreApprovalTTL, in nanoseconds.
abbrev pub pending_request_ttl : ℕ
pending_request_ttl = 600_000_000_000

abbrev pub default_pre_approval_ttl : ℕ
default_pre_approval_ttl = 600_000_000_000

abbrev pub max_pre_approval_ttl : ℕ
max_pre_approval_ttl = 3_600_000_000_000

-- "pairing" or "delta"
pub data RequestKind : Type 0 where
  pairing delta : RequestKind

-- What the channel of a request carries: nothing yet, `some none` for a refusal, or the granted set.
abbrev pub Decision : Type 0
Decision = Option (Option (List String))

-- pendingRequest. `registered` says that the map `pending` holds the request under its id.
pub record PendingRequest : Type 0 where
  pub id : String
  pub code : String
  pub kind : RequestKind
  pub store_id : String
  pub app_name : String
  pub origin : String
  pub development : Bool
  pub declared : List String
  pub created_at : Time
  pub expires_at : Time
  pub decision : Decision
  pub registered : Bool

-- preApproval
pub record PreApproval : Type 0 where
  pub store_id : String
  pub capabilities : List String
  pub expires_at : Time

-- A socket of the map `live`, with its authentication, by number.
pub record LiveSocket : Type 0 where
  pub socket : ℕ
  pub auth : SocketAuthentication

-- What the agent does to the outside while it holds no lock: the close codes 4403 (pairing
-- declined) and 1012 (service restart), and the change event.
pub data Effect : Type 0 where
  closed : ℕ → ℕ → Effect
  notified : Effect

-- The state of the agent that these operations read and write. Requests that a socket still waits
-- for stay in `requests` when the map drops them; a request is known by its place in that list.
pub record Agent : Type 0 where
  pub config : Config
  pub requests : List PendingRequest
  pub preapproved : List PreApproval
  pub live : List LiveSocket
  pub subscribers : List ℕ
  pub effects : List Effect
  pub auto_approve_pairings : Bool

-- The error texts.
pub data Error : Type 0 where
  too_many_pending no_randomness no_code id_required no_pending : Error
  store_id_required capabilities_required selector_required no_grant : Error
  permission_denied unsupported_method : Error

pub data Result {ℓ} (A : Type ℓ) : Type ℓ where
  ok : A → Result A
  err : Error → Result A

-- pendingRequest.resolve: the first decision is the one that counts.
pub resolve : List String → Bool → PendingRequest → PendingRequest
resolve granted approved pending = elim pending.decision [
  | some _ ↦ pending
  | none ↦ record pending { decision = some (if approved then some granted else none) }
]

-- The sweep of registerPending: an expired request leaves the map.
pub sweep : Time → PendingRequest → PendingRequest
sweep now pending =
    if pending.registered && ltb pending.expires_at now
    then record pending { registered = false }
    else pending

unfoldable pub count_registered : List PendingRequest → ℕ
count_registered [] = 0
count_registered (pending ∷ requests) =
    (if pending.registered then 1 else 0) + count_registered requests

-- The `taken` loop.
unfoldable pub is_taken : String → String → List PendingRequest → Bool
is_taken code id requests =
    any_of
      (λ (pending : PendingRequest).
        pending.registered && (pending.code == code || pending.id == id))
      requests

-- The loop over the attempts. A draw is the next random code and id, or a failure of the source of
-- randomness.
pub allocate : ℕ → List (Option (String × String)) → List PendingRequest → Result (String × String)
unfolding is_taken
allocate zero draws requests = err no_code
allocate (suc attempts) [] requests = err no_randomness
allocate (suc attempts) (none ∷ draws) requests = err no_randomness
allocate (suc attempts) (some (code, id) ∷ draws) requests =
    let again = allocate attempts draws requests in
    if is_taken code id requests then again else ok (code, id)

-- What a caller fills in of a new request.
pub record RequestTemplate : Type 0 where
  pub kind : RequestKind
  pub store_id : String
  pub app_name : String
  pub origin : String
  pub development : Bool
  pub declared : List String

new_request : Time → String × String → RequestTemplate → PendingRequest
new_request now (code, id) template = record {
  id = id;
  code = code;
  kind = template.kind;
  store_id = template.store_id;
  app_name = template.app_name;
  origin = template.origin;
  development = template.development;
  declared = normalize_permission_set template.declared;
  created_at = now;
  expires_at = now + pending_request_ttl;
  decision = none;
  registered = true;
}

-- The registration itself: the map gets the request, the test carrier decides it at once.
add_request : Time → String × String → RequestTemplate → Agent → Agent
unfolding resolve new_request
add_request now drawn template agent =
    let pending = new_request now drawn template in
    record agent {
      requests =
          (if agent.auto_approve_pairings then resolve pending.declared true pending else pending)
          ∷ agent.requests;
      effects = notified ∷ agent.effects;
    }

-- registerPending. The request is the head of `requests` afterwards. An error leaves the swept map.
unfoldable pub register_pending :
    Time → List (Option (String × String)) → RequestTemplate → Agent → Result (Unit {0}) × Agent
unfolding add_request
register_pending now draws template agent =
    let swept = record agent { requests = map (sweep now) agent.requests } in
    if leb 32 (count_registered swept.requests)
    then (err too_many_pending, swept)
    else elim (allocate 16 draws swept.requests) [
      | err e ↦ (err e, swept)
      | ok drawn ↦ (ok tt, add_request now drawn template swept)
    ]

-- The request that the map `pending` holds under an id.
pub find_pending : String → List PendingRequest → Option PendingRequest
find_pending id [] = none
find_pending id (pending ∷ requests) =
    if pending.registered && pending.id == id then some pending else find_pending id requests

pub forget : String → List PendingRequest → List PendingRequest
forget id [] = []
forget id (pending ∷ requests) =
    (if pending.registered && pending.id == id
      then record pending { registered = false }
      else pending)
    ∷ forget id requests

-- unregisterPending
unfoldable pub unregister_pending : String → Agent → Agent
unfolding forget find_pending
unregister_pending id agent = elim (find_pending id agent.requests) [
  | none ↦ agent
  | some _ ↦ record agent {
    requests = forget id agent.requests;
    effects = notified ∷ agent.effects;
  }
]

-- How the wait of awaitDecision ends: with the value that the channel carries, at the deadline, or
-- with the socket.
pub data Wake : Type 0 where
  decided : Option (List String) → Wake
  expired cancelled : Wake

-- awaitDecision, from its end on: `none` is a refusal.
unfoldable pub await_decision : Wake → PendingRequest → Agent → Option (List String) × Agent
unfolding unregister_pending
await_decision (decided granted) pending agent = (granted, unregister_pending pending.id agent)
await_decision expired pending agent = (none, unregister_pending pending.id agent)
await_decision cancelled pending agent = (none, unregister_pending pending.id agent)

-- trackLiveSocket, and the function that it returns.
pub track_live_socket : ℕ → SocketAuthentication → Agent → Agent
track_live_socket socket auth agent = record agent {
  live = record { socket = socket; auth = auth } ∷ agent.live;
}

pub untrack_live_socket : ℕ → Agent → Agent
untrack_live_socket socket agent = record agent {
  live = keep_if (λ (entry : LiveSocket). not (nat_eq entry.socket socket)) agent.live;
  subscribers = keep_if (λ subscriber. not (nat_eq subscriber socket)) agent.subscribers;
}

-- The test of closeSocketsBoundTo on a live socket.
pub is_bound_to : BrowserIdentity → SocketAuthentication → Bool
is_bound_to identity auth =
    auth.key_id == identity.key_id
    && (auth.origin == identity.origin
        && (identity.store_id == "" || auth.store_id == identity.store_id))

pub close_targets : BrowserIdentity → ℕ → List LiveSocket → List Effect
unfolding is_bound_to
close_targets identity code [] = []
close_targets identity code (entry ∷ live) =
    let rest = close_targets identity code live in
    if is_bound_to identity entry.auth then closed entry.socket code ∷ rest else rest

unfoldable pub close_sockets_bound_to : BrowserIdentity → ℕ → Agent → Agent
close_sockets_bound_to identity code agent = record agent {
  effects = close_targets identity code agent.live ++ agent.effects;
}

is_null : Json → Bool
is_null null = true
is_null _ = false

-- capabilityArg: `none` where the list is missing or an explicit null.
unfoldable pub capability_arg : Fields → Option (List String)
unfolding is_null
capability_arg args =
    let value = lookup_field "capabilities" args in
    if is_null value then none else some (normalize_permission_set (string_list value))

-- The time to live of a pre-approval: milliseconds, turned into an int64 of nanoseconds, and cut at
-- one hour.
requested_ttl : Json → ℤ
requested_ttl (number n) =
    if ltb_ℤ (pos 0) n then wrap_mul n 1_000_000 else pos default_pre_approval_ttl
requested_ttl _ = pos default_pre_approval_ttl

pub pre_approval_ttl : Json → ℤ
unfolding requested_ttl
pre_approval_ttl value =
    let ttl = requested_ttl value in
    if ltb_ℤ (pos max_pre_approval_ttl) ttl then pos max_pre_approval_ttl else ttl

-- The map `preapproved`: a newer entry replaces the older one of its store id.
unfoldable pub find_pre_approval : String → List PreApproval → Option PreApproval
find_pre_approval store_id [] = none
find_pre_approval store_id (approval ∷ approvals) =
    if approval.store_id == store_id then some approval else find_pre_approval store_id approvals

unfoldable pub drop_pre_approval : String → List PreApproval → List PreApproval
drop_pre_approval store_id approvals =
    keep_if (λ (approval : PreApproval). not (approval.store_id == store_id)) approvals

pub preapprove_permissions : Host → Time → Fields → Agent → Result PreApproval × Agent
unfolding capability_arg pre_approval_ttl
preapprove_permissions host now args agent =
    let store_id = trim_space (string_value host (lookup_field "storeId" args)) in
    let ttl = pre_approval_ttl (lookup_field "expiresInMs" args) in
    if not (valid_store_id store_id)
    then (err store_id_required, agent)
    else elim (capability_arg args) [
      | none ↦ (err capabilities_required, agent)
      | some capabilities ↦
          let approval : PreApproval = record {
            store_id = store_id;
            capabilities = subtract_strings capabilities (permissions_manage ∷ []);
            expires_at = add_duration now ttl;
          } in
          (
            ok approval,
            record agent {
              preapproved = approval ∷ drop_pre_approval store_id agent.preapproved;
              effects = notified ∷ agent.effects;
            },
          )
    ]

-- consumePreApproval
unfoldable pub consume_pre_approval : Time → String → Agent → Option PreApproval × Agent
unfolding find_pre_approval drop_pre_approval
consume_pre_approval now store_id agent = elim (find_pre_approval store_id agent.preapproved) [
  | none ↦ (none, agent)
  | some approval ↦
      let rest = record agent { preapproved = drop_pre_approval store_id agent.preapproved } in
      (if ltb now approval.expires_at then some approval else none, rest)
]

-- What decide answers.
pub record Decided : Type 0 where
  pub id : String
  pub approved : Bool
  pub granted : List String

-- The write of `resolve` through the pointer that the map holds.
pub resolve_pending : String → List String → Bool → List PendingRequest → List PendingRequest
unfolding resolve
resolve_pending id granted approved [] = []
resolve_pending id granted approved (pending ∷ requests) =
    if pending.registered && pending.id == id
    then resolve granted approved pending ∷ requests
    else pending ∷ resolve_pending id granted approved requests

granted_set : Option (List String) → List String → List String
granted_set none declared = []
granted_set (some requested) declared = sort_strings (intersect_strings requested declared)

abbrev is_some : Option (List String) → Bool
is_some none = false
is_some (some _) = true

unfoldable pub decide_permissions : Host → Time → Fields → Agent → Result Decided × Agent
unfolding capability_arg granted_set
decide_permissions host now args agent =
    let id = trim_space (string_value host (lookup_field "id" args)) in
    if id == "" then (err id_required, agent) else elim (find_pending id agent.requests) [
      | none ↦ (err no_pending, agent)
      | some pending ↦
          let requested = capability_arg args in
          let granted = granted_set requested pending.declared in
          if ltb pending.expires_at now then (err no_pending, agent) else (
            ok (record { id = id; approved = is_some requested; granted = granted }),
            record agent {
              requests = resolve_pending id granted (is_some requested) agent.requests;
            },
          )
    ]
