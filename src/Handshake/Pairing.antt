-- ===== src/Handshake/Pairing.antt =====
-- shellagent/browser_identity.go: pairUnknownIdentity, recordAuthorityIdentity and
-- authenticateDirectLocal.
pub mod Bounds
pub mod Whole
use dynapp_agent.Prelude.{
  ℕ, String, Bool, true, false, ◌||◌, ◌&&◌, List, [], ◌∷◌, ◌==◌, if◌then◌else◌, not, Option, none,
  some, nat_eq,
}
use dynapp_agent.Types.{
  Host, Json, Fields, Config, Connect, BrowserIdentity, BrowserJwk, BrowserClient, ResolvedApp,
  SocketAuthentication, DirectLocalInit, DirectLocalProof, DirectLocalApp,
}
use dynapp_agent.Types.Numbers.{ℤ, pos, negsuc, ltb_ℤ, Time, unix_milli}
use dynapp_agent.Sets.{normalize_permission_set, union_strings, subtract_strings}
use dynapp_agent.Origins.{is_authority_origin, catalog_app_id, parse_origin, origin_equivalent}
use dynapp_agent.Apps.{
  resolve_app, resolve_manifest_app, normalize_permission_list, connect_from_init,
}
use dynapp_agent.Client.{empty_client, apply_browser_client}
use dynapp_agent.Grants.{
  match_direct_local_identity, verify_browser_proof, is_valid_identity, find_approved_app_grant,
  merge_synced_identities,
}
use dynapp_agent.Permissions.{
  permissions_manage, Agent, PreApproval, PendingRequest, pairing, RequestTemplate,
  register_pending, consume_pre_approval, await_decision, unregister_pending, Wake, Result, ok, err,
}
use dynapp_agent.Permissions.Edit.{upsert_browser_identity, with_identities, notify}
use dynapp_agent.Handshake.{
  Refusal, probe, aborted, rejected, declined, Waiting, Outcome, accepted, refused, waits,
  auth_for_identity, granted_identity, continue_paired_identity,
}

-- The identity of a key that is not known yet.
new_identity : BrowserJwk → DirectLocalProof → BrowserIdentity
new_identity key proof = record {
  key_id = proof.key_id;
  public_key_jwk = key;
  origin = proof.origin;
  capabilities = [];
  store_id = "";
  connect = [];
  approved_at = pos 0;
  declared = [];
  authority = false;
  client = empty_client;
}

-- What the catalog declares, or, where its manifest cannot be read, what the client says.
declared_by_init : Host → Option DirectLocalApp → List String × Connect
declared_by_init host none = ([], [])
declared_by_init host (some app) =
    let connect : Connect = elim (connect_from_init host app.connect) [
      | none ↦ []
      | some patterns ↦ patterns
    ] in
    (normalize_permission_list host app.declared_permissions, connect)

-- A grant for an app is written and announced.
grant_app :
    Time → List String → List String → ResolvedApp → BrowserIdentity → Agent → Outcome × Agent
unfolding granted_identity
grant_app now granted declared app identity agent =
    let written = record (granted_identity now granted declared app identity) {
      store_id = app.store_id;
    } in
    (
      accepted (auth_for_identity written (some app)),
      notify (upsert_browser_identity written agent),
    )

-- What the test carrier grants: all that the app declares.
auto_approved_identity : Time → ResolvedApp → BrowserIdentity → BrowserIdentity
auto_approved_identity now app identity = record identity {
  store_id = app.store_id;
  capabilities = normalize_permission_set app.declared;
  declared = normalize_permission_set app.declared;
  connect = app.connect;
  approved_at = unix_milli now;
}

-- The request that is registered for a pairing.
pub pairing_request : ResolvedApp → BrowserIdentity → RequestTemplate
pairing_request app identity = record {
  kind = pairing;
  store_id = app.store_id;
  app_name = app.name;
  origin = identity.origin;
  development = app.development;
  declared = app.declared;
}

-- What a read of the socket brings: nothing, a text that does not decode, or a record.
pub data Delivery {ℓ} (A : Type ℓ) : Type ℓ where
  read_failed : Delivery A
  undecodable : Delivery A
  delivered : A → Delivery A

module _ (host : Host) (fetch : Config → String → Option Fields) where
  -- The identity that recordAuthorityIdentity writes.
  unfoldable pub authority_identity :
      Time → Config → Option DirectLocalApp → BrowserIdentity → BrowserIdentity
  unfolding declared_by_init
  authority_identity now config app identity =
      let catalog = catalog_app_id host config in
      let (declared, connect) : List String × Connect =
        elim (resolve_manifest_app host fetch config catalog) [
          | some resolved ↦ (resolved.declared, resolved.connect)
          | none ↦ declared_by_init host app
        ] in
      let capabilities = union_strings declared (permissions_manage ∷ []) in
      record identity {
        authority = true;
        store_id = catalog;
        capabilities = capabilities;
        declared = capabilities;
        connect = connect;
        approved_at = unix_milli now;
      }

  record_authority_identity :
      Time → Config → Option DirectLocalApp → BrowserIdentity → Agent → Outcome × Agent
  unfolding authority_identity
  record_authority_identity now config app identity agent =
      let written = authority_identity now config app identity in
      (accepted (auth_for_identity written none), notify (upsert_browser_identity written agent))

  -- A request is made for the authority's decision. `sent` is the result of sendPending.
  ask_authority :
      Time
      → List (Option (String × String))
      → Bool
      → ResolvedApp
      → BrowserIdentity
      → Agent
      → Outcome × Agent
  ask_authority now draws sent app identity agent =
      let (result, registered) = register_pending now draws (pairing_request app identity) agent in
      elim result [
        | err _ ↦ (refused rejected, registered)
        | ok _ ↦ elim registered.requests [
          | [] ↦ (refused rejected, registered)
          | request ∷ _ ↦
              let waiting : Waiting = record {
                identity = identity;
                app = app;
                request = request;
              } in
              if sent
              then (waits waiting, registered)
              else (refused aborted, unregister_pending request.id registered)
        ]
      ]

  -- The branches without a pre-approval.
  pair_by_grant :
      Time
      → List (Option (String × String))
      → Bool
      → DirectLocalProof
      → ResolvedApp
      → BrowserIdentity
      → Agent
      → Outcome × Agent
  unfolding ask_authority grant_app auto_approved_identity
  pair_by_grant now draws sent proof app identity agent =
      elim (find_approved_app_grant host agent.config.browser_identities proof.origin
        app.store_id) [
          | some existing ↦
              let declared = union_strings existing.declared app.declared in
              grant_app now existing.capabilities declared app identity agent
          | none ↦
              let written = auto_approved_identity now app identity in
              if agent.auto_approve_pairings
              then (
                accepted (auth_for_identity written (some app)),
                upsert_browser_identity written agent,
              )
              else ask_authority now draws sent app identity agent
        ]

  pair_with_app :
      Time
      → List (Option (String × String))
      → Bool
      → DirectLocalProof
      → ResolvedApp
      → BrowserIdentity
      → Agent
      → Outcome × Agent
  unfolding grant_app pair_by_grant
  pair_with_app now draws sent proof resolved identity agent =
      let app : ResolvedApp = record resolved {
        declared = subtract_strings resolved.declared (permissions_manage ∷ []);
      } in
      let (approval, agent') = consume_pre_approval now resolved.store_id agent in
      elim approval [
        | some approved ↦ grant_app now approved.capabilities app.declared app identity agent'
        | none ↦ pair_by_grant now draws sent proof app identity agent'
      ]

  -- The part of pairUnknownIdentity behind the checks of the key and the proof.
  pair_verified :
      Time
      → List (Option (String × String))
      → Bool
      → Config
      → DirectLocalInit
      → DirectLocalProof
      → String
      → BrowserIdentity
      → Agent
      → Outcome × Agent
  unfolding record_authority_identity pair_with_app
  pair_verified now draws sent config init proof request_origin identity agent =
      if is_authority_origin host config request_origin
      then record_authority_identity now config init.app identity agent
      else elim (resolve_app host fetch agent.config request_origin init) [
        | none ↦ (refused rejected, agent)
        | some resolved ↦ pair_with_app now draws sent proof resolved identity agent
      ]

  pair_with_key :
      Time
      → List (Option (String × String))
      → Bool
      → Config
      → DirectLocalInit
      → DirectLocalProof
      → String
      → String
      → Agent
      → Option BrowserJwk
      → Outcome × Agent
  unfolding pair_verified new_identity
  pair_with_key now draws sent config init proof nonce request_origin agent none =
      (refused rejected, agent)
  pair_with_key now draws sent config init proof nonce request_origin agent (some key) =
      let (identity, _) = apply_browser_client host (new_identity key proof) init.client in
      if not (ltb_ℤ (pos 1) init.version)
        || not (is_valid_identity host identity)
        || not (verify_browser_proof host identity nonce proof.origin proof.signature)
      then (refused rejected, agent)
      else pair_verified now draws sent config init proof request_origin identity agent

  unfoldable pub pair_unknown_identity :
      Time
      → List (Option (String × String))
      → Bool
      → Config
      → DirectLocalInit
      → DirectLocalProof
      → String
      → String
      → Agent
      → Outcome × Agent
  unfolding pair_with_key
  pair_unknown_identity now draws sent config init proof nonce request_origin agent =
      pair_with_key now draws sent config init proof nonce request_origin agent init.public_key_jwk

  -- The rest of pairUnknownIdentity, once the wait for the decision ends.
  unfoldable pub finish_pairing : Time → Wake → Waiting → Agent → Outcome × Agent
  unfolding grant_app
  finish_pairing now wake waiting agent =
      let (granted, agent') = await_decision wake waiting.request agent in
      elim granted [
        | none ↦ (refused declined, agent')
        | some capabilities ↦
            grant_app now capabilities waiting.app.declared waiting.app waiting.identity agent'
      ]

  proof_is_acceptable : String → DirectLocalProof → Bool
  proof_is_acceptable request_origin proof =
      proof.kind == "dynapp-direct-local-auth"
      && (elim proof.version [ pos n ↦ nat_eq n 1 | negsuc _ ↦ false ]
          && (elim (parse_origin host proof.origin) [ none ↦ false | some _ ↦ true ]
              && (origin_equivalent host proof.origin request_origin
                  || proof.origin == request_origin)))

  -- The identities of the account, where they can be fetched, are merged in and searched again.
  authenticate_by_sync :
      Time
      → List (Option (String × String))
      → Bool
      → Option (List BrowserIdentity)
      → String
      → DirectLocalInit
      → DirectLocalProof
      → String
      → Agent
      → Outcome × Agent
  unfolding pair_unknown_identity
  authenticate_by_sync now draws sent none nonce init proof request_origin agent =
      pair_unknown_identity now draws sent agent.config init proof nonce request_origin agent
  authenticate_by_sync now draws sent (some fresh) nonce init proof request_origin agent =
      let merged = merge_synced_identities host agent.config.browser_identities fresh in
      let synced = with_identities merged agent in
      elim (match_direct_local_identity host merged init proof nonce request_origin) [
        | some identity ↦
            let (auth, after) =
              continue_paired_identity host fetch agent.config identity init request_origin now
                synced in
            (accepted auth, after)
        | none ↦
            pair_unknown_identity now draws sent agent.config init proof nonce request_origin synced
      ]

  -- A proof that was decoded is checked, and its key searched among the saved identities.
  authenticate_by_match :
      Time
      → List (Option (String × String))
      → Bool
      → Option (List BrowserIdentity)
      → String
      → DirectLocalInit
      → DirectLocalProof
      → String
      → Agent
      → Outcome × Agent
  unfolding authenticate_by_sync proof_is_acceptable
  authenticate_by_match now draws sent sync nonce init proof request_origin agent =
      let matched : Outcome × Agent =
        elim (match_direct_local_identity host agent.config.browser_identities init proof nonce
          request_origin) [
            | some identity ↦
                let (auth, after) =
                  continue_paired_identity host fetch agent.config identity init request_origin now
                    agent in
                (accepted auth, after)
            | none ↦ authenticate_by_sync now draws sent sync nonce init proof request_origin agent
          ] in
      if not (proof_is_acceptable request_origin proof) then (refused rejected, agent) else matched

  authenticate_by_proof :
      Time
      → List (Option (String × String))
      → Bool
      → Option (List BrowserIdentity)
      → String
      → DirectLocalInit
      → Delivery DirectLocalProof
      → String
      → Agent
      → Outcome × Agent
  unfolding authenticate_by_match
  authenticate_by_proof now draws sent sync nonce init read_failed request_origin agent =
      (refused aborted, agent)
  authenticate_by_proof now draws sent sync nonce init undecodable request_origin agent =
      (refused rejected, agent)
  authenticate_by_proof now draws sent sync nonce init (delivered proof) request_origin agent =
      authenticate_by_match now draws sent sync nonce init proof request_origin agent

  -- authenticateDirectLocal. `init` and `proof` are what the socket delivers, `nonce` is the
  -- challenge, `sync` is the result of SyncBrowserIdentities.
  pub authenticate_direct_local :
      Time
      → List (Option (String × String))
      → Bool
      → Option (List BrowserIdentity)
      → String
      → Delivery DirectLocalInit
      → Delivery DirectLocalProof
      → String
      → Agent
      → Outcome × Agent
  unfolding authenticate_by_proof
  authenticate_direct_local now draws sent sync nonce read_failed proof request_origin agent =
      (refused aborted, agent)
  authenticate_direct_local now draws sent sync nonce undecodable proof request_origin agent =
      (refused rejected, agent)
  authenticate_direct_local now draws sent sync nonce (delivered init) proof request_origin agent =
      if not (elim init.version [ pos n ↦ nat_eq n 1 || nat_eq n 2 | negsuc _ ↦ false ])
      then (refused rejected, agent)
      else if init.kind == "dynapp-direct-local-probe"
      then (refused probe, agent)
      else if not (init.kind == "dynapp-direct-local-init")
      then (refused rejected, agent)
      else authenticate_by_proof now draws sent sync nonce init proof request_origin agent
