-- ===== src/Examples.antt =====
-- The theorems applied to the small agent of Examples/Samples.antt.
pub mod Samples
mod Traffic
mod Services
mod Formats
use mathlib.Core.List.{Memᴰ}
use dynapp_agent.Prelude.{
  String, Bool, true, false, ◌||◌, ◌&&◌, List, [], ◌∷◌, ◌==◌, ◌≡◌, ◌≤◌, ◌↔◌, ◌⊎◌, refl,
  if◌then◌else◌, not, Option, none, some, arith, All, ltb,
}
use dynapp_agent.Text.{sort_strings, trim_space}
use dynapp_agent.Types.{
  Host, number, text, array, nil, cons, Fields, end, field, Config, BrowserIdentity, BrowserJwk,
  BrowserClient, ResolvedApp, NativeApp, lookup_field, string_list, DirectLocalInit,
  DirectLocalProof, Url,
}
use dynapp_agent.Types.Numbers.{pos}
use dynapp_agent.Sets.{
  string_slice_has, normalize_permission_set, union_strings, intersect_strings, same_capability_set,
}
use dynapp_agent.Sets.Membership.{has-union_strings, normalize_permission_set-IsTrimmed}
use dynapp_agent.Sets.Canonical.{
  SameMembers, same_capability_set_iff, normalize_permission_set_idem,
}
use dynapp_agent.Catalog.{group_permissions, low}
use dynapp_agent.Catalog.Groups.{
  is_known, held, tier, members, worst, held-group_permissions, tier-group_permissions,
}
use dynapp_agent.Origins.{is_authority_origin}
use dynapp_agent.Access.{socket_allows}
use dynapp_agent.Access.Gate.{IsRemoteOperation, socket_allows_iff}
use dynapp_agent.Grants.{
  has_key, find_identity, upsert_identity, remove_identity, find_approved_app_grant,
}
use dynapp_agent.Grants.Lookup.{same_key, find-upsert_identity, find-remove_identity}
use dynapp_agent.Grants.Approved.{IsBestGrant, find_approved_app_grant-IsBestGrant}
use dynapp_agent.Permissions.{
  permissions_manage, Agent, closed, capability_arg, PendingRequest, PreApproval, pairing,
  RequestTemplate, decided, permission_denied, err, count_registered, is_taken, register_pending,
  consume_pre_approval, preapprove_permissions, close_sockets_bound_to, track_live_socket,
  decide_permissions,
}
use dynapp_agent.Permissions.Requests.{register_pending-count}
use dynapp_agent.Permissions.Decisions.{
  AreApart, IsDecidedWithin, stands_apart, register_pending-AreApart,
  decide_permissions-IsDecidedWithin, register_pending-IsDecidedWithin,
}
use dynapp_agent.Permissions.PreApprovals.{
  LeavesApproval, consume_pre_approval-once, preapprove_permissions-consume_pre_approval,
}
use dynapp_agent.Permissions.Edit.{
  Selector, service_restart, pairing_declined, clamp_request, update_identity, revoke_identity,
  update_grant, revoke_grant,
}
use dynapp_agent.Permissions.Clamp.{clamp_request-has}
use dynapp_agent.Permissions.Saved.{
  LeavesEdit, LeavesRevocation, update_identity-find, revoke_identity-find,
}
use dynapp_agent.Permissions.Service.{handle_permissions}
use dynapp_agent.Handshake.{Waiting, auth_for_identity, continue_paired_identity}
use dynapp_agent.Handshake.Pairing.{
  pair_unknown_identity, finish_pairing, authenticate_direct_local, delivered,
}
use dynapp_agent.Handshake.Pairing.Bounds.{
  OutcomeBounded, pair_unknown_identity-OutcomeBounded, finish_pairing-OutcomeBounded,
}
use dynapp_agent.Handshake.Pairing.Whole.{authenticate_direct_local-OnlyAuthorityManages}
use dynapp_agent.Permissions.Edit.Native.{
  is_contained_app, OnlyAuthorityAppsManage, update_grant-AuthorityManages,
}
use dynapp_agent.Permissions.Closing.{IsLiveUnder, update_identity-closes}
use dynapp_agent.Handshake.Invariant.{manages, is_contained, OnlyAuthorityManages}
use dynapp_agent.Handshake.Contained.{Bounded, continue_paired_identity-Bounded}
use dynapp_agent.Handshake.Effective.{auth_for_identity-within, handle_permissions-denied}
use dynapp_agent.Examples.Samples.{
  sample_url, sample_parse, sample_host, no_fetch, sample_jwk, sample_client, sample_identity,
  authority, notes, sample_config, sample_approval, sample_request, sample_agent,
  sample_agent-OnlyAuthorityManages, sample_app, sample_init, sample_proof, sample_draws,
  sample_template, sample_waiting, decide_args, preapprove_args, notes_selector, update_args,
  live_agent,
}

pair_unknown_identity-OutcomeBounded_example :
    OutcomeBounded (is_authority_origin sample_host sample_config "http://127.0.0.1:8080") (
      pair_unknown_identity sample_host no_fetch 100 sample_draws true sample_config sample_init
        sample_proof "nonce" "http://127.0.0.1:8080" sample_agent)
pair_unknown_identity-OutcomeBounded_example =
    pair_unknown_identity-OutcomeBounded sample_host no_fetch 100 sample_draws true sample_config
      sample_init sample_proof "nonce" "http://127.0.0.1:8080" sample_agent
      sample_agent-OnlyAuthorityManages

continue_paired_identity-Bounded_example : Bounded false (
    continue_paired_identity sample_host no_fetch sample_config notes sample_init
      "http://127.0.0.1:8080" 100 sample_agent)
continue_paired_identity-Bounded_example =
    continue_paired_identity-Bounded sample_host no_fetch sample_config notes sample_init
      "http://127.0.0.1:8080" 100 sample_agent (sample_agent-OnlyAuthorityManages.0.1.0)
      sample_agent-OnlyAuthorityManages

finish_pairing-OutcomeBounded_example : OutcomeBounded false (
    finish_pairing sample_host no_fetch 100
      (decided (some ("fs.read" ∷ "permissions.manage" ∷ [])))
      sample_waiting
      sample_agent)
unfolding manages normalize_permission_set string_slice_has sort_strings trim_space
finish_pairing-OutcomeBounded_example =
    finish_pairing-OutcomeBounded sample_host no_fetch 100
      (decided (some ("fs.read" ∷ "permissions.manage" ∷ []))) sample_waiting sample_agent refl refl
      sample_agent-OnlyAuthorityManages

handle_permissions-denied_example :
    handle_permissions sample_host no_fetch
      (some (auth_for_identity notes (some sample_app)))
      3
      100
      "decide"
      decide_args
      sample_agent
    ≡ (err permission_denied, sample_agent)
unfolding manages normalize_permission_set string_slice_has auth_for_identity intersect_strings
    sort_strings trim_space
handle_permissions-denied_example =
    handle_permissions-denied sample_host no_fetch (auth_for_identity notes (some sample_app)) 3 100
      "decide" decide_args sample_agent refl

auth_for_identity-within_example :
    (string_slice_has (normalize_permission_set notes.capabilities) "fs.read"
      && string_slice_has (normalize_permission_set sample_app.declared) "fs.read")
    ≡ true
unfolding auth_for_identity normalize_permission_set string_slice_has intersect_strings sort_strings
    trim_space
auth_for_identity-within_example = auth_for_identity-within notes sample_app "fs.read" refl

preapprove_permissions-consume_pre_approval_example :
    LeavesApproval 100 200 sample_agent
      (preapprove_permissions sample_host 100 preapprove_args sample_agent)
preapprove_permissions-consume_pre_approval_example =
    preapprove_permissions-consume_pre_approval sample_host 100 200 preapprove_args sample_agent

consume_pre_approval-once_example :
    (consume_pre_approval 200 "ann/notes" (consume_pre_approval 100 "ann/notes" sample_agent).1).0
    ≡ (if "ann/notes" == "ann/notes"
        then none
        else (consume_pre_approval 200 "ann/notes" sample_agent).0)
consume_pre_approval-once_example =
    consume_pre_approval-once 100 200 "ann/notes" "ann/notes" sample_agent

register_pending-AreApart_example :
    AreApart (register_pending 100 sample_draws sample_template sample_agent).1.requests
unfolding stands_apart is_taken
register_pending-AreApart_example =
    register_pending-AreApart 100 sample_draws sample_template sample_agent (refl, tt)

register_pending-count_example :
    count_registered (register_pending 100 sample_draws sample_template sample_agent).1.requests
    ≤ 32
unfolding count_registered
register_pending-count_example =
    register_pending-count 100 sample_draws sample_template sample_agent (omega arith)

decide_permissions-IsDecidedWithin_example :
    All IsDecidedWithin (decide_permissions sample_host 100 decide_args sample_agent).1.requests
decide_permissions-IsDecidedWithin_example =
    decide_permissions-IsDecidedWithin sample_host 100 decide_args sample_agent (tt, tt)

register_pending-IsDecidedWithin_example :
    All IsDecidedWithin (register_pending 100 sample_draws sample_template sample_agent).1.requests
register_pending-IsDecidedWithin_example =
    register_pending-IsDecidedWithin 100 sample_draws sample_template sample_agent (tt, tt)

clamp_request-has_example :
    string_slice_has
      (clamp_request
        ("fs.read" ∷ [])
        false
        (normalize_permission_set ("fs.read" ∷ "permissions.manage" ∷ [])))
      "permissions.manage"
    ≡ (not ("permissions.manage" == "")
        && (if permissions_manage == "permissions.manage"
            then false
            else string_slice_has
                (normalize_permission_set ("fs.read" ∷ "permissions.manage" ∷ []))
                "permissions.manage"
              && (not (ltb 0 1) || string_slice_has ("fs.read" ∷ []) "permissions.manage")))
clamp_request-has_example =
    clamp_request-has ("fs.read" ∷ []) false
      (normalize_permission_set ("fs.read" ∷ "permissions.manage" ∷ [])) "permissions.manage"
      (normalize_permission_set-IsTrimmed ("fs.read" ∷ "permissions.manage" ∷ []))

update_identity-find_example :
    LeavesEdit notes_selector.key_id notes_selector.origin notes_selector.store_id sample_agent
      (update_identity sample_host no_fetch 100 notes_selector decide_args sample_agent)
update_identity-find_example =
    update_identity-find sample_host no_fetch 100 notes_selector decide_args sample_agent
      notes_selector.key_id notes_selector.origin notes_selector.store_id

revoke_identity-find_example :
    LeavesRevocation notes_selector notes_selector.key_id notes_selector.origin
      notes_selector.store_id sample_agent
      (revoke_identity sample_host no_fetch notes_selector sample_agent)
revoke_identity-find_example =
    revoke_identity-find sample_host no_fetch notes_selector sample_agent notes_selector.key_id
      notes_selector.origin notes_selector.store_id

find_approved_app_grant-IsBestGrant_example :
    IsBestGrant sample_host "http://127.0.0.1:8080" "ann/notes" (authority ∷ notes ∷ []) (
      find_approved_app_grant sample_host
        (authority ∷ notes ∷ [])
        "http://127.0.0.1:8080"
        "ann/notes")
find_approved_app_grant-IsBestGrant_example =
    find_approved_app_grant-IsBestGrant sample_host "http://127.0.0.1:8080" "ann/notes"
      (authority ∷ notes ∷ [])

same_capability_set_iff_example :
    (same_capability_set ("a" ∷ "b" ∷ []) ("b" ∷ "a" ∷ "b" ∷ []) ≡ true)
    ↔ SameMembers ("a" ∷ "b" ∷ []) ("b" ∷ "a" ∷ "b" ∷ [])
same_capability_set_iff_example = same_capability_set_iff ("a" ∷ "b" ∷ []) ("b" ∷ "a" ∷ "b" ∷ [])

authenticate_direct_local-OnlyAuthorityManages_example :
    OnlyAuthorityManages
      (authenticate_direct_local sample_host no_fetch 100 sample_draws true
        (some (authority ∷ []))
        "nonce"
        (delivered sample_init)
        (delivered sample_proof)
        "http://127.0.0.1:8080"
        sample_agent).1
authenticate_direct_local-OnlyAuthorityManages_example =
    authenticate_direct_local-OnlyAuthorityManages sample_host no_fetch 100 sample_draws true
      (some (authority ∷ [])) "nonce" (delivered sample_init) (delivered sample_proof)
      "http://127.0.0.1:8080" sample_agent (sample_agent-OnlyAuthorityManages.0.0, tt)
      sample_agent-OnlyAuthorityManages

socket_allows_iff_example : (socket_allows ("fs.remote" ∷ []) "fs.list" ≡ true) ↔ (
    (◌≡◌ {A = String} "fs.list" "")
    ⊎ (Memᴰ {A = String} "fs.list" ("fs.remote" ∷ [])
        ⊎ (Memᴰ {A = String} "fs.remote" ("fs.remote" ∷ []) × IsRemoteOperation "fs.list")))
socket_allows_iff_example = socket_allows_iff ("fs.remote" ∷ []) "fs.list"

-- An agent with a native app, and an edit of its grant that asks for too much.
abbrev native_notes : NativeApp
native_notes = record {
  store_id = "ann/notes";
  name = "notes";
  origin = "http://127.0.0.1:8080";
  path = "/opt/notes";
  capabilities = "fs.read" ∷ [];
  declared = "fs.read" ∷ [];
  connect = [];
  approved_at = pos 0;
  authority = false;
}

abbrev native_agent : Agent
native_agent = record sample_agent {
  config = record sample_config { native_apps = native_notes ∷ [] };
}

abbrev native_args : Fields
native_args = field "keyId" (text "native:ann/notes") (
    field "origin" (text "http://127.0.0.1:8080")
      (field "capabilities" (array (cons (text "permissions.manage") nil)) end))

native_agent-OnlyAuthorityAppsManage : OnlyAuthorityAppsManage native_agent
unfolding is_contained_app manages normalize_permission_set string_slice_has sort_strings trim_space
native_agent-OnlyAuthorityAppsManage = (refl, tt)

update_grant-AuthorityManages_example :
    OnlyAuthorityManages (update_grant sample_host no_fetch 100 native_args native_agent).1
    × OnlyAuthorityAppsManage (update_grant sample_host no_fetch 100 native_args native_agent).1
update_grant-AuthorityManages_example =
    update_grant-AuthorityManages sample_host no_fetch 100 native_args native_agent
      sample_agent-OnlyAuthorityManages native_agent-OnlyAuthorityAppsManage

-- The agent with a socket for the app.
abbrev open_agent : Agent
open_agent = record sample_agent {
  live = record { socket = 7; auth = auth_for_identity notes (some sample_app) } ∷ [];
}

update_identity-closes_example :
    (Memᴰ
        (closed 7 service_restart)
        (update_identity sample_host no_fetch 100 notes_selector decide_args open_agent).1.effects
      ↔ (IsLiveUnder notes 7 open_agent.live ⊎ Memᴰ (closed 7 service_restart) open_agent.effects))
    × (Memᴰ
          (closed 7 pairing_declined)
          (revoke_identity sample_host no_fetch notes_selector open_agent).1.effects
        ↔ (IsLiveUnder notes 7 open_agent.live
            ⊎ Memᴰ (closed 7 pairing_declined) open_agent.effects))
unfolding find_identity has_key capability_arg normalize_permission_set sort_strings trim_space
    lookup_field string_slice_has string_list
update_identity-closes_example =
    update_identity-closes sample_host no_fetch 100 notes_selector decide_args open_agent notes
      (normalize_permission_set ("fs.read" ∷ "fs.exec" ∷ [])) 7 refl refl
