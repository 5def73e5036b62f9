-- ===== src/Handshake/Pairing/Whole.antt =====
-- The whole handshake, authenticateDirectLocal of shellagent/browser_identity.go, keeps the
-- invariant of Handshake/Invariant.antt.
use dynapp_agent.Prelude.{
  String, Bool, true, false, List, if◌then◌else◌, Option, none, some, All, Option-cases, inl, inr,
}
use dynapp_agent.Types.{Host, Fields, Config, BrowserIdentity, DirectLocalInit, DirectLocalProof}
use dynapp_agent.Types.Numbers.{Time}
use dynapp_agent.Origins.{is_authority_origin}
use dynapp_agent.Grants.{match_direct_local_identity, merge_synced_identities}
use dynapp_agent.Grants.Lookup.{All-match_direct_local_identity, All-merge_synced_identities}
use dynapp_agent.Permissions.{Agent}
use dynapp_agent.Permissions.Edit.{with_identities}
use dynapp_agent.Handshake.{
  Refusal, rejected, probe, Outcome, accepted, refused, waits, continue_paired_identity,
}
use dynapp_agent.Handshake.Pairing.{
  Delivery, read_failed, undecodable, delivered, pair_unknown_identity, authenticate_by_sync,
  authenticate_by_match, authenticate_by_proof, authenticate_direct_local,
}
use dynapp_agent.Handshake.Pairing.Bounds.{OutcomeBounded, pair_unknown_identity-OutcomeBounded}
use dynapp_agent.Handshake.Invariant.{IsContained, OnlyAuthorityManages}
use dynapp_agent.Handshake.Contained.{continue_paired_identity-Bounded}

kept_of :
    (trusted : Bool) (end : Outcome × Agent)
    → OutcomeBounded trusted end
    → OnlyAuthorityManages end.1
unfolding OutcomeBounded
kept_of trusted (accepted auth, agent) b = b.1
kept_of trusted (refused refusal, agent) b = b
kept_of trusted (waits waiting, agent) b = b.1

-- What SyncBrowserIdentities brings keeps the invariant.
abbrev pub AllFetched : Option (List BrowserIdentity) → Type 0
AllFetched none = Unit
AllFetched (some fresh) = All IsContained fresh

module _ (host : Host) (fetch : Config → String → Option Fields) where
  continued-kept :
      (config : Config) (found : BrowserIdentity) (init : DirectLocalInit) (origin : String)
      (now : Time) (agent : Agent)
      → IsContained found
      → OnlyAuthorityManages agent
      → OnlyAuthorityManages
          (continue_paired_identity host fetch config found init origin now agent).1
  continued-kept config found init origin now agent h c =
      (continue_paired_identity-Bounded host fetch config found init origin now agent h c).1

  unknown-kept :
      (now : Time) (draws : List (Option (String × String))) (sent : Bool) (config : Config)
      (init : DirectLocalInit) (proof : DirectLocalProof) (nonce origin : String) (agent : Agent)
      → OnlyAuthorityManages agent
      → OnlyAuthorityManages
          (pair_unknown_identity host fetch now draws sent config init proof nonce origin agent).1
  unknown-kept now draws sent config init proof nonce origin agent c =
      kept_of (is_authority_origin host config origin)
        (pair_unknown_identity host fetch now draws sent config init proof nonce origin agent)
        (pair_unknown_identity-OutcomeBounded host fetch now draws sent config init proof nonce
          origin agent c)

  by_sync-kept :
      (now : Time) (draws : List (Option (String × String))) (sent : Bool)
      (sync : Option (List BrowserIdentity)) (nonce : String) (init : DirectLocalInit)
      (proof : DirectLocalProof) (origin : String) (agent : Agent)
      → AllFetched sync
      → OnlyAuthorityManages agent
      → OnlyAuthorityManages
          (authenticate_by_sync host fetch now draws sent sync nonce init proof origin agent).1
  unfolding authenticate_by_sync with_identities
  by_sync-kept now draws sent none nonce init proof origin agent s c =
      unknown-kept now draws sent agent.config init proof nonce origin agent c
  by_sync-kept now draws sent (some fresh) nonce init proof origin agent s c =
      let merged = merge_synced_identities host agent.config.browser_identities fresh in
      let all =
        All-merge_synced_identities IsContained host agent.config.browser_identities fresh c.0 s in
      let synced = with_identities merged agent in
      elim (Option-cases (match_direct_local_identity host merged init proof nonce origin)) [
        | inl e ↦
            rw (e, authenticate_by_sync)
              (unknown-kept now draws sent agent.config init proof nonce origin synced (all, c.1))
        | inr (found, e) ↦
            rw (e, authenticate_by_sync)
              (continued-kept agent.config found init origin now synced
                (All-match_direct_local_identity IsContained host merged init proof nonce origin
                  found all e)
                (all, c.1))
      ]

  either_kept :
      (test : Bool) (left right : Outcome × Agent)
      → OnlyAuthorityManages left.1
      → OnlyAuthorityManages right.1
      → OnlyAuthorityManages (if test then left else right).1
  either_kept true left right l r = l
  either_kept false left right l r = r

  matched-kept :
      (now : Time) (draws : List (Option (String × String))) (sent : Bool)
      (sync : Option (List BrowserIdentity)) (nonce : String) (init : DirectLocalInit)
      (proof : DirectLocalProof) (origin : String) (agent : Agent)
      → AllFetched sync
      → OnlyAuthorityManages agent
      → OnlyAuthorityManages
          (authenticate_by_match host fetch now draws sent sync nonce init proof origin agent).1
  unfolding authenticate_by_match
  matched-kept now draws sent sync nonce init proof origin agent s c =
      let l = agent.config.browser_identities in
      elim (Option-cases (match_direct_local_identity host l init proof nonce origin)) [
        | inl e ↦
            rw (e, authenticate_by_match)
              (either_kept _ _ _ c
                (by_sync-kept now draws sent sync nonce init proof origin agent s c))
        | inr (found, e) ↦
            rw (e, authenticate_by_match)
              (either_kept _ _ _ c (
                continued-kept agent.config found init origin now agent
                  (All-match_direct_local_identity IsContained host l init proof nonce origin found
                    c.0 e)
                  c))
      ]

  answered-kept :
      (now : Time) (draws : List (Option (String × String))) (sent : Bool)
      (sync : Option (List BrowserIdentity)) (nonce : String) (init : DirectLocalInit)
      (proof : Delivery DirectLocalProof) (origin : String) (agent : Agent)
      → AllFetched sync
      → OnlyAuthorityManages agent
      → OnlyAuthorityManages
          (authenticate_by_proof host fetch now draws sent sync nonce init proof origin agent).1
  unfolding authenticate_by_proof
  answered-kept now draws sent sync nonce init read_failed origin agent s c = c
  answered-kept now draws sent sync nonce init undecodable origin agent s c = c
  answered-kept now draws sent sync nonce init (delivered proof) origin agent s c =
      matched-kept now draws sent sync nonce init proof origin agent s c

  -- The invariant after an outcome.
  Keeps : Outcome × Agent → Type 0
  Keeps end = OnlyAuthorityManages end.1

  either-Keeps :
      (test : Bool) (left right : Outcome × Agent)
      → Keeps left
      → Keeps right
      → Keeps (if test then left else right)
  either-Keeps true left right l r = l
  either-Keeps false left right l r = r

  refused-Keeps :
      (refusal : Refusal) (agent : Agent)
      → OnlyAuthorityManages agent
      → Keeps (refused refusal, agent)
  unfolding Keeps
  refused-Keeps refusal agent c = c

  answered-Keeps :
      (now : Time) (draws : List (Option (String × String))) (sent : Bool)
      (sync : Option (List BrowserIdentity)) (nonce : String) (init : DirectLocalInit)
      (proof : Delivery DirectLocalProof) (origin : String) (agent : Agent)
      → AllFetched sync
      → OnlyAuthorityManages agent
      → Keeps (authenticate_by_proof host fetch now draws sent sync nonce init proof origin agent)
  unfolding Keeps
  answered-Keeps now draws sent sync nonce init proof origin agent s c =
      answered-kept now draws sent sync nonce init proof origin agent s c

  delivered-Keeps :
      (now : Time) (draws : List (Option (String × String))) (sent : Bool)
      (sync : Option (List BrowserIdentity)) (nonce : String) (init : DirectLocalInit)
      (proof : Delivery DirectLocalProof) (origin : String) (agent : Agent)
      → AllFetched sync
      → OnlyAuthorityManages agent
      → Keeps (
          authenticate_direct_local host fetch now draws sent sync nonce
            (delivered init)
            proof
            origin
            agent)
  unfolding authenticate_direct_local
  delivered-Keeps now draws sent sync nonce init proof origin agent s c =
      either-Keeps _ _ _ (refused-Keeps rejected agent c) (
        either-Keeps _ _ _ (refused-Keeps probe agent c) (
          either-Keeps _ _ _ (refused-Keeps rejected agent c)
            (answered-Keeps now draws sent sync nonce init proof origin agent s c)))

  -- The whole handshake, however it ends, keeps the invariant that no saved identity but an
  -- authority's, and no pre-approval, holds `permissions.manage`, if the identities that a sync
  -- brings keep it too.
  pub authenticate_direct_local-OnlyAuthorityManages :
      (now : Time) (draws : List (Option (String × String))) (sent : Bool)
      (sync : Option (List BrowserIdentity)) (nonce : String) (init : Delivery DirectLocalInit)
      (proof : Delivery DirectLocalProof) (origin : String) (agent : Agent)
      → AllFetched sync
      → OnlyAuthorityManages agent
      → OnlyAuthorityManages
          (authenticate_direct_local host fetch now draws sent sync nonce init proof origin agent).1
  unfolding authenticate_direct_local Keeps
  authenticate_direct_local-OnlyAuthorityManages now draws sent sync nonce read_failed proof origin
        agent s c =
      c
  authenticate_direct_local-OnlyAuthorityManages now draws sent sync nonce undecodable proof origin
        agent s c =
      c
  authenticate_direct_local-OnlyAuthorityManages now draws sent sync nonce (delivered init) proof
        origin agent s c =
      delivered-Keeps now draws sent sync nonce init proof origin agent s c
