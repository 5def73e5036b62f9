-- ===== src/Permissions/Saved.antt =====
-- What an edit of a grant leaves in the configuration, in shellagent/permissions.go.
use dynapp_agent.Prelude.{
  String, ◌≡◌, refl, if◌then◌else◌, Option, none, some, Option-cases, inl, inr,
}
use dynapp_agent.Types.{Host, Fields, Config}
use dynapp_agent.Types.Numbers.{Time}
use dynapp_agent.Grants.{has_key, find_identity}
use dynapp_agent.Grants.Lookup.{same_key, find-upsert_identity, find-remove_identity}
use dynapp_agent.Permissions.{Agent, Result, ok, err, capability_arg, close_sockets_bound_to}
use dynapp_agent.Permissions.Edit.{
  Selector, Grant, browser, native, revoked, update_identity, revoke_identity,
  upsert_browser_identity, with_identities, notify,
}

-- What updateGrant leaves, seen from one key: on an error the state is the one before; otherwise the
-- identity answered is what its own key finds, and any other key finds what it found before.
abbrev pub LeavesEdit : String → String → String → Agent → Result Grant × Agent → Type 0
LeavesEdit key_id origin store_id agent (err e, after) = after ≡ agent
LeavesEdit key_id origin store_id agent (ok revoked, after) = ⊥
LeavesEdit key_id origin store_id agent (ok (native app), after) = ⊥
LeavesEdit key_id origin store_id agent (ok (browser edited), after) =
    find_identity key_id origin store_id after.config.browser_identities ≡ (
      if has_key key_id origin store_id edited
      then some edited
      else find_identity key_id origin store_id agent.config.browser_identities)

-- What revokeGrant leaves, seen from one key.
abbrev pub LeavesRevocation :
    Selector → String → String → String → Agent → Result Grant × Agent → Type 0
LeavesRevocation selector key_id origin store_id agent (err e, after) = after ≡ agent
LeavesRevocation selector key_id origin store_id agent (ok grant, after) =
    find_identity key_id origin store_id after.config.browser_identities ≡ (
      if same_key selector.key_id selector.origin selector.store_id key_id origin store_id
      then none
      else find_identity key_id origin store_id agent.config.browser_identities)

module _ (host : Host) (fetch : Config → String → Option Fields) where
  -- Where updateGrant answers a browser key with an identity, that identity is what its key finds in
  -- the configuration afterwards, and every other key finds what it found before; where it answers
  -- with an error, nothing has changed.
  pub update_identity-find :
      (now : Time) (selector : Selector) (args : Fields) (agent : Agent)
      (key_id origin store_id : String)
      → LeavesEdit key_id origin store_id agent (update_identity host fetch now selector args agent)
  unfolding update_identity notify close_sockets_bound_to upsert_browser_identity with_identities
  update_identity-find now selector args agent key_id origin store_id =
      elim (Option-cases (
        find_identity selector.key_id selector.origin selector.store_id
          agent.config.browser_identities)) [
            | inl e ↦ rw (e, update_identity) refl
            | inr (identity, e) ↦ elim (Option-cases (capability_arg args)) [
              | inl e' ↦ rw (e, e', update_identity) refl
              | inr (requested, e') ↦
                  rw (e, e', update_identity)
                    (find-upsert_identity key_id origin store_id _ agent.config.browser_identities)
            ]
          ]

  -- Where revokeGrant succeeds for a browser key, nothing is found under the key that it names
  -- afterwards, and every other key finds what it found before; where it answers with an error,
  -- nothing has changed.
  pub revoke_identity-find :
      (selector : Selector) (agent : Agent) (key_id origin store_id : String)
      → LeavesRevocation selector key_id origin store_id agent
          (revoke_identity host fetch selector agent)
  unfolding revoke_identity notify close_sockets_bound_to with_identities
  revoke_identity-find selector agent key_id origin store_id =
      elim (Option-cases (
        find_identity selector.key_id selector.origin selector.store_id
          agent.config.browser_identities)) [
            | inl e ↦ rw (e, revoke_identity) refl
            | inr (identity, e) ↦
                rw (e, revoke_identity)
                  (find-remove_identity key_id origin store_id selector.key_id selector.origin
                    selector.store_id agent.config.browser_identities)
          ]
