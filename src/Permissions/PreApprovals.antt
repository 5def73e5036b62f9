-- ===== src/Permissions/PreApprovals.antt =====
-- The decisions made before a launch, in shellagent/permissions.go: how long they live, what they
-- hold, and that each is used once.
use dynapp_agent.Prelude.{
  ◌+◌, ◌≤◌, String, Bool, true, false, List, [], ◌∷◌, ◌==◌, eq_iff, eq_refl, ◌≡◌, refl,
  if◌then◌else◌, Option, none, some, arith, Bool-cases, Option-cases, inl, inr, ltb, ap, sym, ◌∙◌,
}
use dynapp_agent.Text.{trim_space}
use dynapp_agent.Types.{Host, Json, Fields, lookup_field, string_value}
use dynapp_agent.Types.Numbers.{ℤ, pos, negsuc, ltb_ℤ, Time, add_duration}
use dynapp_agent.Sets.{string_slice_has, subtract_strings}
use dynapp_agent.Sets.Membership.{has-subtract_strings}
use dynapp_agent.Origins.{valid_store_id}
use dynapp_agent.Permissions.{
  permissions_manage, max_pre_approval_ttl, Agent, PreApproval, Result, ok, err, pre_approval_ttl,
  requested_ttl, find_pre_approval, drop_pre_approval, preapprove_permissions, consume_pre_approval,
  capability_arg,
}

add_duration-le :
    (now : Time) (value : Json)
    → add_duration now (pre_approval_ttl value) ≤ now + max_pre_approval_ttl
unfolding pre_approval_ttl add_duration
add_duration-le now value = capped (requested_ttl value)
  where
    capped :
        (ttl : ℤ)
        → add_duration now
            (if ltb_ℤ (pos max_pre_approval_ttl) ttl then pos max_pre_approval_ttl else ttl)
          ≤ now + max_pre_approval_ttl
    capped (pos n) = ground arith
    capped (negsuc n) = ground arith

-- What preapprovePermissions answers with.
abbrev pub Accepted : Time → PreApproval → Type 0
Accepted now approval =
    (valid_store_id approval.store_id ≡ true)
    × ((approval.expires_at ≤ now + max_pre_approval_ttl)
        × (string_slice_has approval.capabilities permissions_manage ≡ false))

find-drop_pre_approval :
    (store_id other : String) (l : List PreApproval)
    → find_pre_approval other (drop_pre_approval store_id l)
      ≡ (if store_id == other then none else find_pre_approval other l)
unfolding find_pre_approval drop_pre_approval
find-drop_pre_approval store_id other [] = ground arith
find-drop_pre_approval store_id other (x ∷ l) = ground (
  arith,
  find-drop_pre_approval store_id other l,
  eq_iff x.store_id store_id,
  eq_iff x.store_id other,
  eq_iff store_id other,
)

find-consume_pre_approval :
    (now : Time) (store_id other : String) (agent : Agent)
    → find_pre_approval other (consume_pre_approval now store_id agent).1.preapproved
      ≡ (if store_id == other then none else find_pre_approval other agent.preapproved)
unfolding consume_pre_approval find_pre_approval
find-consume_pre_approval now store_id other agent =
    elim (Option-cases (find_pre_approval store_id agent.preapproved)) [
      | inl e ↦ rw (e, consume_pre_approval) (ground (arith, e, eq_iff store_id other))
      | inr (approval, e) ↦
          rw (e, consume_pre_approval) (find-drop_pre_approval store_id other agent.preapproved)
    ]

-- What a call returns depends on the entry that it finds.
fresh_of : Time → Option PreApproval → Option PreApproval
fresh_of now none = none
fresh_of now (some approval) = if ltb now approval.expires_at then some approval else none

consume_pre_approval_lem :
    (now : Time) (store_id : String) (agent : Agent)
    → (consume_pre_approval now store_id agent).0
      ≡ fresh_of now (find_pre_approval store_id agent.preapproved)
unfolding fresh_of consume_pre_approval
consume_pre_approval_lem now store_id agent =
    elim (Option-cases (find_pre_approval store_id agent.preapproved)) [
      | inl e ↦ rw (e, consume_pre_approval) refl
      | inr (approval, e) ↦ rw (e, consume_pre_approval) refl
    ]

fresh_of-none :
    (test : Bool) (now : Time) (found : Option PreApproval)
    → fresh_of now (if test then none else found) ≡ (if test then none else fresh_of now found)
unfolding fresh_of
fresh_of-none true now found = refl
fresh_of-none false now found = refl

-- A pre-approval is used at most once: after consumePreApproval for a store id, the next call for it
-- returns nothing, whatever the times of the two calls, and a call for another store id returns what
-- it would have returned before.
pub consume_pre_approval-once :
    (now later : Time) (store_id other : String) (agent : Agent)
    → (consume_pre_approval later other (consume_pre_approval now store_id agent).1).0
      ≡ (if store_id == other then none else (consume_pre_approval later other agent).0)
consume_pre_approval-once now later store_id other agent =
    consume_pre_approval_lem later other (consume_pre_approval now store_id agent).1
    ∙ ap (fresh_of later) (find-consume_pre_approval now store_id other agent)
    ∙ fresh_of-none (store_id == other) later (find_pre_approval other agent.preapproved)
    ∙ ap (λ found. if store_id == other then none else found)
        (sym (consume_pre_approval_lem later other agent))

-- The pre-approval that is made of an accepted request.
built : Host → Time → Fields → List String → PreApproval
built host now args capabilities = record {
  store_id = trim_space (string_value host (lookup_field "storeId" args));
  capabilities = subtract_strings capabilities (permissions_manage ∷ []);
  expires_at = add_duration now (pre_approval_ttl (lookup_field "expiresInMs" args));
}

Accepted-built :
    (host : Host) (now : Time) (args : Fields) (capabilities : List String)
    → valid_store_id (trim_space (string_value host (lookup_field "storeId" args))) ≡ true
    → Accepted now (built host now args capabilities)
unfolding built string_slice_has
Accepted-built host now args capabilities good = (
  good,
  (
    add_duration-le now (lookup_field "expiresInMs" args),
    ground (
      arith,
      has-subtract_strings capabilities (permissions_manage ∷ []) permissions_manage,
      eq_refl permissions_manage,
    ),
  ),
)

find-first :
    (approval : PreApproval) (l : List PreApproval)
    → find_pre_approval approval.store_id (approval ∷ l) ≡ some approval
unfolding find_pre_approval
find-first approval l = rw (eq_refl approval.store_id) refl

-- What preapprovePermissions leaves for a later call of consumePreApproval: on an error the state is
-- the one before.
abbrev pub LeavesApproval : Time → Time → Agent → Result PreApproval × Agent → Type 0
LeavesApproval now later agent (err e, after) = after ≡ agent
LeavesApproval now later agent (ok approval, after) =
    Accepted now approval
    × ((consume_pre_approval later approval.store_id after).0
        ≡ (if ltb later approval.expires_at then some approval else none))

-- A pre-approval that preapprovePermissions answers with names a valid store id, ends at most an
-- hour after the call, whatever `expiresInMs` says, and does not hold `permissions.manage`, and a
-- later consumePreApproval for its store id returns it exactly until it ends. Where it answers with
-- an error, nothing has changed.
pub preapprove_permissions-consume_pre_approval :
    (host : Host) (now later : Time) (args : Fields) (agent : Agent)
    → LeavesApproval now later agent (preapprove_permissions host now args agent)
unfolding preapprove_permissions built fresh_of
preapprove_permissions-consume_pre_approval host now later args agent =
    elim (Bool-cases
      (valid_store_id (trim_space (string_value host (lookup_field "storeId" args))))) [
        | inr bad ↦ rw bad refl
        | inl good ↦ elim (Option-cases (capability_arg args)) [
          | inl e ↦ rw (good, e) refl
          | inr (capabilities, e) ↦
              let fresh : PreApproval = built host now args capabilities in
              rw (good, e)
                (
                  Accepted-built host now args capabilities good,
                  consume_pre_approval_lem later fresh.store_id _
                      ∙ ap (fresh_of later) (find-first fresh _),
                )
        ]
      ]
