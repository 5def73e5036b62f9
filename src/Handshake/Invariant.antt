-- ===== src/Handshake/Invariant.antt =====
-- Who may manage permissions: an invariant of the handshake in shellagent/browser_identity.go.
use dynapp_agent.Prelude.{
  String, Bool, true, false, ◌||◌, List, [], ◌∷◌, ◌==◌, eq_iff, ◌≡◌, refl, subst, if◌then◌else◌,
  not, Option, none, some, map, keep_if, All, All-keep_if, arith, Bool-cases, Option-cases, inl,
  inr, ltb,
}
use dynapp_agent.Text.{trim_space}
use dynapp_agent.Types.{BrowserIdentity}
use dynapp_agent.Types.Numbers.{Time}
use dynapp_agent.Sets.{
  string_slice_has, normalize_permission_set, subtract_strings, intersect_strings,
}
use dynapp_agent.Sets.Membership.{
  IsTrimmed, has-normalize_permission_set, has-normalize_permission_set_of_IsTrimmed,
  has-map-trim_space, has-subtract_strings,
}
use dynapp_agent.Sets.Canonical.{normalize_permission_set_idem}
use dynapp_agent.Grants.Lookup.{All-upsert_identity}
use dynapp_agent.Permissions.{
  permissions_manage, Agent, PreApproval, find_pre_approval, drop_pre_approval,
  consume_pre_approval,
}
use dynapp_agent.Permissions.Edit.{upsert_browser_identity, with_identities, notify}
use dynapp_agent.Handshake.{persist}

-- The set, as a socket would hold it, contains `permissions.manage`.
unfoldable pub manages : List String → Bool
manages capabilities = string_slice_has (normalize_permission_set capabilities) permissions_manage

-- Only an authority identity may hold `permissions.manage`.
unfoldable pub is_contained : BrowserIdentity → Bool
is_contained identity = identity.authority || not (manages identity.capabilities)

abbrev pub IsContained : BrowserIdentity → Type 0
IsContained identity = is_contained identity ≡ true

abbrev pub IsHarmless : PreApproval → Type 0
IsHarmless approval = manages approval.capabilities ≡ false

-- No saved identity but an authority's, and no pre-approval, holds `permissions.manage`.
abbrev pub OnlyAuthorityManages : Agent → Type 0
OnlyAuthorityManages agent =
    All IsContained agent.config.browser_identities × All IsHarmless agent.preapproved

-- A list whose elements another list contains holds no more, trimmed, than that list.
has-map_keep :
    (f : String → String) (p : String → Bool) (l : List String) (y : String)
    → string_slice_has (map f (keep_if p l)) y ≡ true
    → string_slice_has (map f l) y ≡ true
unfolding string_slice_has
has-map_keep f p [] y h = h
has-map_keep f p (v ∷ l) y h = ground (arith, has-map_keep f p l y)

pub has-map_intersect :
    (left right : List String) (y : String)
    → string_slice_has (map trim_space (intersect_strings left right)) y ≡ true
    → string_slice_has (map trim_space left) y ≡ true
unfolding intersect_strings
has-map_intersect left right y = has-map_keep trim_space _ left y

pub manages-intersect :
    (left right : List String)
    → manages left ≡ false
    → manages (normalize_permission_set (intersect_strings left right)) ≡ false
unfolding manages
manages-intersect left right h = rw normalize_permission_set_idem (
    ground (
      arith,
      has-normalize_permission_set left permissions_manage,
      has-normalize_permission_set (intersect_strings left right) permissions_manage,
      has-map_intersect left right permissions_manage,
    ))

pub has-map_intersect_right :
    (left right : List String) (y : String)
    → string_slice_has (map trim_space (intersect_strings left right)) y ≡ true
    → string_slice_has (map trim_space right) y ≡ true
unfolding string_slice_has intersect_strings
has-map_intersect_right [] right y h = absurd (ground (arith, h))
has-map_intersect_right (v ∷ left) right y h = ground (
  arith,
  has-map_intersect_right left right y,
  has-map-trim_space right v,
  eq_iff (trim_space v) y,
)

pub manages-intersect-right :
    (left right : List String)
    → manages right ≡ false
    → manages (normalize_permission_set (intersect_strings left right)) ≡ false
unfolding manages
manages-intersect-right left right h = rw normalize_permission_set_idem (
    ground (
      arith,
      has-normalize_permission_set right permissions_manage,
      has-normalize_permission_set (intersect_strings left right) permissions_manage,
      has-map_intersect_right left right permissions_manage,
    ))

pub manages-normalize : (l : List String) → manages (normalize_permission_set l) ≡ manages l
unfolding manages
manages-normalize l = rw normalize_permission_set_idem refl

pub manages-subtract :
    (l : List String) → IsTrimmed l → manages (subtract_strings l (permissions_manage ∷ [])) ≡ false
unfolding manages string_slice_has
manages-subtract l t =
    let trimmed : IsTrimmed (subtract_strings l (permissions_manage ∷ [])) =
      λ x h. t x (ground (arith, has-subtract_strings l (permissions_manage ∷ []) x)) in
    rw
      (has-normalize_permission_set_of_IsTrimmed _ permissions_manage trimmed, has-subtract_strings)
      refl

pub contained_upsert :
    (identity : BrowserIdentity) (agent : Agent)
    → IsContained identity
    → OnlyAuthorityManages agent
    → OnlyAuthorityManages (upsert_browser_identity identity agent)
unfolding upsert_browser_identity with_identities
contained_upsert identity agent h c = (All-upsert_identity IsContained identity _ h c.0, c.1)

pub contained_persist :
    (changed : Bool) (identity : BrowserIdentity) (agent : Agent)
    → IsContained identity
    → OnlyAuthorityManages agent
    → OnlyAuthorityManages (persist changed identity agent)
unfolding persist notify
contained_persist true identity agent h c = contained_upsert identity agent h c
contained_persist false identity agent h c = c

-- An approval that is looked up is one of the list.
All-find_pre_approval :
    (store_id : String) (l : List PreApproval) (found : PreApproval)
    → All IsHarmless l
    → find_pre_approval store_id l ≡ some found
    → IsHarmless found
unfolding find_pre_approval
All-find_pre_approval store_id [] found a h = absurd (ground arith)
All-find_pre_approval store_id (x ∷ l) found a h = elim (Bool-cases (x.store_id == store_id)) [
  | inl e ↦
      let got : some x ≡ some found = rw e at h in
      let same : x ≡ found = cc got in subst IsHarmless same a.0
  | inr e ↦ All-find_pre_approval store_id l found a.1 (rw e at h)
]

-- What consuming a pre-approval leaves, and what it returns.
abbrev pub SafelyConsumed : Option PreApproval × Agent → Type 0
SafelyConsumed (none, agent) = OnlyAuthorityManages agent
SafelyConsumed (some approval, agent) = IsHarmless approval × OnlyAuthorityManages agent

abbrev fresh_or_none : Bool → PreApproval → Option PreApproval
fresh_or_none fresh approval = if fresh then some approval else none

safely :
    (fresh : Bool) (approval : PreApproval) (agent : Agent)
    → IsHarmless approval
    → OnlyAuthorityManages agent
    → SafelyConsumed (fresh_or_none fresh approval, agent)
safely true approval agent h c = (h, c)
safely false approval agent h c = c

pub consume_pre_approval-SafelyConsumed :
    (now : Time) (store_id : String) (agent : Agent)
    → OnlyAuthorityManages agent
    → SafelyConsumed (consume_pre_approval now store_id agent)
unfolding consume_pre_approval drop_pre_approval
consume_pre_approval-SafelyConsumed now store_id agent c =
    elim (Option-cases (find_pre_approval store_id agent.preapproved)) [
      | inl e ↦ rw (e, consume_pre_approval) c
      | inr (approval, e) ↦
          rw (e, consume_pre_approval)
            (safely (ltb now approval.expires_at) approval _
              (All-find_pre_approval store_id _ approval c.1 e)
              (c.0, All-keep_if IsHarmless _ agent.preapproved c.1))
    ]
