-- ===== src/Relay/Grant.antt =====
-- Where the capabilities of a relay socket come from: relayGrantFor of shellagent/relay.go.
use dynapp_agent.Prelude.{
  ℕ, zero, suc, ◌+◌, String, Bool, true, false, ◌||◌, ◌&&◌, List, [], ◌∷◌, ◌==◌, eq_iff, not,
  if◌then◌else◌, Option, none, some, ◌≡◌, refl, any_of, arith, Bool-cases, Option-cases, inl, inr,
  map, All, subst, ap,
}
use dynapp_agent.Text.{trim_space}
use dynapp_agent.Types.{BrowserIdentity, ResolvedApp, SocketAuthentication}
use dynapp_agent.Sets.{string_slice_has, normalize_permission_set, union_strings, intersect_strings}
use dynapp_agent.Sets.Membership.{
  has-normalize_permission_set, has-union_strings, has-map-trim_space,
}
use dynapp_agent.Sets.Canonical.{normalize_permission_set_idem}
use dynapp_agent.Origins.{valid_store_id}
use dynapp_agent.Permissions.{permissions_manage}
use dynapp_agent.Handshake.Invariant.{
  manages, is_contained, IsContained, has-map_intersect, has-map_intersect_right,
}
use dynapp_agent.Relay.{
  Hello, is_named, Matched, take_identity, match_loop, no_match, Slice, values, non_nil, narrow,
  common_loop, identity_grant, narrow_to_app, relay_grant_for,
}

-- The set, normalised, holds the capability.
abbrev holds : List String → String → Bool
holds l x = string_slice_has (normalize_permission_set l) x

-- An identity that is no authority holds the capability.
unfoldable pub granted_by : String → BrowserIdentity → Bool
granted_by x identity = not identity.authority && holds identity.capabilities x

-- An element of the mapped list comes from an element of the list.
source-of-map :
    (l : List String) (y : String)
    → string_slice_has (map trim_space l) y ≡ true
    → (x : String) × (string_slice_has l x ≡ true) × (trim_space x ≡ y)
unfolding string_slice_has
source-of-map [] y h = absurd (ground (arith, h))
source-of-map (v ∷ l) y h = elim (Bool-cases (trim_space v == y)) [
  | inl e ↦ (v, ground (arith, eq_iff v v), ground (arith, e, eq_iff (trim_space v) y))
  | inr e ↦
      let rest = source-of-map l y (ground (arith, h, e)) in
      (rest.0, ground (arith, rest.1), rest.2)
]

map-union_strings :
    (left right : List String) (y : String)
    → string_slice_has (map trim_space (union_strings left right)) y ≡ true
    → (string_slice_has (map trim_space left) y || string_slice_has (map trim_space right) y) ≡ true
map-union_strings left right y h =
    let got = source-of-map (union_strings left right) y h in
    subst
      (λ s.
        (string_slice_has (map trim_space left) s || string_slice_has (map trim_space right) s)
        ≡ true)
      got.2
      (ground (
        arith,
        got.1,
        has-union_strings left right got.0,
        has-map-trim_space left got.0,
        has-map-trim_space right got.0,
      ))

holds-union_strings :
    (left right : List String) (x : String)
    → holds (union_strings left right) x ≡ true
    → (holds left x || holds right x) ≡ true
holds-union_strings left right x h = ground (
  arith,
  h,
  has-normalize_permission_set (union_strings left right) x,
  has-normalize_permission_set left x,
  has-normalize_permission_set right x,
  map-union_strings left right x,
)

holds-intersect_strings :
    (left right : List String) (x : String)
    → holds (intersect_strings left right) x ≡ true
    → (holds left x && holds right x) ≡ true
holds-intersect_strings left right x h = ground (
  arith,
  h,
  has-normalize_permission_set (intersect_strings left right) x,
  has-normalize_permission_set left x,
  has-normalize_permission_set right x,
  has-map_intersect left right x,
  has-map_intersect_right left right x,
)

holds-normalize_permission_set :
    (l : List String) (x : String) → holds (normalize_permission_set l) x ≡ holds l x
holds-normalize_permission_set l x =
    ap (λ s. string_slice_has s x) (normalize_permission_set_idem l)

values-non_nil : (l : List String) → values (non_nil l) ≡ l
unfolding values non_nil
values-non_nil [] = refl
values-non_nil (x ∷ l) = refl

-- What one more identity leaves in `base` was there or comes from that identity.
holds-narrow :
    (index : ℕ) (base : Slice) (capabilities : List String) (x : String)
    → holds (values (narrow index base capabilities)) x ≡ true
    → (holds (values base) x || holds capabilities x) ≡ true
unfolding narrow values
holds-narrow zero base capabilities x h =
    ground (arith, h, holds-normalize_permission_set capabilities x)
holds-narrow (suc index) none capabilities x h =
    ground (arith, h, holds-normalize_permission_set capabilities x)
holds-narrow (suc index) (some l) capabilities x h = ground (
  arith,
  holds-intersect_strings l capabilities x
      (subst (λ s. holds s x ≡ true) (values-non_nil (intersect_strings l capabilities)) h),
)

holds-common_loop :
    (index : ℕ) (base : Slice) (identities : List BrowserIdentity) (x : String)
    → holds (values (common_loop index base identities)) x ≡ true
    → (holds (values base) x || any_of (granted_by x) identities) ≡ true
unfolding common_loop granted_by
holds-common_loop index base [] x h = ground (arith, h)
holds-common_loop index base (identity ∷ identities) x h = ground (
  arith,
  h,
  holds-common_loop (index + 1) base identities x,
  holds-common_loop (index + 1) (narrow index base identity.capabilities) identities x,
  holds-narrow index base identity.capabilities x,
)

is_named-harmless :
    (key_id : String) (app : Option String) (identity : BrowserIdentity)
    → is_named key_id app identity ≡ true
    → identity.authority ≡ false
unfolding is_named
is_named-harmless key_id none identity h = ground (arith, h)
is_named-harmless key_id (some store_id) identity h = ground (arith, h)

holds-taken :
    (identity : BrowserIdentity) (m : Matched) (x : String)
    → holds (take_identity identity m).base x ≡ true
    → (holds m.base x || holds identity.capabilities x) ≡ true
unfolding take_identity
holds-taken identity m x h = holds-union_strings m.base identity.capabilities x h

holds-match_loop :
    (key_id : String) (app : Option String) (identities : List BrowserIdentity) (m : Matched)
    (x : String)
    → holds (match_loop key_id app identities m).base x ≡ true
    → (holds m.base x || any_of (granted_by x) identities) ≡ true
unfolding match_loop granted_by
holds-match_loop key_id app [] m x h = ground (arith, h)
holds-match_loop key_id app (identity ∷ identities) m x h = ground (
  arith,
  h,
  holds-match_loop key_id app identities (take_identity identity m) x,
  holds-match_loop key_id app identities m x,
  is_named-harmless key_id app identity,
  holds-taken identity m x,
)

no_match-holds-nothing : (x : String) → holds no_match.base x ≡ false
unfolding string_slice_has
no_match-holds-nothing x = ground (arith, has-normalize_permission_set [] x)

nil-holds-nothing : (x : String) → holds (values none) x ≡ false
unfolding values string_slice_has
nil-holds-nothing x = ground (arith, has-normalize_permission_set [] x)

holds-matched :
    (key_id : String) (app : Option String) (identities : List BrowserIdentity) (x : String)
    (b : Bool)
    → holds (if b then no_match else match_loop key_id app identities no_match).base x ≡ true
    → any_of (granted_by x) identities ≡ true
holds-matched key_id app identities x true h = ground (arith, h, no_match-holds-nothing x)
holds-matched key_id app identities x false h =
    ground (arith, holds-match_loop key_id app identities no_match x h, no_match-holds-nothing x)

holds-common :
    (identities : List BrowserIdentity) (x : String)
    → holds (values (common_loop 0 none identities)) x ≡ true
    → any_of (granted_by x) identities ≡ true
holds-common identities x h =
    ground (arith, holds-common_loop 0 none identities x h, nil-holds-nothing x)

identity_grant-within :
    (identities : List BrowserIdentity) (hello : Hello) (x : String)
    → string_slice_has (identity_grant identities hello).capabilities x ≡ true
    → any_of (granted_by x) identities ≡ true
unfolding identity_grant
identity_grant-within identities hello x h = ground (
  arith,
  h,
  holds-matched (trim_space hello.key_id) hello.app identities x (trim_space hello.key_id == ""),
  holds-common identities x,
)

narrow_to_app-within :
    (resolve : String → Option ResolvedApp) (store_id : String) (auth : SocketAuthentication)
    (x : String)
    → string_slice_has (narrow_to_app resolve store_id auth).capabilities x ≡ true
    → (string_slice_has auth.capabilities x || holds auth.capabilities x) ≡ true
unfolding narrow_to_app
narrow_to_app-within resolve store_id auth x h = elim (Bool-cases (valid_store_id store_id)) [
  | inr off ↦ ground (arith, h, off)
  | inl on ↦ elim (Option-cases (resolve store_id)) [
    | inl missing ↦ ground (arith, h, on, missing)
    | inr (app, found) ↦
        ground (arith, h, on, found, holds-intersect_strings auth.capabilities app.declared x)
  ]
]

holds-identity_grant :
    (identities : List BrowserIdentity) (hello : Hello) (x : String)
    → holds (identity_grant identities hello).capabilities x
      ≡ string_slice_has (identity_grant identities hello).capabilities x
unfolding identity_grant
holds-identity_grant identities hello x = holds-normalize_permission_set _ x

-- Whatever a relay socket may do, some synced identity that is no authority holds it, white space at
-- the ends aside.
pub relay_grant_for-within :
    (identities : List BrowserIdentity) (hello : Hello) (resolve : String → Option ResolvedApp)
    (x : String)
    → string_slice_has (relay_grant_for identities hello resolve).capabilities x ≡ true
    → any_of (granted_by x) identities ≡ true
unfolding relay_grant_for
relay_grant_for-within identities hello resolve x h = elim (Option-cases hello.app) [
  | inl missing ↦ identity_grant-within identities hello x (ground (arith, h, missing))
  | inr (store_id, named) ↦ identity_grant-within identities hello x (
      ground (
        arith,
        narrow_to_app-within resolve (trim_space store_id) (identity_grant identities hello) x
            (ground (arith, h, named)),
        holds-identity_grant identities hello x,
      ))
]

unmanaged :
    (identities : List BrowserIdentity)
    → All IsContained identities
    → any_of (granted_by permissions_manage) identities ≡ false
unfolding granted_by is_contained manages
unmanaged [] h = refl
unmanaged (identity ∷ identities) h = ground (arith, h.0, unmanaged identities h.1)

-- As long as only authority identities hold `permissions.manage`, no relay socket does, whatever its
-- hello names and whatever manifest Dyner gives.
pub relay_grant_for-unmanaged :
    (identities : List BrowserIdentity) (hello : Hello) (resolve : String → Option ResolvedApp)
    → All IsContained identities
    → string_slice_has (relay_grant_for identities hello resolve).capabilities permissions_manage
      ≡ false
relay_grant_for-unmanaged identities hello resolve h = ground (
  arith,
  relay_grant_for-within identities hello resolve permissions_manage,
  unmanaged identities h,
)

-- Where the hello names an app by a valid store id and its manifest resolves, the relay socket may do
-- nothing that the manifest does not declare, white space at the ends aside.
pub relay_grant_for-declared :
    (identities : List BrowserIdentity) (hello : Hello) (resolve : String → Option ResolvedApp)
    (store_id : String) (app : ResolvedApp) (x : String)
    → hello.app ≡ some store_id
    → valid_store_id (trim_space store_id) ≡ true
    → resolve (trim_space store_id) ≡ some app
    → string_slice_has (relay_grant_for identities hello resolve).capabilities x ≡ true
    → string_slice_has (normalize_permission_set app.declared) x ≡ true
unfolding relay_grant_for narrow_to_app
relay_grant_for-declared identities hello resolve store_id app x named valid found h = ground (
  arith,
  named,
  valid,
  found,
  h,
  holds-intersect_strings (identity_grant identities hello).capabilities app.declared x,
)
