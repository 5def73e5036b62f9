-- ===== src/Permissions/Clamp.antt =====
-- What an edit of a saved grant may write, in shellagent/permissions.go.
use dynapp_agent.Prelude.{
  String, Bool, ◌||◌, ◌&&◌, List, [], ◌∷◌, ◌==◌, eq_iff, ◌≡◌, refl, if◌then◌else◌, not, arith,
  Bool-cases, inl, inr, ltb, length, ◌∙◌, subst, ap,
}
use dynapp_agent.Text.{trim_space}
use dynapp_agent.Sets.{string_slice_has, intersect_strings, union_strings, subtract_strings}
use dynapp_agent.Sets.Membership.{
  IsTrimmed, has-intersect_strings, has-union_strings, has-subtract_strings,
  has-normalize_permission_set_of_IsTrimmed,
}
use dynapp_agent.Permissions.{permissions_manage}
use dynapp_agent.Permissions.Edit.{clamp_request}

trim_manage : trim_space permissions_manage ≡ permissions_manage
unfolding trim_space
trim_manage = refl

-- The part of the caller's set that the ceiling leaves.
cut_by : List String → List String → List String
cut_by ceiling requested =
    if ltb 0 (length ceiling) then intersect_strings requested ceiling else requested

has-cut_by :
    (ceiling requested : List String) (x : String)
    → string_slice_has (cut_by ceiling requested) x ≡ (
        string_slice_has requested x
        && (not (ltb 0 (length ceiling)) || string_slice_has ceiling x))
unfolding cut_by
has-cut_by ceiling requested x = ground (arith, has-intersect_strings requested ceiling x)

-- The set before it is normalised.
with_manage : Bool → List String → List String
with_manage authority cut =
    if authority
    then union_strings cut (permissions_manage ∷ [])
    else subtract_strings cut (permissions_manage ∷ [])

has_one : (y x : String) → string_slice_has (y ∷ []) x ≡ (y == x)
unfolding string_slice_has
has_one y x = ground arith

has-with_manage :
    (authority : Bool) (cut : List String) (x : String)
    → (not (x == "") && string_slice_has (with_manage authority cut) x)
      ≡ (not (x == "") && (if permissions_manage == x then authority else string_slice_has cut x))
unfolding with_manage
has-with_manage authority cut x = ground (
  arith,
  has-union_strings cut (permissions_manage ∷ []) x,
  has-subtract_strings cut (permissions_manage ∷ []) x,
  has_one permissions_manage x,
)

IsTrimmed-cut_by :
    (ceiling requested : List String) → IsTrimmed requested → IsTrimmed (cut_by ceiling requested)
IsTrimmed-cut_by ceiling requested t x h = t x (ground (arith, h, has-cut_by ceiling requested x))

IsTrimmed-with_manage :
    (authority : Bool) (cut : List String) → IsTrimmed cut → IsTrimmed (with_manage authority cut)
unfolding with_manage
IsTrimmed-with_manage authority cut t x h = elim (Bool-cases (permissions_manage == x)) [
  | inl e ↦
      let same : permissions_manage ≡ x = (eq_iff permissions_manage x).0 e in
      subst (λ s. trim_space s ≡ s) same trim_manage
  | inr e ↦ t x (
      ground (
        arith,
        h,
        e,
        has-union_strings cut (permissions_manage ∷ []) x,
        has-subtract_strings cut (permissions_manage ∷ []) x,
        has_one permissions_manage x,
      ))
]

-- The set that updateGrant writes holds `permissions.manage` exactly for an authority. Any other
-- capability it holds exactly if the caller asks for it and the ceiling, where there is one, has it.
-- The condition is that the caller's set is trimmed, as capabilityArg returns it.
pub clamp_request-has :
    (ceiling : List String) (authority : Bool) (requested : List String) (x : String)
    → IsTrimmed requested
    → string_slice_has (clamp_request ceiling authority requested) x ≡ (
        not (x == "")
        && (if permissions_manage == x
            then authority
            else string_slice_has requested x
              && (not (ltb 0 (length ceiling)) || string_slice_has ceiling x)))
unfolding clamp_request cut_by with_manage
clamp_request-has ceiling authority requested x t =
    let cut = cut_by ceiling requested in
    has-normalize_permission_set_of_IsTrimmed (with_manage authority cut) x
      (IsTrimmed-with_manage authority cut (IsTrimmed-cut_by ceiling requested t))
    ∙ has-with_manage authority cut x
    ∙ ap (λ held. not (x == "") && (if permissions_manage == x then authority else held))
        (has-cut_by ceiling requested x)
