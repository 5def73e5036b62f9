-- ===== src/Sets.antt =====
-- The permission sets of shellagent/browser_identity.go, shellagent/catalog/permission_catalog.go
-- and shellagent/permissions.go: lists of text used as sets, mostly kept sorted.
pub mod Membership
pub mod Canonical
use dynapp_agent.Prelude.{
  String, Bool, true, false, ◌||◌, List, [], ◌∷◌, ◌++◌, map, ◌==◌, if◌then◌else◌, ◌≡◌, refl,
  keep_if, not,
}
use dynapp_agent.Text.{trim_space, sort_strings}

-- stringSliceHas
unfoldable pub string_slice_has : List String → String → Bool
string_slice_has [] needle = false
string_slice_has (value ∷ values) needle = value == needle || string_slice_has values needle

-- The loop over `seen` that unionStrings and, after trimming, normalizePermissionSet run: empty
-- texts and texts seen before are left out.
pub distinct : List String → List String → List String
distinct seen [] = []
distinct seen (value ∷ values) =
    let skip = distinct seen values in
    let keep = value ∷ distinct (value ∷ seen) values in
    if value == "" || string_slice_has seen value then skip else keep

unfoldable pub normalize_permission_set : List String → List String
unfolding distinct
normalize_permission_set permissions = sort_strings (distinct [] (map trim_space permissions))

unfoldable pub union_strings : List String → List String → List String
unfolding distinct
union_strings left right = sort_strings (distinct [] (left ++ right))

unfoldable pub subtract_strings : List String → List String → List String
subtract_strings values remove =
    sort_strings (keep_if (λ value. not (string_slice_has remove value)) values)

-- intersectStrings keeps the order, and the repetitions, of its first argument.
unfoldable pub intersect_strings : List String → List String → List String
intersect_strings left right = keep_if (λ value. string_slice_has right value) left

-- The `normalize` closure of sameCapabilitySet: repetitions go, the empty text stays.
pub without_repeats : List String → List String → List String
without_repeats seen [] = []
without_repeats seen (value ∷ values) =
    let skip = without_repeats seen values in
    let keep = value ∷ without_repeats (value ∷ seen) values in
    if string_slice_has seen value then skip else keep

-- slices.Equal
pub slices_equal : List String → List String → Bool
slices_equal [] [] = true
slices_equal (x ∷ xs) (y ∷ ys) = if x == y then slices_equal xs ys else false
slices_equal _ _ = false

unfoldable pub same_capability_set : List String → List String → Bool
unfolding without_repeats slices_equal
same_capability_set left right =
    slices_equal (sort_strings (without_repeats [] left)) (sort_strings (without_repeats [] right))
