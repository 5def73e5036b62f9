-- ===== src/Catalog/Groups.antt =====
-- groupPermissions: each permission is shown in the bucket of its own group, under the highest
-- danger tier of that bucket.
use dynapp_agent.Prelude.{
  ◌≤◌, String, Bool, true, false, ◌&&◌, ◌||◌, starts_with, List, [], ◌∷◌, ◌++◌, map, ◌==◌, eq_iff,
  if◌then◌else◌, ◌≡◌, refl, ap, ◌∙◌, Option, none, some, inl, inr, not, ltb, keep_if, arith,
  Option-cases, Bool-cases,
}
use mathlib.Core.List.{append_assoc, append-nil}
use dynapp_agent.Text.{trim_space, sort_strings}
use dynapp_agent.Sets.{string_slice_has}
use dynapp_agent.Sets.Membership.{has-sort_strings, has-keep_if}
use dynapp_agent.Catalog.Tables.{PermissionGroup, permission_groups}
use dynapp_agent.Catalog.{
  Danger, low, danger_rank, permission_danger, permission_group_id, find_group,
  PermissionGroupSummary, Buckets, find_bucket, add_permission, update_bucket, new_bucket,
  bucket_permission, fill_buckets, ordered_buckets, group_permissions,
}

-- The id is one of the catalog's groups.
unfoldable pub is_known : String → Bool
is_known id = elim (find_group id permission_groups) [ none ↦ false | some _ ↦ true ]

known_if :
    (b : Bool) (x y : String)
    → is_known x ≡ true
    → is_known y ≡ true
    → is_known (if b then x else y) ≡ true
known_if true x y hx hy = hx
known_if false x y hx hy = hy

-- Every permission id falls into one of the ten groups of the catalog.
pub permission_group_id_known : (p : String) → is_known (permission_group_id p) ≡ true
unfolding permission_group_id is_known
permission_group_id_known p =
    known_if
      (p == "fs.exec"
        || p == "fs.execFile"
        || p == "fs.execTerminal"
        || p == "system.processes.terminate")
      "execute" _ refl
      (known_if (p == "dialog.pickPath") "filesystem" _ refl (
        known_if (starts_with p "fs." || starts_with p "search.") "filesystem" _ refl (
          known_if
            (starts_with p "dialog.open"
              || starts_with p "dialog.save"
              || starts_with p "file."
              || starts_with p "externalOpen.")
            "files" _ refl
            (known_if (starts_with p "net.") "network" _ refl (
              known_if (starts_with p "workspaces.") "workspaces" _ refl (
                known_if (starts_with p "remoteEnv.") "remote" _ refl (
                  known_if
                    (starts_with p "apps."
                      || starts_with p "oauth."
                      || starts_with p "permissions.")
                    "store" _ refl
                    (known_if (starts_with p "agent.") "agent" _ refl
                      (known_if (starts_with p "secrets.") "secrets" _ refl (refl))))))))))

find_group_id :
    (id : String) (groups : List PermissionGroup) (group : PermissionGroup)
    → find_group id groups ≡ some group
    → group.id ≡ id
find_group_id id [] group h = cc
find_group_id id (g ∷ groups) group h =
    ground (arith, eq_iff g.id id, find_group_id id groups group)

find_bucket_id :
    (id : String) (buckets : Buckets) (bucket : PermissionGroupSummary)
    → find_bucket id buckets ≡ some bucket
    → bucket.id ≡ id
unfolding find_bucket
find_bucket_id id [] bucket h = cc
find_bucket_id id (b ∷ buckets) bucket h =
    ground (arith, eq_iff b.id id, find_bucket_id id buckets bucket)

-- The permissions that a map of buckets holds under a group id, and their tier.
pub held : String → Buckets → List String
held id buckets = elim (find_bucket id buckets) [ none ↦ [] | some b ↦ b.permissions ]

pub tier : String → Buckets → Danger
tier id buckets = elim (find_bucket id buckets) [ none ↦ low | some b ↦ b.danger ]

abbrev worse : Danger → Danger → Danger
worse a b = if ltb (danger_rank a) (danger_rank b) then b else a

find_bucket-update_bucket :
    (k id p : String) (buckets : Buckets)
    → find_bucket k (update_bucket id p buckets) ≡ (
        if id == k
        then elim (find_bucket id buckets) [ none ↦ none | some b ↦ some (add_permission p b) ]
        else find_bucket k buckets)
unfolding find_bucket update_bucket
find_bucket-update_bucket k id p [] = ground arith
find_bucket-update_bucket k id p (b ∷ buckets) =
    ground
      (arith, eq_iff b.id id, eq_iff b.id k, eq_iff id k, find_bucket-update_bucket k id p buckets)

find_bucket-append :
    (k : String) (buckets : Buckets) (b : PermissionGroupSummary)
    → find_bucket k (buckets ++ b ∷ []) ≡ elim (find_bucket k buckets) [
      | none ↦ if b.id == k then some b else none
      | some found ↦ some found
    ]
unfolding find_bucket
find_bucket-append k [] b = refl
find_bucket-append k (c ∷ buckets) b = ground (arith, find_bucket-append k buckets b)

some_of_known :
    (id : String)
    → is_known id ≡ true
    → (group : PermissionGroup) × (find_group id permission_groups ≡ some group)
unfolding is_known
some_of_known id h = elim (Option-cases (find_group id permission_groups)) [
  | inl e ↦ absurd (ground arith)
  | inr found ↦ found
]

abbrev bucket_or_new : PermissionGroup → Option PermissionGroupSummary → PermissionGroupSummary
bucket_or_new group none = new_bucket group
bucket_or_new group (some bucket) = bucket

module _ (k p : String) (buckets : Buckets) where
  abbrev expected : PermissionGroup → Option PermissionGroupSummary
  expected group =
      if permission_group_id p == k
      then some (add_permission p (bucket_or_new group (find_bucket k buckets)))
      else find_bucket k buckets

  find_bucket-bucket_permission :
      (group : PermissionGroup)
      → find_group (permission_group_id p) permission_groups ≡ some group
      → find_bucket k (bucket_permission p buckets) ≡ expected group
  unfolding bucket_permission add_permission
  find_bucket-bucket_permission group h =
      elim (Option-cases (find_bucket (permission_group_id p) buckets)) [
        | inl e ↦
            rw (e, bucket_permission)
              (rw (h, bucket_permission)
                (ground (
                  arith,
                  find_bucket-append k buckets (add_permission p (new_bucket group)),
                  find_group_id (permission_group_id p) permission_groups group h,
                  eq_iff (permission_group_id p) k,
                  eq_iff group.id k,
                )))
        | inr (b, e) ↦
            rw (e, bucket_permission)
              (ground (
                arith,
                find_bucket-update_bucket k (permission_group_id p) p buckets,
                eq_iff (permission_group_id p) k,
              ))
      ]

held-bucket_permission :
    (k p : String) (buckets : Buckets)
    → held k (bucket_permission p buckets)
      ≡ (if permission_group_id p == k then held k buckets ++ p ∷ [] else held k buckets)
unfolding held add_permission
held-bucket_permission k p buckets =
    let (group, h) = some_of_known (permission_group_id p) (permission_group_id_known p) in
    ground (arith, find_bucket-bucket_permission k p buckets group h)

tier-bucket_permission :
    (k p : String) (buckets : Buckets)
    → tier k (bucket_permission p buckets) ≡ (
        if permission_group_id p == k
        then worse (tier k buckets) (permission_danger p)
        else tier k buckets)
unfolding tier add_permission
tier-bucket_permission k p buckets =
    let (group, h) = some_of_known (permission_group_id p) (permission_group_id_known p) in
    ground (arith, find_bucket-bucket_permission k p buckets group h)

-- The permissions of a group among those asked for, trimmed, in the order asked.
abbrev pub belongs : String → String → Bool
belongs id p = not (p == "") && permission_group_id p == id

abbrev pub members : String → List String → List String
members id permissions = keep_if (belongs id) (map trim_space permissions)

abbrev pub worst : Danger → List String → Danger
worst d [] = d
worst d (p ∷ ps) = worst (worse d (permission_danger p)) ps

held-fill_buckets :
    (k : String) (permissions : List String) (buckets : Buckets)
    → held k (fill_buckets permissions buckets) ≡ held k buckets ++ members k permissions
unfolding fill_buckets
held-fill_buckets k [] buckets = rw append-nil
held-fill_buckets k (q ∷ ps) buckets = elim (Bool-cases (trim_space q == "")) [
  | inl e ↦ simp e (held-fill_buckets k ps buckets)
  | inr e ↦ elim (Bool-cases (permission_group_id (trim_space q) == k)) [
    | inl g ↦ simp (e, g, held-fill_buckets k ps, held-bucket_permission, append_assoc)
    | inr g ↦ simp (e, g, held-fill_buckets k ps, held-bucket_permission)
  ]
]

tier-fill_buckets :
    (k : String) (permissions : List String) (buckets : Buckets)
    → tier k (fill_buckets permissions buckets) ≡ worst (tier k buckets) (members k permissions)
unfolding fill_buckets
tier-fill_buckets k [] buckets = refl
tier-fill_buckets k (q ∷ ps) buckets = elim (Bool-cases (trim_space q == "")) [
  | inl e ↦ simp e (tier-fill_buckets k ps buckets)
  | inr e ↦ elim (Bool-cases (permission_group_id (trim_space q) == k)) [
    | inl g ↦ simp (e, g, tier-fill_buckets k ps, tier-bucket_permission)
    | inr g ↦ simp (e, g, tier-fill_buckets k ps, tier-bucket_permission)
  ]
]

-- A bucket as the result shows it: its list sorted.
abbrev shown : PermissionGroupSummary → PermissionGroupSummary
shown bucket = record bucket { permissions = sort_strings bucket.permissions }

find_bucket-ordered_buckets-none :
    (k : String) (groups : List PermissionGroup) (buckets : Buckets)
    → find_bucket k buckets ≡ none
    → find_bucket k (ordered_buckets groups buckets) ≡ none
unfolding ordered_buckets find_bucket
find_bucket-ordered_buckets-none k [] buckets h = refl
find_bucket-ordered_buckets-none k (g ∷ gs) buckets h =
    let rest = find_bucket-ordered_buckets-none k gs buckets h in
    elim (Option-cases (find_bucket g.id buckets)) [
      | inl e ↦ rw (e, ordered_buckets) rest
      | inr (b, e) ↦ ground (arith, rest, find_bucket_id g.id buckets b e, eq_iff b.id k)
    ]

find_bucket-ordered_buckets :
    (k : String) (groups : List PermissionGroup) (group : PermissionGroup) (buckets : Buckets)
    → find_group k groups ≡ some group
    → find_bucket k (ordered_buckets groups buckets)
      ≡ elim (find_bucket k buckets) [ none ↦ none | some b ↦ some (shown b) ]
unfolding ordered_buckets find_bucket
find_bucket-ordered_buckets k [] group buckets h = cc
find_bucket-ordered_buckets k (g ∷ gs) group buckets h =
    let none_left = find_bucket-ordered_buckets-none k gs buckets in
    let rest = find_bucket-ordered_buckets k gs group buckets in
    elim (Option-cases (find_bucket g.id buckets)) [
      | inl e ↦ ground (arith, e, eq_iff g.id k, none_left, rest)
      | inr (b, e) ↦
          ground (arith, e, rest, find_bucket_id g.id buckets b e, eq_iff b.id k, eq_iff g.id k)
    ]

module _ (k : String) (known : is_known k ≡ true) (buckets : Buckets) where
  held-ordered_buckets :
      held k (ordered_buckets permission_groups buckets) ≡ sort_strings (held k buckets)
  unfolding held sort_strings
  held-ordered_buckets =
      let (group, found) = some_of_known k known in
      ground (arith, find_bucket-ordered_buckets k permission_groups group buckets found)

  tier-ordered_buckets : tier k (ordered_buckets permission_groups buckets) ≡ tier k buckets
  unfolding tier
  tier-ordered_buckets =
      let (group, found) = some_of_known k known in
      ground (arith, find_bucket-ordered_buckets k permission_groups group buckets found)

-- For a group id of the catalog, the bucket of that group which groupPermissions returns shows exactly
-- that group's permissions among those asked for, trimmed and sorted.
pub held-group_permissions :
    (k : String) (permissions : List String)
    → is_known k ≡ true
    → held k (group_permissions permissions) ≡ sort_strings (members k permissions)
unfolding group_permissions
held-group_permissions k permissions known =
    held-ordered_buckets k known (fill_buckets permissions [])
    ∙ ap sort_strings (unfold held find_bucket in held-fill_buckets k permissions [])

-- For a group id of the catalog, the danger of that group's bucket is the highest tier of the group's
-- permissions among those asked for, and low where there is none.
pub tier-group_permissions :
    (k : String) (permissions : List String)
    → is_known k ≡ true
    → tier k (group_permissions permissions) ≡ worst low (members k permissions)
unfolding group_permissions
tier-group_permissions k permissions known =
    tier-ordered_buckets k known (fill_buckets permissions [])
    ∙ (unfold tier find_bucket in tier-fill_buckets k permissions [])

worst-ge : (d : Danger) (ps : List String) → danger_rank d ≤ danger_rank (worst d ps)
worst-ge d [] = omega arith
worst-ge d (p ∷ ps) = ground (arith, worst-ge (worse d (permission_danger p)) ps)

worst-bounds :
    (d : Danger) (ps : List String) (p : String)
    → string_slice_has ps p ≡ true
    → danger_rank (permission_danger p) ≤ danger_rank (worst d ps)
unfolding string_slice_has
worst-bounds d [] p h = cc
worst-bounds d (q ∷ ps) p h = ground (
  arith,
  eq_iff q p,
  worst-ge (worse d (permission_danger q)) ps,
  worst-bounds (worse d (permission_danger q)) ps p,
)

-- A permission that is not blank is shown in the bucket of its own group, and in no other bucket;
-- the bucket is at least as dangerous as the permission.
pub group_permissions_shows :
    (k p : String) (permissions : List String)
    → is_known k ≡ true
    → (string_slice_has (held k (group_permissions permissions)) p
        ≡ (belongs k p && string_slice_has (map trim_space permissions) p))
      × (string_slice_has (held k (group_permissions permissions)) p ≡ true
          → danger_rank (permission_danger p)
            ≤ danger_rank (tier k (group_permissions permissions)))
group_permissions_shows k p permissions known =
    let asked = map trim_space permissions in
    let holds = held-group_permissions k permissions known in
    (
      rw (holds, has-sort_strings, has-keep_if) refl,
      λ h.
          rw (tier-group_permissions k permissions known)
            (worst-bounds low (members k permissions) p (rw (holds, has-sort_strings) at h)),
    )
