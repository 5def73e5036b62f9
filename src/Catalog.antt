-- ===== src/Catalog.antt =====
-- shellagent/catalog/permission_catalog.go: the danger tier, the group and the title of a
-- permission id, and the buckets that the permission screen shows.
pub mod Tables
pub mod Groups
use dynapp_agent.Prelude.{
  ℕ, String, Char, code, Bool, true, false, ◌||◌, ◌&&◌, ◌-◌, List, [], ◌∷◌, ◌++◌, ◌==◌,
  if◌then◌else◌, ◌≡◌, refl, Option, none, some, keep_if, not, ltb, leb, nat_eq, starts_with, map,
}
use Prim.Native.String
use dynapp_agent.Text.{sort_strings, trim_space}
use dynapp_agent.Sets.{string_slice_has, normalize_permission_set}
use Tables.{
  PermissionGroup, permission_groups, very_high_permissions, high_permissions,
  high_permission_prefixes, medium_permission_prefixes, dangerous_permissions,
}

pub dangerous_permission : String → Bool
dangerous_permission permission = string_slice_has dangerous_permissions permission

pub suggested_permissions : List String → List String
unfolding dangerous_permission
suggested_permissions declared =
    sort_strings (keep_if (λ permission. not (dangerous_permission permission)) declared)

-- The tiers "low", "medium", "high" and "very-high".
pub data Danger : Type 0 where
  low medium high very_high : Danger

pub danger_rank : Danger → ℕ
danger_rank low = 0
danger_rank medium = 1
danger_rank high = 2
danger_rank very_high = 3

-- The loops over a table of prefixes.
pub has_prefix_of : List String → String → Bool
has_prefix_of [] permission = false
has_prefix_of (prefix ∷ prefixes) permission =
    starts_with permission prefix || has_prefix_of prefixes permission

pub permission_danger : String → Danger
unfolding has_prefix_of
permission_danger permission =
    if string_slice_has very_high_permissions permission
    then very_high
    else if string_slice_has high_permissions permission
    then high
    else if has_prefix_of high_permission_prefixes permission
    then high
    else if has_prefix_of medium_permission_prefixes permission
    then medium
    else low

pub permission_group_id : String → String
permission_group_id permission =
    if permission == "fs.exec"
      || permission == "fs.execFile"
      || permission == "fs.execTerminal"
      || permission == "system.processes.terminate"
    then "execute"
    else if permission == "dialog.pickPath"
    then "filesystem"
    else if starts_with permission "fs." || starts_with permission "search."
    then "filesystem"
    else if starts_with permission "dialog.open"
        || starts_with permission "dialog.save"
        || starts_with permission "file."
        || starts_with permission "externalOpen."
    then "files"
    else if starts_with permission "net."
    then "network"
    else if starts_with permission "workspaces."
    then "workspaces"
    else if starts_with permission "remoteEnv."
    then "remote"
    else if starts_with permission "apps."
        || starts_with permission "oauth."
        || starts_with permission "permissions."
    then "store"
    else if starts_with permission "agent."
    then "agent"
    else if starts_with permission "secrets."
    then "secrets"
    else "device"

-- The variables `previousLower` and `startOfWord` of permissionTitle's loop over the runes, which
-- are numbers here.
title_loop : Bool → Bool → List ℕ → List ℕ
title_loop previous_lower start_of_word [] = []
title_loop previous_lower start_of_word (r ∷ rest) =
    let dot = b' ' ∷ title_loop false true rest in
    let upper = leb b'A' r && leb r b'Z' && previous_lower in
    let start = start_of_word || upper in
    let r' = if start && (leb b'a' r && leb r b'z') then r - 32 else r in
    let tail = r' ∷ title_loop (leb b'a' r' && leb r' b'z') false rest in
    if nat_eq r b'.' then dot else if upper then b' ' ∷ tail else tail

-- The runes of a text.
abbrev pub codes : String → List ℕ
codes String.[] = []
codes (String.◌∷◌ c s) = code c ∷ codes s

unfoldable pub permission_title : String → List ℕ
unfolding title_loop
permission_title permission = title_loop false true (codes permission)

abbrev pub find_group : String → List PermissionGroup → Option PermissionGroup
find_group id [] = none
find_group id (group ∷ groups) = if group.id == id then some group else find_group id groups

pub record PermissionGroupSummary : Type 0 where
  pub id : String
  pub title : String
  pub summary : String
  pub danger : Danger
  pub permissions : List String

-- The map `buckets`, and what it holds under a group id.
abbrev pub Buckets : Type 0
Buckets = List PermissionGroupSummary

pub find_bucket : String → Buckets → Option PermissionGroupSummary
find_bucket id [] = none
find_bucket id (bucket ∷ buckets) = if bucket.id == id then some bucket else find_bucket id buckets

-- The writes to `bucket.Danger` and `bucket.Permissions`.
pub add_permission : String → PermissionGroupSummary → PermissionGroupSummary
add_permission permission bucket =
    let danger = permission_danger permission in
    record bucket {
      danger =
          if ltb (danger_rank bucket.danger) (danger_rank danger) then danger else bucket.danger;
      permissions = bucket.permissions ++ permission ∷ [];
    }

-- A bucket of the map replaced by itself with the permission added.
update_bucket : String → String → Buckets → Buckets
unfolding add_permission
update_bucket id permission [] = []
update_bucket id permission (bucket ∷ buckets) =
    if bucket.id == id
    then add_permission permission bucket ∷ buckets
    else bucket ∷ update_bucket id permission buckets

abbrev new_bucket : PermissionGroup → PermissionGroupSummary
new_bucket group = record {
  id = group.id;
  title = group.title;
  summary = group.summary;
  danger = low;
  permissions = [];
}

-- The body of groupPermissions' loop over the permissions, for a permission that is not empty.
bucket_permission : String → Buckets → Buckets
unfolding update_bucket add_permission
bucket_permission permission buckets =
    let id = permission_group_id permission in
    elim (find_bucket id buckets) [
      | some _ ↦ update_bucket id permission buckets
      | none ↦ elim (find_group id permission_groups) [
        | none ↦ buckets
        | some group ↦ buckets ++ add_permission permission (new_bucket group) ∷ []
      ]
    ]

fill_buckets : List String → Buckets → Buckets
unfolding bucket_permission
fill_buckets [] buckets = buckets
fill_buckets (permission ∷ permissions) buckets =
    let trimmed = trim_space permission in
    fill_buckets permissions (if trimmed == "" then buckets else bucket_permission trimmed buckets)

-- The last loop of groupPermissions: the buckets in catalog order, each one's list sorted.
ordered_buckets : List PermissionGroup → Buckets → List PermissionGroupSummary
ordered_buckets [] buckets = []
ordered_buckets (group ∷ groups) buckets =
    let rest = ordered_buckets groups buckets in
    elim (find_bucket group.id buckets) [
      | none ↦ rest
      | some bucket ↦ record bucket { permissions = sort_strings bucket.permissions } ∷ rest
    ]

pub group_permissions : List String → List PermissionGroupSummary
group_permissions permissions = ordered_buckets permission_groups (fill_buckets permissions [])

pub record PermissionDescriptor : Type 0 where
  pub permission : String
  pub group : String
  pub danger : Danger
  pub description : List ℕ

describe_one : String → PermissionDescriptor
unfolding permission_title
describe_one permission =
    let group = permission_group_id permission in
    let title = permission_title permission in
    record {
      permission = permission;
      group = group;
      danger = permission_danger permission;
      description = elim (find_group group permission_groups) [
        | none ↦ title
        | some found ↦ title ++ codes ". " ++ codes found.summary
      ];
    }

pub describe_permissions : List String → List PermissionDescriptor
unfolding describe_one
describe_permissions permissions = map describe_one (normalize_permission_set permissions)

title_of_pick_path : permission_title "dialog.pickPath" ≡ codes "Dialog Pick Path"
unfolding permission_title
title_of_pick_path = refl
