-- ===== src/Updater.antt =====
-- Which release the agent updates to, and how long it waits for bridges: shellagent/updater.go.
pub mod Versions
pub mod Waiting
use Prim.Native.String.{len, ◌++◌}
use dynapp_agent.Prelude.{
  ℕ, zero, suc, ◌+◌, ◌-◌, ◌*◌, ◌^◌, String, Char, code, Bool, true, false, ◌||◌, ◌&&◌, List, [],
  ◌∷◌, ◌==◌, not, if◌then◌else◌, Option, none, some, nat_eq, leb, ltb, length, starts_with, ◌≡◌,
  refl,
}
use dynapp_agent.Text.{
  trim_space, trim_prefix, split_at, trim_prefix_char, contains_char, is_digit, digits,
}
use dynapp_agent.Types.Numbers.{ℤ, pos, ltb_ℤ, Time}

is_repository_char : ℕ → Bool
is_repository_char c =
    nat_eq c b'-'
    || nat_eq c b'_'
    || nat_eq c b'.'
    || is_digit c
    || (leb b'A' c && leb c b'Z')
    || (leb b'a' c && leb c b'z')

-- validRepository
unfoldable pub valid_repository : String → Bool
unfolding is_repository_char
valid_repository repository = elim (split_at b'/' repository) [
  | owner ∷ name ∷ [] ↦
      not (owner == "")
      && not (name == "")
      && not (contains_char (λ c. not (is_repository_char c)) owner)
      && not (contains_char (λ c. not (is_repository_char c)) name)
  | _ ↦ false
]

-- value[:strings.IndexAny(value, "-+")], or the value where neither occurs.
unfoldable pub before_suffix : String → String
before_suffix String.[] = String.[]
before_suffix (String.◌∷◌ c s) =
    let rest = before_suffix s in
    if nat_eq (code c) b'-' || nat_eq (code c) b'+' then String.[] else String.◌∷◌ c rest

-- normalizedReleaseVersion
unfoldable pub normalized_release_version : String → String
unfolding before_suffix
normalized_release_version value = before_suffix (trim_prefix_char b'v' (trim_space value))

is_number : String → Bool
is_number part = not (part == "") && not (contains_char (λ c. not (is_digit c)) part)

-- The three parts of a version, where isReleaseVersion holds.
unfoldable pub release_parts : String → Option (String × String × String)
unfolding is_number
release_parts value = elim (split_at b'.' (normalized_release_version value)) [
  | major ∷ minor ∷ patch ∷ [] ↦
      if is_number major && is_number minor && is_number patch
      then some (major, minor, patch)
      else none
  | _ ↦ none
]

-- isReleaseVersion
unfoldable pub is_release_version : String → Bool
is_release_version value = elim (release_parts value) [ none ↦ false | some parts ↦ true ]

-- strconv.ParseInt of decimal digits, whose error the caller drops: a number that does not fit is the
-- largest int64.
unfoldable pub parse_int : String → ℕ
unfolding digits
parse_int part = let value = digits 0 part in if ltb value (2 ^ 63) then value else 2 ^ 63 - 1

-- The closure `parse` of newerRelease.
unfoldable pub parse_release : String × String × String → ℕ × ℕ × ℕ
unfolding parse_int
parse_release (major, minor, patch) = (parse_int major, parse_int minor, parse_int patch)

-- The loop of newerRelease over the three numbers.
unfoldable pub is_greater : ℕ × ℕ × ℕ → ℕ × ℕ × ℕ → Bool
is_greater (a, b, c) (x, y, z) =
    if not (nat_eq a x)
    then ltb x a
    else if not (nat_eq b y)
    then ltb y b
    else if not (nat_eq c z)
    then ltb z c
    else false

-- newerRelease
unfoldable pub newer_release : String → String → Bool
newer_release latest current = elim (release_parts latest) [
  | none ↦ false
  | some left ↦ elim (release_parts current) [
    | none ↦ false
    | some right ↦ is_greater (parse_release left) (parse_release right)
  ]
]

-- githubAsset
pub record Asset : Type 0 where
  pub name : String
  pub url : String
  pub size : ℤ

-- agentReleaseAssets
pub record Assets : Type 0 where
  pub binary : Asset
  pub checksum : Asset
  pub signature : Asset

abbrev pub no_asset : Asset
no_asset = record { name = ""; url = ""; size = pos 0 }

-- maxAgentBinaryBytes
abbrev pub max_agent_binary_bytes : ℕ
max_agent_binary_bytes = 268_435_456

-- The loop of selectAgentAssets over the assets of a release.
unfoldable pub pick_assets : String → List Asset → Assets → Assets
pick_assets base [] found = found
pick_assets base (asset ∷ assets) found = pick_assets base assets (
    if asset.name == base
    then record found { binary = asset }
    else if asset.name == base ++ ".sha256"
    then record found { checksum = asset }
    else if asset.name == base ++ ".sig"
    then record found { signature = asset }
    else found)

-- selectAgentAssets, on the operating system and the architecture.
unfoldable pub select_agent_assets : String → String → List Asset → String → Option Assets
unfolding pick_assets
select_agent_assets goos goarch assets tag =
    let plain =
      "dynapp-shell-agent-"
      ++ (normalized_release_version tag ++ ("-" ++ (goos ++ ("-" ++ goarch)))) in
    let base = if goos == "windows" then plain ++ ".exe" else plain in
    let found =
      pick_assets base assets
        (record { binary = no_asset; checksum = no_asset; signature = no_asset }) in
    if found.binary.name == ""
      || found.checksum.name == ""
      || found.binary.url == ""
      || found.checksum.url == ""
    then none
    else if found.signature.name == "" || found.signature.url == ""
    then none
    else if not (ltb_ℤ (pos 0) found.binary.size)
        || ltb_ℤ (pos max_agent_binary_bytes) found.binary.size
    then none
    else some found

-- updateAttemptBackoff, in nanoseconds, and recentUpdateAttempt, on the attempt that the file holds.
abbrev pub update_attempt_backoff : ℕ
update_attempt_backoff = 43_200_000_000_000

unfoldable pub recent_update_attempt : Option (String × Time) → String → Time → Bool
recent_update_attempt none version now = false
recent_update_attempt (some (attempted, at)) version now =
    attempted == version && ltb now (at + update_attempt_backoff)

-- bridgeUpdateDelay
unfoldable pub bridge_update_delay : ℤ → ℤ
bridge_update_delay max_bridge_delay =
    if ltb_ℤ (pos 0) max_bridge_delay then max_bridge_delay else pos 7_200_000_000_000

versions :
    (newer_release "v1.10.0" "1.9.7" ≡ true)
    × (newer_release "1.2.3-rc1" "1.2.3" ≡ false)
    × (is_release_version "dev" ≡ false)
    × (valid_repository "amitbet/dynapp-agent" ≡ true)
    × (valid_repository "amitbet" ≡ false)
unfolding newer_release release_parts is_greater parse_release parse_int is_release_version
    valid_repository normalized_release_version before_suffix is_number digits trim_space
    trim_prefix_char split_at contains_char is_repository_char
versions = (refl, refl, refl, refl, refl)
