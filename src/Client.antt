-- ===== src/Client.antt =====
-- shellagent/browser_client.go: the description of a browser that is kept with its key.
use Prim.Native.String.{◌++◌}
use dynapp_agent.Prelude.{
  ℕ, zero, suc, String, code, Bool, true, false, ◌||◌, ◌&&◌, ◌==◌, if◌then◌else◌, not, nat_eq, ltb,
  Option, none, some,
}
use dynapp_agent.Text.{trim_space}
use dynapp_agent.Types.{Host, BrowserClient, BrowserIdentity}

abbrev pub empty_client : BrowserClient
empty_client = record {
  browser = "";
  version = "";
  platform = "";
  mobile = false;
  mode = "";
  label = "";
}

same_flag : Bool → Bool → Bool
same_flag true b = b
same_flag false b = not b

-- The comparison `next == identity.Client`.
pub same_client : BrowserClient → BrowserClient → Bool
unfolding same_flag
same_client a b =
    a.browser == b.browser
    && (a.version == b.version
        && (a.platform == b.platform
            && (same_flag a.mobile b.mobile && (a.mode == b.mode && a.label == b.label))))

pub is_empty : BrowserClient → Bool
is_empty client =
    client.browser == ""
    && (client.version == ""
        && (client.platform == ""
            && (not client.mobile && (client.mode == "" && client.label == ""))))

-- The loop of clipBrowserClientField over the runes: `count` more of them may be written.
clip_loop : ℕ → String → String
clip_loop count String.[] = String.[]
clip_loop zero (String.◌∷◌ c s) =
    let rest = clip_loop zero s in
    if ltb (code c) 32 || nat_eq (code c) 127 then rest else String.[]
clip_loop (suc count) (String.◌∷◌ c s) =
    let skip = clip_loop (suc count) s in
    let keep = String.◌∷◌ c (clip_loop count s) in
    if ltb (code c) 32 || nat_eq (code c) 127 then skip else keep

pub clip_field : String → String
unfolding clip_loop
clip_field value = trim_space (clip_loop 80 (trim_space value))

-- formatBrowserClientLabel: the parts joined by a middle dot.
platform_part : String → String → String
platform_part name platform =
    if platform == "" then name else if name == "" then platform else name ++ (" on " ++ platform)

mode_part : String → String
mode_part mode =
    if mode == "pwa" then "installed app" else if mode == "tab" then "browser tab" else ""

pub format_label : BrowserClient → String
unfolding platform_part mode_part
format_label client =
    let name = trim_space (client.browser ++ (" " ++ client.version)) in
    let first = platform_part name (trim_space client.platform) in
    let second = mode_part client.mode in
    if first == "" then second else if second == "" then first else first ++ (" · " ++ second)

known_mode : String → String
known_mode mode = if not (mode == "pwa") && not (mode == "tab") then "" else mode

with_label : BrowserClient → BrowserClient
with_label client =
    if is_empty client
    then empty_client
    else if client.label == ""
    then record client { label = format_label client }
    else client

pub normalize_client : Host → Option BrowserClient → BrowserClient
unfolding with_label known_mode
normalize_client host none = empty_client
normalize_client host (some incoming) = with_label (record {
  browser = clip_field incoming.browser;
  version = clip_field incoming.version;
  platform = clip_field incoming.platform;
  mobile = incoming.mobile;
  mode = known_mode (host.to_lower (trim_space incoming.mode));
  label = clip_field incoming.label;
})

-- applyBrowserClient: the identity with the description taken over, and whether it changed.
unfoldable pub apply_browser_client :
    Host → BrowserIdentity → Option BrowserClient → BrowserIdentity × Bool
apply_browser_client host identity incoming =
    let next = normalize_client host incoming in
    if is_empty next || same_client next identity.client
    then (identity, false)
    else (record identity { client = next }, true)
