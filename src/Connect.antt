-- ===== src/Connect.antt =====
-- shellagent/connect/http_connect.go: the allowlist of HTTP destinations.
use Prim.Native.String.{◌++◌}
use dynapp_agent.Prelude.{
  String, Bool, true, false, ◌||◌, ◌&&◌, List, [], ◌∷◌, ◌==◌, if◌then◌else◌, not, starts_with,
  Option, none, some, nat_eq, any_of,
}
use dynapp_agent.Text.{trim_space, ends_with, contains_char, split_at, sort_strings}
use dynapp_agent.Types.{Host, Url, Json, text, array, Items, nil, cons}
use dynapp_agent.Sets.{string_slice_has}

-- strings.TrimSuffix of one slash.
pub without_slash : String → String
without_slash String.[] = String.[]
without_slash (String.◌∷◌ c String.[]) =
    if String.◌∷◌ c String.[] == "/" then String.[] else String.◌∷◌ c String.[]
without_slash (String.◌∷◌ c (String.◌∷◌ d s)) = String.◌∷◌ c (without_slash (String.◌∷◌ d s))

-- The path of a URL as both functions read it: unescaped, with a slash in front.
pub rooted : String → String
rooted decoded = if starts_with decoded "/" then decoded else "/" ++ decoded

pub decoded_path : Host → Url → Option String
unfolding rooted
decoded_path host parsed =
    elim (host.path_unescape (if parsed.path == "" then "/" else parsed.path)) [
      | none ↦ none
      | some decoded ↦ some (rooted decoded)
    ]

pub has_parent_part : String → Bool
has_parent_part decoded = string_slice_has (split_at b'/' decoded) ".."

-- parseHTTPConnectPattern; `none` is its error. The scheme is given without its colon.
pattern_of_url : Host → String → Url → Option String
unfolding decoded_path has_parent_part
pattern_of_url host scheme parsed =
    if not (parsed.scheme == scheme)
      || parsed.host == ""
      || parsed.has_user
      || not (parsed.raw_query == "")
      || not (parsed.fragment == "")
    then none
    else if contains_char (λ c. nat_eq c b'*') parsed.hostname
    then none
    else elim (decoded_path host parsed) [
      | none ↦ none
      | some decoded ↦
          if contains_char (λ c. nat_eq c b'?' || nat_eq c b'*') decoded
          then none
          else if has_parent_part decoded
          then none
          else some (parsed.scheme ++ ("://" ++ (parsed.host ++ decoded)))
    ]

pub parse_http_connect_pattern : Host → String → String → Option String
unfolding pattern_of_url
parse_http_connect_pattern host value scheme = elim (host.parse_url (trim_space value)) [
  | none ↦ none
  | some parsed ↦ pattern_of_url host scheme parsed
]

-- httpConnectEntries: an entry that is no text reads as the empty text.
entries : Items → List String
entries nil = []
entries (cons (text s) items) = s ∷ entries items
entries (cons _ items) = "" ∷ entries items

pub http_connect_entries : Json → List String
unfolding entries
http_connect_entries (array items) = entries items
http_connect_entries _ = []

-- The loop of httpConnectPatterns.
pub patterns_loop : Host → String → List String → List String → Option (List String)
patterns_loop host scheme seen [] = some []
patterns_loop host scheme seen (value ∷ values) =
    elim (parse_http_connect_pattern host value scheme) [
      | none ↦ none
      | some pattern_text ↦
          let skip = patterns_loop host scheme seen values in
          let keep : Option (List String) =
            elim (patterns_loop host scheme (pattern_text ∷ seen) values) [
              | none ↦ none
              | some rest ↦ some (pattern_text ∷ rest)
            ] in
          if string_slice_has seen pattern_text then skip else keep
    ]

pub http_connect_patterns : Host → List String → String → Option (List String)
unfolding patterns_loop
http_connect_patterns host [] scheme = none
http_connect_patterns host (value ∷ values) scheme =
    elim (patterns_loop host scheme [] (value ∷ values)) [
      | none ↦ none
      | some patterns ↦ some (sort_strings patterns)
    ]

-- The path tests of urlAllowedByHTTPConnect against one pattern's path.
pub path_allowed : String → String → Bool
unfolding without_slash
path_allowed prefix decoded =
    if prefix == "/" || decoded == prefix
    then true
    else if ends_with prefix "/" && decoded == without_slash prefix
    then true
    else starts_with decoded (if ends_with prefix "/" then prefix else prefix ++ "/")

pub origin_of : Url → String
origin_of url = url.scheme ++ ("://" ++ url.host)

pub pattern_allows : Host → String → String → String → Bool
unfolding path_allowed origin_of
pattern_allows host origin decoded pattern_text = elim (host.parse_url pattern_text) [
  | none ↦ false
  | some allowed ↦
      if not (origin_of allowed == origin)
      then false
      else path_allowed (if allowed.path == "" then "/" else allowed.path) decoded
]

pub url_allowed_by_http_connect : Host → String → List String → Bool
unfolding decoded_path has_parent_part pattern_allows
url_allowed_by_http_connect host raw patterns = elim (host.parse_url raw) [
  | none ↦ false
  | some parsed ↦ if parsed.has_user then false else elim (decoded_path host parsed) [
    | none ↦ false
    | some decoded ↦
        if has_parent_part decoded
        then false
        else any_of (pattern_allows host (origin_of parsed) decoded) patterns
  ]
]
