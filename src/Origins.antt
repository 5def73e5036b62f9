-- ===== src/Origins.antt =====
-- Which origins and app ids the agent accepts: shellagent/app_resolution.go, the origin helpers of
-- shellagent/config.go and originEquivalent of shellagent/browser_identity.go.
use Prim.Native.String.{◌++◌, len}
use dynapp_agent.Prelude.{
  ℕ, String, code, Bool, true, false, ◌||◌, ◌&&◌, List, ◌==◌, if◌then◌else◌, not, Option, none,
  some, nat_eq, leb, any_of,
}
use dynapp_agent.Text.{
  trim_space, cut_at, after_last, without_char, trim_if, trim_prefix_char, trim_prefix, ends_with,
}
use dynapp_agent.Types.{Host, Url, Config, BrowserIdentity}

abbrev pub compiled_dyner_base_url : String
compiled_dyner_base_url = "https://dynapp.io"

abbrev pub default_catalog_app_id : String
default_catalog_app_id = "amit-bet/dyner"

-- storeIDPattern: two segments of [a-z0-9][a-z0-9._-]* around one slash.
is_id_start : ℕ → Bool
is_id_start c = (leb b'a' c && leb c b'z') || (leb b'0' c && leb c b'9')

is_id_char : ℕ → Bool
unfolding is_id_start
is_id_char c = is_id_start c || (nat_eq c b'.' || (nat_eq c b'_' || nat_eq c b'-'))

all_id_chars : String → Bool
unfolding is_id_char
all_id_chars String.[] = true
all_id_chars (String.◌∷◌ c s) = is_id_char (code c) && all_id_chars s

is_segment : String → Bool
unfolding all_id_chars
is_segment String.[] = false
is_segment (String.◌∷◌ c s) = is_id_start (code c) && all_id_chars s

matches_store_id : String → Bool
unfolding is_segment
matches_store_id value = elim (cut_at b'/' value) [
  | none ↦ false
  | some (owner, slug) ↦ is_segment owner && is_segment slug
]

unfoldable pub valid_store_id : String → Bool
unfolding matches_store_id
valid_store_id value = leb (len value) 160 && matches_store_id value

unfoldable pub store_slug : String → String
store_slug store_id = elim (after_last b'/' store_id) [ none ↦ store_id | some slug ↦ slug ]

-- originKind
pub data OriginKind : Type 0 where
  rejected development hosted identified : OriginKind

module _ (host : Host) where
  -- appIDMatches
  unfoldable pub app_id_matches : String → String → Bool
  app_id_matches bound_store_id frame_app_id =
      if frame_app_id == ""
      then true
      else if bound_store_id == ""
      then false
      else frame_app_id == bound_store_id
        || host.equal_fold frame_app_id (store_slug bound_store_id)

  unfoldable pub loopback_hostname : String → Bool
  loopback_hostname hostname =
      let name =
        host.to_lower (trim_if (λ c. nat_eq c b'[' || nat_eq c b']') (trim_space hostname)) in
      if name == "localhost" then true else host.is_loopback_ip name

  -- privateOrLoopbackHost of shellagent/lan.go
  unfoldable pub private_or_loopback_host : String → Bool
  private_or_loopback_host hostname =
      let trimmed = trim_space hostname in
      if host.equal_fold trimmed "localhost" then true else host.is_private_ip trimmed

  -- The tests that parseOrigin makes on a parsed URL.
  bare_origin : Url → Bool
  bare_origin url =
      not (url.host == "")
      && (url.path == "" && (url.raw_query == "" && (url.fragment == "" && not url.has_user)))

  unfoldable pub parse_origin : String → Option Url
  unfolding bare_origin
  parse_origin value = elim (host.parse_url (trim_space value)) [
    | none ↦ none
    | some parsed ↦
        if not (bare_origin parsed)
        then none
        else if not (parsed.scheme == "https") && not (parsed.scheme == "http")
        then none
        else some parsed
  ]

  -- strings.ToLower(parsed.Scheme + "://" + parsed.Host)
  unfoldable pub canonical_origin : Url → String
  canonical_origin url = host.to_lower (url.scheme ++ "://" ++ url.host)

  -- validIdentityOrigin
  unfoldable pub valid_identity_origin : String → Bool
  unfolding bare_origin
  valid_identity_origin origin = elim (host.parse_url origin) [
    | none ↦ false
    | some parsed ↦
        if not (bare_origin parsed)
        then false
        else if parsed.scheme == "https"
        then true
        else parsed.scheme == "http" && loopback_hostname parsed.hostname
  ]

  unfoldable pub origin_equivalent : String → String → Bool
  origin_equivalent identity_origin candidate =
      if identity_origin == candidate then true else elim (host.parse_url identity_origin) [
        | none ↦ false
        | some identity_url ↦ elim (host.parse_url candidate) [
          | none ↦ false
          | some candidate_url ↦
              identity_url.host == candidate_url.host
              && (identity_url.scheme == "https"
                  && (candidate_url.scheme == "http"
                      && private_or_loopback_host candidate_url.hostname))
        ]
      ]

  -- sameIdentityOrigin
  unfoldable pub same_identity_origin : String → String → Bool
  same_identity_origin left right =
      left == right || (origin_equivalent left right || origin_equivalent right left)

  -- isLocalNetworkHost of shellagent/config.go
  unfoldable pub is_local_network_host : String → Bool
  is_local_network_host hostname =
      let name = host.to_lower (trim_if (λ c. nat_eq c b'[' || nat_eq c b']') hostname) in
      if name == "localhost" || (ends_with name ".localhost" || ends_with name ".local")
      then true
      else if name == "::1" || name == "0.0.0.0"
      then true
      else host.is_local_ip name

  base_url : Config → String
  base_url config =
      let base = trim_space config.dyner_base_url in
      if base == "" then compiled_dyner_base_url else base

  unfoldable pub app_domain : Config → String
  unfolding base_url
  app_domain config =
      let domain = host.to_lower (trim_space config.app_domain) in
      let derived : String = elim (host.parse_url (base_url config)) [
        | none ↦ "dynapp.io"
        | some parsed ↦
            let name = host.to_lower parsed.hostname in
            if name == "" || (is_local_network_host name || host.is_ip name)
            then ""
            else trim_prefix name "www."
      ] in
      if not (domain == "") then trim_prefix_char b'.' domain else derived

  unfoldable pub dyner_base_origin : Config → String
  unfolding base_url
  dyner_base_origin config = elim (host.parse_url (base_url config)) [
    | none ↦ ""
    | some parsed ↦ if parsed.host == "" then "" else canonical_origin parsed
  ]

  unfoldable pub catalog_app_id : Config → String
  catalog_app_id config =
      let id = trim_space config.catalog_app_id in
      if valid_store_id id then id else default_catalog_app_id

  unfoldable pub catalog_hosted_origin : Config → String
  catalog_hosted_origin config =
      let domain = app_domain config in
      let hosted : String = elim (cut_at b'/' (catalog_app_id config)) [
        | none ↦ ""
        | some (owner, slug) ↦
            if owner == "" || slug == ""
            then ""
            else "https://"
              ++ host.to_lower (without_char b'-' owner ++ "-" ++ slug ++ "." ++ domain)
      ] in
      if domain == "" then "" else hosted

  -- The loop over the configured extra origins.
  names_origin : String → String → Bool
  names_origin canonical candidate = elim (parse_origin candidate) [
    | none ↦ false
    | some extra ↦ canonical_origin extra == canonical
  ]

  -- isAuthorityOrigin after its parseOrigin.
  is_authority_canonical : Config → String → Bool
  unfolding names_origin
  is_authority_canonical config canonical =
      let base = dyner_base_origin config in
      let hosted = catalog_hosted_origin config in
      if not (base == "") && canonical == base
      then true
      else if not (hosted == "") && canonical == hosted
      then true
      else any_of (names_origin canonical) config.authority_origins

  unfoldable pub is_authority_origin : Config → String → Bool
  unfolding is_authority_canonical
  is_authority_origin config origin = elim (parse_origin origin) [
    | none ↦ false
    | some parsed ↦ is_authority_canonical config (canonical_origin parsed)
  ]

  identity_has_origin : String → BrowserIdentity → Bool
  identity_has_origin canonical identity =
      identity.origin == canonical || origin_equivalent identity.origin canonical

  -- The hosted domain of the app store, or a subdomain of it, over https.
  is_hosted : Config → Url → String → Bool
  is_hosted config parsed name =
      let domain = app_domain config in
      parsed.scheme == "https"
      && (not (domain == "") && (name == domain || ends_with name ("." ++ domain)))

  classify_parsed : Config → List BrowserIdentity → Url → OriginKind
  unfolding is_hosted identity_has_origin
  classify_parsed config identities parsed =
      let name = host.to_lower parsed.hostname in
      let canonical = canonical_origin parsed in
      if loopback_hostname name
      then development
      else if is_authority_origin config canonical
      then hosted
      else if is_hosted config parsed name
      then hosted
      else if any_of (identity_has_origin canonical) identities
      then identified
      else rejected

  unfoldable pub classify_origin : Config → List BrowserIdentity → String → OriginKind
  unfolding classify_parsed
  classify_origin config identities origin = elim (parse_origin origin) [
    | none ↦ rejected
    | some parsed ↦ classify_parsed config identities parsed
  ]

  -- originAllowed
  unfoldable pub origin_allowed : Config → String → Bool
  origin_allowed config origin = elim (classify_origin config config.browser_identities origin) [
    | rejected ↦ false
    | _ ↦ true
  ]

  -- legacyHostedOriginMatches
  unfoldable pub legacy_hosted_origin_matches : Config → String → String → Bool
  legacy_hosted_origin_matches config origin store_id =
      let base = dyner_base_origin config in
      let domain = app_domain config in
      let expected : String = elim (cut_at b'/' store_id) [
        | none ↦ without_char b'-' store_id ++ "-" ++ "." ++ domain
        | some (owner, slug) ↦ without_char b'-' owner ++ "-" ++ slug ++ "." ++ domain
      ] in
      if not (base == "") && origin == base then true else elim (parse_origin origin) [
        | none ↦ false
        | some parsed ↦
            parsed.scheme == "https"
            && (not (domain == "") && host.equal_fold parsed.hostname expected)
      ]
