-- ===== src/Examples/Samples.antt =====
-- A small agent: one authority, one app, and one key that asks to pair.
use dynapp_agent.Prelude.{
  String, Bool, true, false, List, [], ◌∷◌, ◌==◌, refl, if◌then◌else◌, Option, none, some,
}
use dynapp_agent.Text.{sort_strings, trim_space}
use dynapp_agent.Types.{
  Host, number, text, array, nil, cons, Fields, end, field, Config, BrowserIdentity, BrowserJwk,
  BrowserClient, ResolvedApp, DirectLocalInit, DirectLocalProof, Url,
}
use dynapp_agent.Types.Numbers.{pos}
use dynapp_agent.Sets.{string_slice_has, normalize_permission_set}
use dynapp_agent.Permissions.{
  Agent, PendingRequest, PreApproval, pairing, RequestTemplate, track_live_socket,
}
use dynapp_agent.Permissions.Edit.{Selector}
use dynapp_agent.Handshake.{Waiting, auth_for_identity}
use dynapp_agent.Handshake.Invariant.{manages, is_contained, OnlyAuthorityManages}

-- A host whose URL parser knows two origins.
abbrev pub sample_url : String → String → String → Url
sample_url scheme host hostname = record {
  scheme = scheme;
  host = host;
  hostname = hostname;
  path = "";
  raw_query = "";
  fragment = "";
  has_user = false;
}

abbrev pub sample_parse : String → Option Url
sample_parse origin =
    if origin == "https://dyner.net"
    then some (sample_url "https" "dyner.net" "dyner.net")
    else if origin == "http://127.0.0.1:8080"
    then some (sample_url "http" "127.0.0.1:8080" "127.0.0.1")
    else none

abbrev pub sample_host : Host
sample_host = record {
  parse_url = sample_parse;
  path_unescape = λ s. some s;
  to_lower = λ s. s;
  equal_fold = λ s t. s == t;
  sprint = λ value. "";
  is_loopback_ip = λ s. s == "127.0.0.1";
  is_private_ip = λ s. s == "127.0.0.1";
  is_ip = λ s. s == "127.0.0.1";
  is_local_ip = λ s. s == "127.0.0.1";
  key_digest = λ (key : BrowserJwk). key.x;
  verify_signature = λ key nonce origin id signature. signature == nonce;
}

abbrev pub no_fetch : Config → String → Option Fields
no_fetch config store_id = none

abbrev pub sample_jwk : BrowserJwk
sample_jwk = record {
  kty = "EC";
  crv = "P-256";
  x = "aaaaaaaaaaaaaaaaaaaaaaaaaaaaaaaaaaaaaaaaaaa";
  y = "bbbbbbbbbbbbbbbbbbbbbbbbbbbbbbbbbbbbbbbbbbb";
}

abbrev pub sample_client : BrowserClient
sample_client = record {
  browser = "";
  version = "";
  platform = "";
  mobile = false;
  mode = "";
  label = "";
}

abbrev pub sample_identity : String → String → String → List String → Bool → BrowserIdentity
sample_identity key_id origin store_id capabilities authority = record {
  key_id = key_id;
  public_key_jwk = sample_jwk;
  origin = origin;
  capabilities = capabilities;
  store_id = store_id;
  connect = [];
  approved_at = pos 5;
  declared = capabilities;
  authority = authority;
  client = sample_client;
}

abbrev pub authority : BrowserIdentity
authority =
    sample_identity "aaaaaaaaaaaaaaaaaaaaaaaaaaaaaaaaaaaaaaaaaaa" "https://dyner.net" "dyner/store"
      ("permissions.manage" ∷ "apps.manage" ∷ []) true

abbrev pub notes : BrowserIdentity
notes =
    sample_identity "ccccccccccccccccccccccccccccccccccccccccccc" "http://127.0.0.1:8080"
      "ann/notes" ("fs.read" ∷ []) false

abbrev pub sample_config : Config
sample_config = record {
  dyner_base_url = "https://dyner.net";
  environment_id = "";
  app_domain = "";
  catalog_app_id = "";
  authority_origins = [];
  browser_identities = authority ∷ notes ∷ [];
  native_apps = [];
}

abbrev pub sample_approval : PreApproval
sample_approval = record {
  store_id = "ann/notes";
  capabilities = "fs.read" ∷ "fs.write" ∷ [];
  expires_at = 900;
}

abbrev pub sample_request : PendingRequest
sample_request = record {
  id = "r1";
  code = "ABCD";
  kind = pairing;
  store_id = "ann/notes";
  app_name = "notes";
  origin = "http://127.0.0.1:8080";
  development = true;
  declared = "fs.read" ∷ "fs.write" ∷ [];
  created_at = 1;
  expires_at = 700;
  decision = none;
  registered = true;
}

abbrev pub sample_agent : Agent
sample_agent = record {
  config = sample_config;
  requests = sample_request ∷ [];
  preapproved = sample_approval ∷ [];
  live = [];
  subscribers = [];
  effects = [];
  auto_approve_pairings = false;
}

pub sample_agent-OnlyAuthorityManages : OnlyAuthorityManages sample_agent
unfolding is_contained manages normalize_permission_set string_slice_has sort_strings trim_space
sample_agent-OnlyAuthorityManages = ((refl, (refl, tt)), (refl, tt))

abbrev pub sample_app : ResolvedApp
sample_app = record {
  store_id = "ann/notes";
  name = "notes";
  development = true;
  declared = "fs.read" ∷ "fs.write" ∷ [];
  connect = [];
}

abbrev pub sample_init : DirectLocalInit
sample_init = record {
  kind = "dynapp-direct-local-init";
  version = pos 2;
  public_key_jwk = some sample_jwk;
  app = some (record {
    store_id = "ann/notes";
    declared_permissions = cons (text "fs.read") (cons (text "permissions.manage") nil);
    connect = none;
  });
  client = none;
}

abbrev pub sample_proof : DirectLocalProof
sample_proof = record {
  kind = "dynapp-direct-local-auth";
  version = pos 1;
  key_id = "aaaaaaaaaaaaaaaaaaaaaaaaaaaaaaaaaaaaaaaaaaa";
  origin = "http://127.0.0.1:8080";
  signature = "nonce";
}

abbrev pub sample_draws : List (Option (String × String))
sample_draws = some ("ABCD", "r2") ∷ some ("EFGH", "r2") ∷ []

abbrev pub sample_template : RequestTemplate
sample_template = record {
  kind = pairing;
  store_id = "ann/todo";
  app_name = "todo";
  origin = "http://127.0.0.1:8080";
  development = true;
  declared = "fs.list" ∷ [];
}

abbrev pub sample_waiting : Waiting
sample_waiting = record {
  identity = sample_identity "ddd" "http://127.0.0.1:8080" "" [] false;
  app = sample_app;
  request = sample_request;
}

abbrev pub decide_args : Fields
decide_args =
    field "id" (text "r1")
      (field "capabilities" (array (cons (text "fs.read") (cons (text "fs.exec") nil))) end)

abbrev pub preapprove_args : Fields
preapprove_args = field "storeId" (text "ann/notes") (
    field "capabilities" (array (cons (text "fs.read") nil))
      (field "expiresInMs" (number (pos 10_000_000_000_000)) end))

abbrev pub notes_selector : Selector
notes_selector = record {
  key_id = "ccccccccccccccccccccccccccccccccccccccccccc";
  origin = "http://127.0.0.1:8080";
  store_id = "ann/notes";
}

abbrev pub update_args : Fields
update_args = field "keyId" (text "ccccccccccccccccccccccccccccccccccccccccccc") (
    field "origin" (text "http://127.0.0.1:8080") (
      field "storeId" (text "ann/notes")
        (field "capabilities" (array (cons (text "permissions.manage") nil)) end)))

abbrev pub live_agent : Agent
live_agent = track_live_socket 7 (auth_for_identity notes (some sample_app)) sample_agent
