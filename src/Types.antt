-- ===== src/Types.antt =====
-- The data that the components share: decoded JSON, the records of shellagent/config.go,
-- shellagent/app_resolution.go, shellagent/native_apps.go and shellagent/agent.go, signed 64-bit
-- numbers, and the functions that the agent takes from outside.
pub mod Numbers
use dynapp_agent.Prelude.{String, Bool, List, [], ◌∷◌, Option, ◌==◌, if◌then◌else◌}
use Numbers.{ℤ}

-- A decoded JSON value (Go's `any`). Numbers are whole here.
mutual
  pub data Json : Type 0 where
    null : Json
    boolean : Bool → Json
    number : ℤ → Json
    text : String → Json
    array : Items → Json
    object : Fields → Json

  pub data Items : Type 0 where
    nil : Items
    cons : Json → Items → Items

  pub data Fields : Type 0 where
    end : Fields
    field : String → Json → Fields → Fields

-- url.URL, as far as the agent reads it.
pub record Url : Type 0 where
  pub scheme : String
  pub host : String
  pub hostname : String
  pub path : String
  pub raw_query : String
  pub fragment : String
  pub has_user : Bool

-- BrowserJWK
pub record BrowserJwk : Type 0 where
  pub kty : String
  pub crv : String
  pub x : String
  pub y : String

-- BrowserClient
pub record BrowserClient : Type 0 where
  pub browser : String
  pub version : String
  pub platform : String
  pub mobile : Bool
  pub mode : String
  pub label : String

-- A Go map[string][]string.
abbrev pub Connect : Type 0
Connect = List (String × List String)

-- BrowserIdentity
pub record BrowserIdentity : Type 0 where
  pub key_id : String
  pub public_key_jwk : BrowserJwk
  pub origin : String
  pub capabilities : List String
  pub store_id : String
  pub connect : Connect
  pub approved_at : ℤ
  pub declared : List String
  pub authority : Bool
  pub client : BrowserClient

-- NativeApp, without the fields that identify the installed bundle.
pub record NativeApp : Type 0 where
  pub store_id : String
  pub name : String
  pub origin : String
  pub path : String
  pub capabilities : List String
  pub declared : List String
  pub connect : Connect
  pub approved_at : ℤ
  pub authority : Bool

-- Config, without the listener and relay settings.
pub record Config : Type 0 where
  pub dyner_base_url : String
  pub environment_id : String
  pub app_domain : String
  pub catalog_app_id : String
  pub authority_origins : List String
  pub browser_identities : List BrowserIdentity
  pub native_apps : List NativeApp

-- resolvedApp
pub record ResolvedApp : Type 0 where
  pub store_id : String
  pub name : String
  pub development : Bool
  pub declared : List String
  pub connect : Connect

-- directLocalApp
pub record DirectLocalApp : Type 0 where
  pub store_id : String
  pub declared_permissions : Items
  pub connect : Option Fields

-- directLocalInit
pub record DirectLocalInit : Type 0 where
  pub kind : String
  pub version : ℤ
  pub public_key_jwk : Option BrowserJwk
  pub app : Option DirectLocalApp
  pub client : Option BrowserClient

-- directLocalProof
pub record DirectLocalProof : Type 0 where
  pub kind : String
  pub version : ℤ
  pub key_id : String
  pub origin : String
  pub signature : String

-- socketAuthentication, without the environment record sent back in the hello.
pub record SocketAuthentication : Type 0 where
  pub capabilities : List String
  pub stored : List String
  pub declared : List String
  pub connect : Connect
  pub key_id : String
  pub origin : String
  pub store_id : String
  pub app_name : String
  pub development : Bool
  pub ok : Bool

-- What the agent calls and does not implement: parsing of URLs and IP addresses, case mapping,
-- printing of values, and cryptography.
pub record Host : Type 0 where
  -- url.Parse; `none` is its error.
  pub parse_url : String → Option Url
  -- url.PathUnescape; `none` is its error.
  pub path_unescape : String → Option String
  -- strings.ToLower and strings.EqualFold.
  pub to_lower : String → String
  pub equal_fold : String → String → Bool
  -- fmt.Sprint of a value that is no string.
  pub sprint : Json → String
  -- net.ParseIP followed by IsLoopback, and by the tests of privateOrLoopbackHost.
  pub is_loopback_ip : String → Bool
  pub is_private_ip : String → Bool
  -- net.ParseIP succeeds; and the tests of isLocalNetworkHost on the address.
  pub is_ip : String → Bool
  pub is_local_ip : String → Bool
  -- The digest of a public key, as BrowserKeyID prints it.
  pub key_digest : BrowserJwk → String
  -- The decoding of key and signature and the ECDSA check of verifyBrowserProof: key, nonce,
  -- origin, key id, signature.
  pub verify_signature : BrowserJwk → String → String → String → String → Bool

-- A field of a decoded object; a missing one reads as null.
unfoldable pub lookup_field : String → Fields → Json
lookup_field name end = null
lookup_field name (field key value fields) = if key == name then value else lookup_field name fields

-- stringValue
unfoldable pub string_value : Host → Json → String
string_value host null = ""
string_value host (text s) = s
string_value host (boolean b) = host.sprint (boolean b)
string_value host (number n) = host.sprint (number n)
string_value host (array items) = host.sprint (array items)
string_value host (object fields) = host.sprint (object fields)

-- stringList: the texts of an array.
texts : Items → List String
texts nil = []
texts (cons (text s) items) = s ∷ texts items
texts (cons _ items) = texts items

unfoldable pub string_list : Json → List String
unfolding texts
string_list (array items) = texts items
string_list _ = []
