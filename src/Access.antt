-- ===== src/Access.antt =====
-- The gates of shellagent/agent.go: which capability a frame needs, and whether a socket holds it.
pub mod Gate
use dynapp_agent.Prelude.{
  String, Bool, true, false, ◌||◌, ◌&&◌, List, [], ◌∷◌, ◌==◌, if◌then◌else◌, ◌≡◌, refl, not,
  starts_with, Option, none, some,
}
use Prim.Native.String.{◌++◌}
use dynapp_agent.Types.{Host, Fields, lookup_field, string_value}
use dynapp_agent.Sets.{string_slice_has}

-- fsRemoteExcluded
abbrev pub fs_remote_excluded : List String
fs_remote_excluded =
    "fs.exec" ∷ "fs.execFile" ∷ "fs.execTerminal" ∷ "fs.openPath" ∷ "fs.openWith" ∷ []

allows_loop : List String → String → Bool
allows_loop [] required = false
allows_loop (value ∷ values) required =
    value == required
    || (value == "fs.remote"
        && (starts_with required "fs." && not (string_slice_has fs_remote_excluded required)))
    || allows_loop values required

unfoldable pub socket_allows : List String → String → Bool
unfolding allows_loop
socket_allows allowed required = if required == "" then true else allows_loop allowed required

-- networkCapability
pub network_capability : String → String
network_capability protocol =
    if protocol == "tcp" || protocol == "udp"
    then "net." ++ (protocol ++ ".connect")
    else "net.protocol." ++ protocol

unfoldable pub filesystem_capability : String → String
filesystem_capability method =
    if method == "readChunkBinary"
    then "fs.readChunk"
    else if method == "writeChunkBinary"
    then "fs.writeChunk"
    else if method == "packZip"
    then "fs.pack"
    else if method == "openWithOptions"
    then "fs.openWith"
    else if method == "watchSnapshot"
    then "fs.watch"
    else "fs." ++ method

clipboard_capability : String → String
clipboard_capability method =
    if method == "readText" || method == "readImage" || method == "readFiles"
    then "clipboard.read"
    else "clipboard.write"

-- The services whose capability does not depend on the method.
fixed_capability : String → Option String
fixed_capability service = find_capability (
    ("screen", "screen.capture")
    ∷ ("tray", "tray.manage")
    ∷ ("globalShortcut", "globalShortcut")
    ∷ ("agent", "agent.session")
    ∷ ("calendar", "calendar.read")
    ∷ ("fileSearch", "search.files")
    ∷ ("secrets", "secrets.manage")
    ∷ ("ftp", "net.protocol.ftp")
    ∷ ("sftp", "net.protocol.sftp")
    ∷ ("sessions", "sessions.manage")
    ∷ ("associations", "fileAssociations.manage")
    ∷ ("fileImport", "file.import")
    ∷ ("drag", "drag.files")
    ∷ ("dropTarget", "drop.files")
    ∷ ("externalOpen", "externalOpen.files")
    ∷ ("lan", "remoteEnv.manage")
    ∷ ("permissions", "permissions.manage")
    ∷ [])
  where
    find_capability : List (String × String) → Option String
    find_capability [] = none
    find_capability ((name, required) ∷ rows) =
        if name == service then some required else find_capability rows

-- rpcCapability, of the service, the method and the first argument.
pub rpc_capability : Host → String → String → Fields → String
unfolding clipboard_capability fixed_capability
rpc_capability host service method args = elim (fixed_capability service) [
  | some required ↦ required
  | none ↦
      if service == "system"
      then (if method == "terminate" then "system.processes.terminate" else "system.ports.read")
      else if service == "http"
      then elim (host.parse_url (string_value host (lookup_field "url" args))) [
        | some parsed ↦ "net.protocol." ++ parsed.scheme
        | none ↦ "net.protocol.https"
      ]
      else if service == "clipboard"
      then clipboard_capability method
      else if service == "apps"
      then (if method == "publish" then "apps.publish" else "apps.manage")
      else service
]
