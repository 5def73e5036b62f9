-- ===== src/Frames.antt =====
-- What an authenticated socket does with a frame: serveAuthenticatedSocket and
-- handleFilesystemChannel of shellagent/agent.go, and the loop of shellagent/relay.go.
pub mod Permitted
pub mod Binary
pub mod Native
use Prim.Native.String.{◌++◌}
use dynapp_agent.Prelude.{
  ℕ, String, Bool, true, false, ◌||◌, ◌&&◌, List, [], ◌∷◌, ◌==◌, not, if◌then◌else◌, Option, none,
  some,
}
use dynapp_agent.Types.{
  Host, Json, null, boolean, number, text, array, object, Fields, Config, SocketAuthentication,
}
use dynapp_agent.Types.Numbers.{ℤ, pos, negsuc, is_zero, ltb_ℤ}
use dynapp_agent.Access.{socket_allows, network_capability, filesystem_capability, rpc_capability}
use dynapp_agent.Origins.{app_id_matches}
use dynapp_agent.Grants.{has_browser_identity}

-- The fields of `message` that the loop reads. `input` is the first argument, where it is an object.
pub record Frame : Type 0 where
  pub kind : String
  pub id : String
  pub protocol : Json
  pub method : String
  pub service : String
  pub app_id : String
  pub input : Fields
  pub command : String
  pub action : String
  pub channel_kind : String
  pub bridge_id : String

-- protocolString and protocolNumber
unfoldable pub protocol_string : Json → String
protocol_string (text s) = s
protocol_string _ = ""

unfoldable pub protocol_number : Json → ℤ
protocol_number (number n) = n
protocol_number _ = pos 0

-- LegacyProtocolVersion and ProtocolVersion
abbrev pub legacy_protocol_version : ℤ
legacy_protocol_version = pos 1

abbrev pub protocol_version : ℤ
protocol_version = pos 2

-- The services that a frame can reach.
pub data Call : Type 0 where
  filesystem exec process presentation rpc : Call
  -- The action of a `net` frame and the protocol it names.
  network : String → String → Call

-- What the loop does with one frame.
pub data Reaction : Type 0 where
  -- The socket is closed: the pairing has been revoked.
  revoked : Reaction
  -- The frame names another app than the one the socket is paired for.
  mismatched : Reaction
  pong : Reaction
  -- A capability is missing.
  denied : String → Reaction
  -- A service is called with the app id.
  calls : Call → String → Reaction
  -- net-data and net-close
  data_for : String → Reaction
  close_of : String → Reaction
  binds_datagrams : String → Reaction
  invalid_channel : Reaction
  unknown : Reaction

unfoldable pub is_presentation : String → Bool
is_presentation service =
    service == "tray"
    || service == "globalShortcut"
    || service == "screen"
    || service == "dropTarget"

unfoldable pub exec_capability : String → String
exec_capability command = if command == "" then "fs.execFile" else "fs.exec"

abbrev pub same_ℤ : ℤ → ℤ → Bool
same_ℤ a b = not (ltb_ℤ a b) && not (ltb_ℤ b a)

-- Whether one of the two capabilities of a `net` frame is held.
unfoldable pub net_allowed : List String → String → Bool
net_allowed capabilities protocol =
    socket_allows capabilities ("net." ++ (protocol ++ ".connect"))
    || socket_allows capabilities ("net.protocol." ++ protocol)

-- The kinds of frame that a capability guards.
unfoldable pub guarded : Bool → String → Call → String → Reaction
guarded allowed required call app_id = if allowed then calls call app_id else denied required

module _ (host : Host) where
  -- The switch over the types of frames, for the capabilities of the socket and the app id the frame is
  -- bound to.
  unfoldable pub dispatch : List String → String → Frame → Reaction
  unfolding guarded net_allowed exec_capability is_presentation protocol_string protocol_number
  dispatch capabilities app_id frame =
      let protocol = protocol_string frame.protocol in
      if frame.kind == "ping"
      then pong
      else if frame.kind == "fs"
      then guarded (socket_allows capabilities (filesystem_capability frame.method))
          (filesystem_capability frame.method) filesystem app_id
      else if frame.kind == "exec"
      then guarded (socket_allows capabilities (exec_capability frame.command))
          (exec_capability frame.command) exec app_id
      else if frame.kind == "process"
      then calls process app_id
      else if frame.kind == "rpc"
      then guarded
          (socket_allows capabilities (rpc_capability host frame.service frame.method frame.input))
          (rpc_capability host frame.service frame.method frame.input)
          (if is_presentation frame.service then presentation else rpc) app_id
      else if frame.kind == "net"
      then guarded (net_allowed capabilities protocol) (network_capability protocol)
          (network frame.action protocol) app_id
      else if frame.kind == "net-data"
      then data_for frame.bridge_id
      else if frame.kind == "net-close"
      then close_of frame.bridge_id
      else if frame.kind == "channel"
      then (if frame.action == "bind"
            && frame.channel_kind == "datagram"
            && same_ℤ (protocol_number frame.protocol) protocol_version
          then binds_datagrams frame.bridge_id
          else invalid_channel)
      else unknown

  -- One turn of the loop of serveAuthenticatedSocket, on the configuration at that moment.
  unfoldable pub serve_frame : Config → SocketAuthentication → Frame → Reaction
  serve_frame config auth frame =
      if not (auth.key_id == "") && not (has_browser_identity config auth)
      then revoked
      else if auth.store_id == ""
      then dispatch auth.capabilities frame.app_id frame
      else if app_id_matches host auth.store_id frame.app_id
      then dispatch auth.capabilities auth.store_id frame
      else mismatched

  -- The switch of the relay's loop. It never sets ProtocolName, so the protocol of a `net` frame is the
  -- empty text there.
  unfoldable pub relay_dispatch : List String → Frame → Reaction
  unfolding guarded net_allowed exec_capability
  relay_dispatch capabilities frame =
      if frame.kind == "ping"
      then pong
      else if frame.kind == "fs"
      then guarded (socket_allows capabilities (filesystem_capability frame.method))
          (filesystem_capability frame.method) filesystem frame.app_id
      else if frame.kind == "exec"
      then guarded (socket_allows capabilities (exec_capability frame.command))
          (exec_capability frame.command) exec frame.app_id
      else if frame.kind == "process"
      then calls process frame.app_id
      else if frame.kind == "rpc"
      then guarded
          (socket_allows capabilities (rpc_capability host frame.service frame.method frame.input))
          (rpc_capability host frame.service frame.method frame.input) rpc frame.app_id
      else if frame.kind == "net"
      then guarded (net_allowed capabilities "") (network_capability "") (network frame.action "")
          frame.app_id
      else if frame.kind == "net-data"
      then data_for frame.bridge_id
      else if frame.kind == "net-close"
      then close_of frame.bridge_id
      else unknown

  -- One turn of the relay's loop after authentication.
  unfoldable pub relay_frame : SocketAuthentication → Frame → Reaction
  relay_frame granted frame =
      if not (granted.store_id == "") && not (app_id_matches host granted.store_id frame.app_id)
      then mismatched
      else relay_dispatch granted.capabilities frame

  -- The first frame of a filesystem channel, handleFilesystemChannel, with the id the channel was bound
  -- under.
  unfoldable pub channel_frame : SocketAuthentication → String → Frame → Reaction
  channel_frame auth bound_id frame =
      let required = filesystem_capability frame.method in
      if not (frame.kind == "fs")
        || frame.id == ""
        || not (frame.id == bound_id)
        || not (
            frame.method == "readChunk"
            || frame.method == "readChunkBinary"
            || frame.method == "writeChunk"
            || frame.method == "writeChunkBinary")
      then invalid_channel
      else if not (socket_allows auth.capabilities required)
      then denied required
      else if auth.store_id == ""
      then calls filesystem frame.app_id
      else if app_id_matches host auth.store_id frame.app_id
      then calls filesystem auth.store_id
      else mismatched

-- The capability that reaching a service with a frame needs, `none` where the frame is not guarded.
unfoldable pub needed : Host → Call → Frame → Option (String × String)
unfolding exec_capability protocol_string
needed host filesystem frame =
    some (filesystem_capability frame.method, filesystem_capability frame.method)
needed host exec frame = some (exec_capability frame.command, exec_capability frame.command)
needed host process frame = none
needed host presentation frame =
    let required = rpc_capability host frame.service frame.method frame.input in
    some (required, required)
needed host rpc frame =
    let required = rpc_capability host frame.service frame.method frame.input in
    some (required, required)
needed host (network action protocol) frame =
    some ("net." ++ (protocol ++ ".connect"), "net.protocol." ++ protocol)

-- One of the two capabilities that the call needs is held.
unfoldable pub is_permitted : Host → List String → Call → Frame → Bool
unfolding needed
is_permitted host capabilities call frame = elim (needed host call frame) [
  | none ↦ true
  | some (one, other) ↦ socket_allows capabilities one || socket_allows capabilities other
]
