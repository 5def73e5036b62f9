-- ===== src/Lib.antt =====
-- The permission core of the agent: which browser key may do what on this machine, and the services
-- behind its gate that keep state.
--
-- A page connects to the agent by a WebSocket, proves that it holds a key, and is given a set of
-- capabilities. A key that the agent does not know asks to pair; the authority (the Dyner client)
-- decides, before the launch or while the page waits. Every later frame passes a gate. The files:
--
--   Prelude, Text: lists, tests, and the functions of Go's strings and sort packages in use.
--   Types: the records of shellagent/config.go, app_resolution.go, native_apps.go, agent.go, and
--     decoded JSON. `Host` has what the agent calls and does not implement: url.Parse,
--     net.ParseIP, case mapping, fmt.Sprint, key digests and signatures. Numbers: int64 and times.
--   Sets: permission sets as sorted lists, from shellagent/browser_identity.go (unionStrings,
--     subtractStrings, intersectStrings), shellagent/agent.go (sameCapabilitySet) and
--     shellagent/catalog/permission_catalog.go (normalizePermissionSet).
--   Catalog: shellagent/catalog/permission_catalog.go.
--   Origins: store ids and origins, shellagent/app_resolution.go and shellagent/config.go.
--   Connect: shellagent/connect/http_connect.go.
--   Apps: what a manifest declares, shellagent/app_resolution.go. The request to Dyner is the
--     parameter `fetch`.
--   Client: shellagent/browser_client.go.
--   Grants: the saved identities and native apps, and the searches among them.
--   Permissions: shellagent/permissions.go. `Agent` is the state: the configuration, the requests,
--     the pre-approvals, the live sockets, and the effects so far. Edit has updateGrant and
--     revokeGrant, Service the dispatch.
--   Access: the gate of shellagent/agent.go.
--   Handshake: shellagent/browser_identity.go. continuePairedIdentity is in Handshake,
--     pairUnknownIdentity and authenticateDirectLocal are in Handshake/Pairing.
--   Frames: what serveAuthenticatedSocket and handleFilesystemChannel of shellagent/agent.go and
--     the loop of shellagent/relay.go do with a frame (`Reaction`), up to the call of a service. Binary
--     has the DFB1 envelope of agent.go, Native the frames of shellagent/native_host.go.
--   Relay: relayGrantFor of shellagent/relay.go. A slice that may be nil is an Option in its loop; the
--     records of a socket hold nil and empty lists alike.
--   Bytes, Datagrams: the fragments of UDP packets, shellagent/network_bridge.go. Assembly has the
--     receiving side, where each frame comes with the time at which the agent reads the clock.
--   Bridges: bridgeSet and handleNetwork of shellagent/network_bridge.go with the update gate of
--     shellagent/agent.go. Updates has the step relation of all sockets and the gate. The form of
--     bridge ids (fmt.Sprintf) is the parameter `format`, of which the theorems use that different
--     numbers give different ids; the outcomes of dials, writes and sends are arguments.
--   Updater: shellagent/updater.go; Waiting has waitForIdleBridges and checkSelfUpdateWithVerifier.
--   Sessions: shellagent/session_state.go. The file is the list that each call takes and gives; the
--     pattern of ids and the size of JSON are parameters, and so is what a number out of the range of int64 becomes.
--     Branches and Answered have what a call answers and leaves.
--   Presentation: shellagent/desktop/presentation_model.go, the accelerators, the validation of tray
--     menus and the global shortcuts. Case mapping and the platform's answers are arguments.
--   Rdp: the DER fields and RDCleanPath messages of shellagent/rdp/rdp.go. An offset into the data is
--     the bytes from there on; the fuel of the search for a field is the number of bytes.
--   Packs: source packs, shellagent/apphost/source_snapshot.go. sha256 and hex are parameters, of
--     which the theorem uses what it names of the packed files.
--   Examples: the theorems applied to the small agent of Examples/Samples.
--
-- Each handler is a function from the state to a result and the next state, in one step: the locks of
-- the source make the parts between two waits atomic, and a pairing that waits is cut in two there
-- (`waits`, then `finish_pairing` with the value that the channel carries). Nonces, random codes and
-- ids, the clock, and the results of writes to a socket are arguments. Times are nanoseconds; an
-- int64 product wraps. JSON numbers are whole. The loops are structural; the 16 attempts of
-- registerPending are a counter.
--
-- Not modelled: the transports (sockets of relay, ICE and LAN, encryption), the services behind the
-- gate but those above, the payloads of listings, files and processes, downloads, and the platform
-- code.
pub mod Access
pub mod Apps
pub mod Bridges
pub mod Bytes
pub mod Catalog
pub mod Client
pub mod Connect
pub mod Datagrams
pub mod Examples
pub mod Frames
pub mod Grants
pub mod Handshake
pub mod Origins
pub mod Packs
pub mod Permissions
pub mod Prelude
pub mod Presentation
pub mod Rdp
pub mod Relay
pub mod Sessions
pub mod Sets
pub mod Text
pub mod Types
pub mod Updater
