-- ===== src/Frames/Permitted.antt =====
-- No frame reaches a service without the capability it needs.
use dynapp_agent.Prelude.{String, Bool, true, ◌||◌, ◌&&◌, List, ◌==◌, ◌≡◌, arith, eq_iff, subst}
use dynapp_agent.Types.{Host, Config, SocketAuthentication}
use dynapp_agent.Access.{socket_allows, filesystem_capability}
use dynapp_agent.Origins.{app_id_matches}
use dynapp_agent.Grants.{has_browser_identity}
use dynapp_agent.Frames.{
  Frame, Call, filesystem, Reaction, calls, guarded, dispatch, serve_frame, relay_dispatch,
  relay_frame, channel_frame, needed, is_permitted, net_allowed,
}

-- The reaction calls no service, or one that the frame may reach.
unfoldable pub is_safe : Host → List String → Frame → Reaction → Bool
unfolding is_permitted
is_safe host capabilities frame (calls call app_id) = is_permitted host capabilities call frame
is_safe host capabilities frame _ = true

dispatch-safe :
    (host : Host) (capabilities : List String) (app_id : String) (frame : Frame)
    → is_safe host capabilities frame (dispatch host capabilities app_id frame) ≡ true
unfolding dispatch guarded is_safe is_permitted needed net_allowed
dispatch-safe host capabilities app_id frame = ground arith

relay_dispatch-safe :
    (host : Host) (capabilities : List String) (frame : Frame)
    → is_safe host capabilities frame (relay_dispatch host capabilities frame) ≡ true
unfolding relay_dispatch guarded is_safe is_permitted needed net_allowed
relay_dispatch-safe host capabilities frame = ground arith

dispatch-bound :
    (host : Host) (capabilities : List String) (bound app_id : String) (call : Call) (frame : Frame)
    → dispatch host capabilities bound frame ≡ calls call app_id
    → app_id ≡ bound
unfolding dispatch guarded
dispatch-bound host capabilities bound app_id call frame h = ground (arith, h)

is_safe-permitted :
    (host : Host) (capabilities : List String) (frame : Frame) (call : Call) (app_id : String)
    (reaction : Reaction)
    → reaction ≡ calls call app_id
    → is_safe host capabilities frame reaction ≡ true
    → is_permitted host capabilities call frame ≡ true
unfolding is_safe
is_safe-permitted host capabilities frame call app_id reaction e h =
    subst (λ r. is_safe host capabilities frame r ≡ true) e h

-- A frame of an authenticated socket reaches a service only if the socket holds the capability that the
-- service needs, the grant that it was authenticated by is still saved, and, where the socket is paired
-- for an app, the frame names no other app and the service is called under the app's id.
pub serve_frame-permitted :
    (host : Host) (config : Config) (auth : SocketAuthentication) (frame : Frame) (call : Call)
    (app_id : String)
    → serve_frame host config auth frame ≡ calls call app_id
    → (is_permitted host auth.capabilities call frame ≡ true)
      × ((auth.key_id == "" || has_browser_identity config auth) ≡ true)
      × ((auth.store_id == ""
            || (app_id == auth.store_id && app_id_matches host auth.store_id frame.app_id))
          ≡ true)
unfolding serve_frame
serve_frame-permitted host config auth frame call app_id h = (
  ground (
    arith,
    h,
    is_safe-permitted host auth.capabilities frame call app_id
        (dispatch host auth.capabilities frame.app_id frame),
    dispatch-safe host auth.capabilities frame.app_id frame,
    is_safe-permitted host auth.capabilities frame call app_id
        (dispatch host auth.capabilities auth.store_id frame),
    dispatch-safe host auth.capabilities auth.store_id frame,
  ),
  ground (arith, h),
  ground (
    arith,
    h,
    eq_iff app_id auth.store_id,
    dispatch-bound host auth.capabilities auth.store_id app_id call frame,
  ),
)

relay_frame-dispatch :
    (host : Host) (granted : SocketAuthentication) (frame : Frame) (call : Call) (app_id : String)
    → relay_frame host granted frame ≡ calls call app_id
    → relay_dispatch host granted.capabilities frame ≡ calls call app_id
unfolding relay_frame
relay_frame-dispatch host granted frame call app_id h = ground (arith, h)

-- A frame of a relay socket reaches a service only if the socket holds the capability that the service
-- needs and, where its hello named an app, the frame names no other app.
pub relay_frame-permitted :
    (host : Host) (granted : SocketAuthentication) (frame : Frame) (call : Call) (app_id : String)
    → relay_frame host granted frame ≡ calls call app_id
    → (is_permitted host granted.capabilities call frame ≡ true)
      × ((granted.store_id == "" || app_id_matches host granted.store_id frame.app_id) ≡ true)
unfolding relay_frame
relay_frame-permitted host granted frame call app_id h = (
  is_safe-permitted host granted.capabilities frame call app_id
      (relay_dispatch host granted.capabilities frame)
      (relay_frame-dispatch host granted frame call app_id h)
      (relay_dispatch-safe host granted.capabilities frame),
  ground (arith, h),
)

channel_frame-cases :
    (host : Host) (auth : SocketAuthentication) (bound_id : String) (frame : Frame) (call : Call)
    (app_id : String)
    → channel_frame host auth bound_id frame ≡ calls call app_id
    → (call ≡ filesystem)
      × (socket_allows auth.capabilities (filesystem_capability frame.method) ≡ true)
      × ((auth.store_id == ""
            || (app_id == auth.store_id && app_id_matches host auth.store_id frame.app_id))
          ≡ true)
unfolding channel_frame
channel_frame-cases host auth bound_id frame call app_id h =
    (ground (arith, h), ground (arith, h), ground (arith, h, eq_iff app_id auth.store_id))
