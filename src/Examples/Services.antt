-- ===== src/Examples/Services.antt =====
-- The theorems on frames, relay grants, updates, sessions and menus, applied to small states.
use dynapp_agent.Prelude.{
  String, Bool, true, false, ◌||◌, ◌&&◌, List, [], ◌∷◌, ◌==◌, ◌≡◌, refl, if◌then◌else◌, Option,
  none, some, any_of, leb, ◌↔◌,
}
use dynapp_agent.Text.{trim_space, sort_strings, trim_prefix_char, split_at, contains_char, digits}
use dynapp_agent.Types.{null, text, end, SocketAuthentication}
use dynapp_agent.Types.Numbers.{pos}
use dynapp_agent.Sets.{
  string_slice_has, normalize_permission_set, union_strings, same_capability_set,
}
use dynapp_agent.Origins.{app_id_matches}
use dynapp_agent.Access.{socket_allows, filesystem_capability}
use dynapp_agent.Grants.{has_browser_identity, holds_grant}
use dynapp_agent.Handshake.Invariant.{manages, is_contained}
use dynapp_agent.Permissions.{permissions_manage}
use dynapp_agent.Bridges.{Server, try_begin_update, cancel_update}
use dynapp_agent.Frames.{
  Frame, filesystem, dispatch, relay_frame, relay_dispatch, guarded, protocol_string, serve_frame,
  is_permitted,
}
use dynapp_agent.Frames.Permitted.{serve_frame-permitted, relay_frame-permitted}
use dynapp_agent.Relay.{relay_grant_for, identity_grant, match_loop, is_named, take_identity}
use dynapp_agent.Relay.Grant.{granted_by, relay_grant_for-within, relay_grant_for-unmanaged}
use dynapp_agent.Updater.{
  Asset, newer_release, release_parts, is_greater, parse_release, parse_int,
  normalized_release_version, before_suffix, recent_update_attempt, select_agent_assets,
  pick_assets,
}
use dynapp_agent.Updater.Waiting.{
  Turn, ticker, timer, wait_for_idle_bridges, wait_for_idle_bridges-ends,
  wait_for_idle_bridges-force, wait_loop, is_timer, Check, IsDue, check_self_update,
  begin_and_apply, apply_update, handed_over_of, check_self_update-handed_over,
  check_self_update-kept,
}
use dynapp_agent.Sessions.{Session}
use dynapp_agent.Updater.Versions.{IsNewer, newer_release_iff}
use dynapp_agent.Presentation.{
  Key, Controller, empty, item, TrayOptions, find_key, register, unregister, handle_shortcut,
}
use dynapp_agent.Presentation.Tray.{size}
use dynapp_agent.Presentation.Shortcuts.{IsLinked, unregister-register}
use dynapp_agent.Presentation.Linked.{handle_shortcut-IsLinked}
use dynapp_agent.Examples.Samples.{sample_host, sample_config, notes, authority}

abbrev list_files : Frame
list_files = record {
  kind = "fs";
  id = "1";
  protocol = null;
  method = "read";
  service = "";
  app_id = "";
  input = end;
  command = "";
  action = "";
  channel_kind = "";
  bridge_id = "";
}

abbrev notes_socket : SocketAuthentication
notes_socket = record {
  capabilities = "fs.read" ∷ [];
  stored = "fs.read" ∷ [];
  declared = "fs.read" ∷ [];
  connect = [];
  key_id = notes.key_id;
  origin = notes.origin;
  store_id = "ann/notes";
  app_name = "notes";
  development = true;
  ok = true;
}

serve_frame-permitted_example :
    (is_permitted sample_host notes_socket.capabilities filesystem list_files ≡ true)
    × ((notes_socket.key_id == "" || has_browser_identity sample_config notes_socket) ≡ true)
    × ((notes_socket.store_id == ""
          || ("ann/notes" == notes_socket.store_id
              && app_id_matches sample_host notes_socket.store_id list_files.app_id))
        ≡ true)
unfolding serve_frame dispatch guarded has_browser_identity holds_grant same_capability_set
    app_id_matches filesystem_capability socket_allows sort_strings protocol_string string_slice_has
serve_frame-permitted_example =
    serve_frame-permitted sample_host sample_config notes_socket list_files filesystem "ann/notes"
      refl

relay_frame-permitted_example :
    (is_permitted sample_host notes_socket.capabilities filesystem list_files ≡ true)
    × ((notes_socket.store_id == ""
          || app_id_matches sample_host notes_socket.store_id list_files.app_id)
        ≡ true)
unfolding relay_frame relay_dispatch guarded app_id_matches filesystem_capability socket_allows
relay_frame-permitted_example =
    relay_frame-permitted sample_host notes_socket list_files filesystem "" refl

relay_grant_for-within_example : any_of (granted_by "fs.read") (authority ∷ notes ∷ []) ≡ true
unfolding relay_grant_for identity_grant match_loop is_named take_identity trim_space
    string_slice_has union_strings normalize_permission_set sort_strings
relay_grant_for-within_example =
    relay_grant_for-within (authority ∷ notes ∷ []) (record { key_id = notes.key_id; app = none })
      (λ store_id. none) "fs.read" refl

relay_grant_for-unmanaged_example :
    string_slice_has
      (relay_grant_for
        (authority ∷ notes ∷ [])
        (record { key_id = authority.key_id; app = none })
        (λ store_id. none)).capabilities
      permissions_manage
    ≡ false
unfolding is_contained manages normalize_permission_set string_slice_has sort_strings trim_space
relay_grant_for-unmanaged_example =
    relay_grant_for-unmanaged (authority ∷ notes ∷ [])
      (record { key_id = authority.key_id; app = none }) (λ store_id. none) (refl, (refl, tt))

abbrev waiting_turns : List Turn
waiting_turns =
    record { ended = false; active = 2; wake = ticker; ended_then = false; active_then = 2 }
    ∷ record { ended = false; active = 1; wake = timer; ended_then = false; active_then = 1 }
    ∷ []

wait_for_idle_bridges-ends_example :
    (got : Bool × Bool) × (wait_for_idle_bridges 2 false 10 90 2 waiting_turns ≡ some got)
wait_for_idle_bridges-ends_example = wait_for_idle_bridges-ends 2 false 10 90 2 waiting_turns refl

wait_for_idle_bridges-force_example : (leb 90 10 || any_of is_timer waiting_turns) ≡ true
unfolding wait_for_idle_bridges wait_loop
wait_for_idle_bridges-force_example =
    wait_for_idle_bridges-force 2 false 10 90 2 waiting_turns true refl

abbrev asset : String → Asset
asset name = record { name = name; url = "https://github.com/a"; size = pos 100 }

abbrev due_check : Bool → Check
due_check succeeds = record {
  version = "1.2.3";
  release = some (
    "v1.3.0",
    asset "dynapp-shell-agent-1.3.0-linux-amd64"
        ∷ asset "dynapp-shell-agent-1.3.0-linux-amd64.sha256"
        ∷ asset "dynapp-shell-agent-1.3.0-linux-amd64.sig"
        ∷ [],
  );
  attempt = none;
  goos = "linux";
  goarch = "amd64";
  staged = some "/tmp/agent";
  waited = (false, true);
  verified = succeeds;
  succeeds = succeeds;
}

abbrev free_server : Server
free_server = record { active = pos 0; update_pending = false; counter = 3; events = [] }

check_self_update-handed_over_example :
    ((tag : String) × IsDue (due_check true) 7 tag "/tmp/agent"
      × (normalized_release_version tag ≡ "1.3.0"))
    × ((due_check true).verified ≡ true)
    × ((due_check true).waited.1 ≡ true)
    × (free_server.update_pending ≡ false)
    × ((check_self_update (due_check true) 7 free_server).1.update_pending ≡ true)
unfolding check_self_update handed_over_of begin_and_apply apply_update try_begin_update
    cancel_update newer_release release_parts is_greater parse_release parse_int
    normalized_release_version before_suffix digits trim_space trim_prefix_char split_at
    contains_char recent_update_attempt select_agent_assets pick_assets
check_self_update-handed_over_example =
    check_self_update-handed_over (due_check true) 7 free_server "/tmp/agent" "1.3.0" refl

newer_release_iff_example : (newer_release "v1.10.0" "1.9.7" ≡ true) ↔ IsNewer "v1.10.0" "1.9.7"
newer_release_iff_example = newer_release_iff "v1.10.0" "1.9.7"

check_self_update-kept_example :
    (check_self_update (due_check false) 7 free_server).1.update_pending ≡ false
unfolding check_self_update handed_over_of begin_and_apply apply_update try_begin_update
    cancel_update newer_release release_parts is_greater parse_release parse_int
    normalized_release_version before_suffix digits trim_space trim_prefix_char split_at
    contains_char recent_update_attempt select_agent_assets pick_assets
check_self_update-kept_example = check_self_update-kept (due_check false) 7 free_server refl

abbrev shell_session : Session
shell_session = record {
  session_id = "s1";
  process_id = text "42";
  sequence = pos 3;
  status = "running";
  value = end;
  created_at = pos 10;
  updated_at = pos 20;
}

abbrev quit_menu : TrayOptions
quit_menu = record {
  tooltip = "notes";
  title = "";
  menu =
      item (record { id = "new"; label = "New"; kind = ""; enabled = none; checked = false })
        (item
          (record { id = "quit"; label = "Quit"; kind = "normal"; enabled = none; checked = false })
          empty empty)
        empty;
}

abbrev sample_parse : String → Option Key
sample_parse accelerator =
    if accelerator == "Ctrl+A"
    then some (record { code = 65; modifiers = 2 })
    else if accelerator == "Alt+B"
    then some (record { code = 66; modifiers = 1 })
    else none

abbrev one_shortcut : Controller
one_shortcut = record {
  shortcuts = ("Ctrl+A", 1) ∷ [];
  keys = (record { code = 65; modifiers = 2 }, "Ctrl+A") ∷ [];
  next_id = 1;
}

one_shortcut-IsLinked : IsLinked sample_parse one_shortcut
unfolding find_key
one_shortcut-IsLinked = ((record { code = 65; modifiers = 2 }, refl, refl), tt)

unregister-register_example :
    let after =
      (unregister
        (record { code = 66; modifiers = 1 })
        (register "Alt+B" (record { code = 66; modifiers = 1 }) true one_shortcut).2).2 in
    (after.shortcuts ≡ one_shortcut.shortcuts) × (after.keys ≡ one_shortcut.keys)
unfolding register find_key
unregister-register_example =
    unregister-register sample_parse "Alt+B" (record { code = 66; modifiers = 1 }) true one_shortcut
      one_shortcut-IsLinked refl refl

handle_shortcut-IsLinked_example :
    IsLinked sample_parse
      (handle_shortcut sample_parse "unregister" (some "Ctrl+A") true one_shortcut).2
handle_shortcut-IsLinked_example =
    handle_shortcut-IsLinked sample_parse "unregister" (some "Ctrl+A") true one_shortcut
      one_shortcut-IsLinked
