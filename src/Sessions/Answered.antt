-- ===== src/Sessions/Answered.antt =====
-- What every call on sessions answers and leaves: handleSessionsRPC of shellagent/session_state.go.
use dynapp_agent.Prelude.{ℕ, String, Bool}
use dynapp_agent.Types.{Host, Json, Fields, lookup_field, string_value}
use dynapp_agent.Types.Numbers.{ℤ}
use dynapp_agent.Sessions.{integer64}
use dynapp_agent.Sessions.Branches.{Request}

module _ (host : Host) (overflow : ℤ → ℤ) (matches_id : String → Bool) (json_size : Json → ℕ)
    (app_id method : String) (arg : Json) (input : Fields) (now : ℤ) where
  -- The call as handleSessionsRPC reads it.
  abbrev pub request_of : Request
  request_of = record {
    app_id = app_id;
    method = method;
    id = string_value host arg;
    cutoff = integer64 overflow arg;
    named = string_value host (lookup_field "sessionId" input);
    value = lookup_field "value" input;
    value_size = json_size (lookup_field "value" input);
    status = string_value host (lookup_field "status" input);
    now = now;
  }
