-- ===== src/Sessions.antt =====
-- The sessions of an app: handleSessionsRPC of shellagent/session_state.go. The file that keeps them is
-- the list of records that each operation takes and gives.
pub mod Kept
pub mod Distinct
pub mod Listed
pub mod Branches
pub mod Answered
use Prim.Native.String.{len}
use dynapp_agent.Prelude.{
  ℕ, ◌-◌, ◌^◌, String, Bool, true, false, ◌||◌, ◌&&◌, List, [], ◌∷◌, ◌==◌, not, if◌then◌else◌,
  Option, none, some, ltb, leb, keep_if, map,
}
use dynapp_agent.Text.{sort_strings}
use dynapp_agent.Types.{Host, Json, null, number, text, object, Fields, lookup_field, string_value}
use dynapp_agent.Types.Numbers.{ℤ, pos, negsuc, ltb_ℤ, is_zero}

-- sessionRecord
pub record Session : Type 0 where
  pub session_id : String
  pub process_id : Json
  pub sequence : ℤ
  pub status : String
  pub value : Fields
  pub created_at : ℤ
  pub updated_at : ℤ

-- The texts of the errors.
pub data SessionError : Type 0 where
  app_id_required invalid_id value_not_object value_too_large invalid_status : SessionError
  invalid_process_id invalid_cutoff unsupported : SessionError

-- What a call answers; `failed` carries its error.
pub data Answer : Type 0 where
  failed : SessionError → Answer
  listed : List Session → Answer
  got : Option Session → Answer
  written : Session → Answer
  removed : Bool → Answer
  pruned : List String → Answer

-- records[id]
unfoldable pub find_session : String → List Session → Option Session
find_session id [] = none
find_session id (s ∷ sessions) =
    let rest = find_session id sessions in if s.session_id == id then some s else rest

unfoldable pub drop_session : String → List Session → List Session
drop_session id sessions = keep_if (λ (s : Session). not (s.session_id == id)) sessions

-- integer64 of shellagent/bridges.go. What the conversion gives for a number that no int64 is, which Go
-- leaves to the implementation, is the parameter `overflow`.
unfoldable pub integer64 : (ℤ → ℤ) → Json → ℤ
integer64 overflow (number n) =
    if ltb_ℤ n (pos (2 ^ 63)) && not (ltb_ℤ n (negsuc (2 ^ 63 - 1))) then n else overflow n
integer64 overflow _ = pos 0

abbrev pub is_null : Json → Bool
is_null null = true
is_null _ = false

-- sort.Slice by the time of the last update, latest first.
pub insert_latest : Session → List Session → List Session
insert_latest s [] = s ∷ []
insert_latest s (t ∷ sessions) =
    let rest = insert_latest s sessions in
    if ltb_ℤ s.updated_at t.updated_at then t ∷ rest else s ∷ t ∷ sessions

pub by_latest : List Session → List Session
by_latest [] = []
by_latest (s ∷ sessions) = insert_latest s (by_latest sessions)

-- The record that `upsert` writes, of the one that was there.
unfoldable pub merged : String → Json → ℤ → String → Fields → ℤ → Option Session → Session
merged id process_id sequence status value now none = record {
  session_id = id;
  process_id = process_id;
  sequence = if ltb_ℤ sequence (pos 0) then pos 0 else sequence;
  status = status;
  value = value;
  created_at = now;
  updated_at = now;
}
merged id process_id sequence status value now (some previous) = record {
  session_id = id;
  process_id = if is_null process_id then previous.process_id else process_id;
  sequence = if ltb_ℤ sequence (pos 0) then previous.sequence else sequence;
  status = status;
  value = value;
  created_at = if is_zero previous.created_at then now else previous.created_at;
  updated_at = now;
}

-- A session that `prune` removes.
unfoldable pub is_stale : ℤ → Session → Bool
is_stale cutoff s =
    ltb_ℤ s.updated_at cutoff && not (s.status == "connecting") && not (s.status == "running")

-- `if test { return one }; rest`
unfoldable pub early : Bool → Answer × List Session → Answer × List Session → Answer × List Session
early true one rest = one
early false one rest = rest

-- The end of `remove`, on what the id finds.
unfoldable pub taken : String → List Session → Option Session → Answer × List Session
unfolding drop_session
taken id sessions none = (removed false, sessions)
taken id sessions (some s) = (removed true, drop_session id sessions)

-- fmt.Sprint of a decoded value: a text is printed as it is.
unfoldable pub sprint_value : Host → Json → String
sprint_value host (text s) = s
sprint_value host value = host.sprint value

module _ (host : Host) (overflow : ℤ → ℤ) (matches_id : String → Bool) (json_size : Json → ℕ) where
  -- The guards and the write of `upsert`, for an id that matches.
  upsert_value : String → Fields → Json → ℤ → List Session → Answer × List Session
  unfolding find_session drop_session merged integer64
  upsert_value id input (object value) now sessions =
      let given = string_value host (lookup_field "status" input) in
      let status = if given == "" then "idle" else given in
      let written_record =
        merged id (lookup_field "processId" input)
          (integer64 overflow (lookup_field "sequence" input)) status value now
          (find_session id sessions) in
      early (ltb 65536 (json_size (object value))) (failed value_too_large, sessions)
        (early (ltb 40 (len status)) (failed invalid_status, sessions)
          (early (ltb 200 (len (sprint_value host written_record.process_id)))
            (failed invalid_process_id, sessions)
            (written written_record, written_record ∷ drop_session id sessions)))
  upsert_value id input _ now sessions = (failed value_not_object, sessions)

  unfoldable pub upsert : Fields → ℤ → List Session → Answer × List Session
  unfolding upsert_value
  upsert input now sessions =
      let id = string_value host (lookup_field "sessionId" input) in
      early (not (matches_id id)) (failed invalid_id, sessions)
        (upsert_value id input (lookup_field "value" input) now sessions)

  unfoldable pub remove : Json → List Session → Answer × List Session
  remove arg sessions =
      let id = string_value host arg in
      early (not (matches_id id)) (failed invalid_id, sessions)
        (taken id sessions (find_session id sessions))

  unfoldable pub prune : ℤ → List Session → Answer × List Session
  unfolding is_stale
  prune cutoff sessions =
      early (not (ltb_ℤ (pos 0) cutoff)) (failed invalid_cutoff, sessions)
        (
          pruned (sort_strings (map (λ s. s.session_id) (keep_if (is_stale cutoff) sessions))),
          keep_if (λ (s : Session). not (is_stale cutoff s)) sessions,
        )

  unfoldable pub get : Json → List Session → Answer × List Session
  unfolding find_session
  get arg sessions =
      let id = string_value host arg in
      early (not (matches_id id)) (failed invalid_id, sessions)
        (got (find_session id sessions), sessions)

  -- handleSessionsRPC: the app id, the method, the first argument and the same as an object, the time,
  -- and the sessions that were read.
  unfoldable pub handle_sessions :
      String → String → Json → Fields → ℤ → List Session → Answer × List Session
  unfolding by_latest insert_latest upsert remove prune get
  handle_sessions app_id method arg input now sessions =
      early (app_id == "") (failed app_id_required, sessions)
        (early (method == "list") (listed (by_latest sessions), sessions)
          (early (method == "get") (get arg sessions) (
            early (method == "upsert") (upsert input now sessions) (
              early (method == "remove") (remove arg sessions) (
                early (method == "prune") (prune (integer64 overflow arg) sessions)
                  (failed unsupported, sessions))))))
