-- ===== src/Sessions/Distinct.antt =====
-- Every operation of shellagent/session_state.go keeps the ids of sessions distinct.
use dynapp_agent.Prelude.{
  ℕ, String, Bool, true, false, List, [], ◌∷◌, ◌==◌, eq_refl, if◌then◌else◌, Option, none, some,
  keep_if, ◌≡◌, refl, arith, subst, sym,
}
use dynapp_agent.Types.{
  Host, Json, null, boolean, number, text, array, object, Fields, lookup_field, string_value,
}
use dynapp_agent.Types.Numbers.{ℤ}
use dynapp_agent.Sessions.{
  Session, Answer, find_session, drop_session, early, merged, taken, upsert, upsert_value, remove,
  prune, get, handle_sessions, integer64,
}
use dynapp_agent.Sessions.Kept.{AreDistinct, find-drop_session, merged-id}

find-keep_if :
    (p : Session → Bool) (id : String) (sessions : List Session)
    → find_session id sessions ≡ none
    → find_session id (keep_if p sessions) ≡ none
unfolding find_session
find-keep_if p id [] h = refl
find-keep_if p id (s ∷ sessions) h = ground (arith, h, find-keep_if p id sessions)

keep_if-AreDistinct :
    (p : Session → Bool) (sessions : List Session)
    → AreDistinct sessions
    → AreDistinct (keep_if p sessions)
keep_if-AreDistinct p [] d = d
keep_if-AreDistinct p (s ∷ sessions) d =
    ground (arith, find-keep_if p s.session_id sessions d.0, keep_if-AreDistinct p sessions d.1)

-- The sessions that an operation leaves are distinct.
unfoldable LeavesDistinct : Answer × List Session → Type 0
LeavesDistinct after = AreDistinct after.1

early-LeavesDistinct :
    (t : Bool) (one two : Answer × List Session)
    → LeavesDistinct one
    → LeavesDistinct two
    → LeavesDistinct (early t one two)
unfolding early
early-LeavesDistinct true one two h k = h
early-LeavesDistinct false one two h k = k

module _ (sessions : List Session) (d : AreDistinct sessions) where
  same-LeavesDistinct : (answer : Answer) → LeavesDistinct (answer, sessions)
  unfolding LeavesDistinct
  same-LeavesDistinct answer = d

  kept-LeavesDistinct :
      (answer : Answer) (p : Session → Bool) → LeavesDistinct (answer, keep_if p sessions)
  unfolding LeavesDistinct
  kept-LeavesDistinct answer p = keep_if-AreDistinct p sessions d

  written-LeavesDistinct :
      (answer : Answer) (id : String) (s : Session)
      → s.session_id ≡ id
      → LeavesDistinct (answer, s ∷ drop_session id sessions)
  unfolding LeavesDistinct drop_session
  written-LeavesDistinct answer id s same = (
    subst (λ k. find_session k (drop_session id sessions) ≡ none) (sym same)
        (ground (arith, find-drop_session id id sessions, eq_refl id)),
    keep_if-AreDistinct _ sessions d,
  )

  taken-LeavesDistinct :
      (id : String) (found : Option Session) → LeavesDistinct (taken id sessions found)
  unfolding taken drop_session
  taken-LeavesDistinct id none = same-LeavesDistinct _
  taken-LeavesDistinct id (some s) = kept-LeavesDistinct _ _

  module _ (host : Host) (overflow : ℤ → ℤ) (matches_id : String → Bool)
      (json_size : Json → ℕ) where
    upsert_value-LeavesDistinct :
        (id : String) (input : Fields) (value : Json) (now : ℤ)
        → LeavesDistinct
            (upsert_value host overflow matches_id json_size id input value now sessions)
    unfolding upsert_value
    upsert_value-LeavesDistinct id input (object value) now =
        let given = string_value host (lookup_field "status" input) in
        let status : String = if given == "" then "idle" else given in
        early-LeavesDistinct _ _ _ (same-LeavesDistinct _) (
          early-LeavesDistinct _ _ _ (same-LeavesDistinct _) (
            early-LeavesDistinct _ _ _ (same-LeavesDistinct _) (
              written-LeavesDistinct _ id
                (merged id (lookup_field "processId" input)
                  (integer64 overflow (lookup_field "sequence" input)) status value now
                  (find_session id sessions))
                (merged-id id (lookup_field "processId" input)
                  (integer64 overflow (lookup_field "sequence" input)) status value now
                  (find_session id sessions)))))
    upsert_value-LeavesDistinct id input null now = same-LeavesDistinct _
    upsert_value-LeavesDistinct id input (boolean b) now = same-LeavesDistinct _
    upsert_value-LeavesDistinct id input (number n) now = same-LeavesDistinct _
    upsert_value-LeavesDistinct id input (text s) now = same-LeavesDistinct _
    upsert_value-LeavesDistinct id input (array items) now = same-LeavesDistinct _

    handle_sessions-LeavesDistinct :
        (app_id method : String) (arg : Json) (input : Fields) (now : ℤ)
        → LeavesDistinct (
            handle_sessions host overflow matches_id json_size app_id method arg input now sessions)
    unfolding handle_sessions upsert remove prune get
    handle_sessions-LeavesDistinct app_id method arg input now =
        early-LeavesDistinct _ _ _ (same-LeavesDistinct _) (
          early-LeavesDistinct _ _ _ (same-LeavesDistinct _) (
            early-LeavesDistinct _ _ _
              (early-LeavesDistinct _ _ _ (same-LeavesDistinct _) (same-LeavesDistinct _))
              (early-LeavesDistinct _ _ _
                (early-LeavesDistinct _ _ _ (same-LeavesDistinct _)
                  (upsert_value-LeavesDistinct _ input _ now))
                (early-LeavesDistinct _ _ _
                  (early-LeavesDistinct _ _ _ (same-LeavesDistinct _) (taken-LeavesDistinct _ _))
                  (early-LeavesDistinct _ _ _
                    (early-LeavesDistinct _ _ _ (same-LeavesDistinct _) (kept-LeavesDistinct _ _))
                    (same-LeavesDistinct _))))))

-- Whatever is called, the ids of the sessions stay distinct.
pub handle_sessions-AreDistinct :
    (host : Host) (overflow : ℤ → ℤ) (matches_id : String → Bool) (json_size : Json → ℕ)
    (app_id method : String) (arg : Json) (input : Fields) (now : ℤ) (sessions : List Session)
    → AreDistinct sessions
    → AreDistinct
        (handle_sessions host overflow matches_id json_size app_id method arg input now sessions).1
unfolding LeavesDistinct
handle_sessions-AreDistinct host overflow matches_id json_size app_id method arg input now sessions
      d =
    handle_sessions-LeavesDistinct sessions d host overflow matches_id json_size app_id method arg
      input now
