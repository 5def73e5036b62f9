-- ===== src/Sessions/Kept.antt =====
-- Lookups among sessions after a write, a removal and a pruning: shellagent/session_state.go.
use dynapp_agent.Prelude.{
  String, Bool, false, List, [], ◌∷◌, ◌==◌, eq_iff, not, if◌then◌else◌, Option, none, some, map,
  keep_if, ◌≡◌, refl, arith, Bool-cases, inl, inr, subst,
}
use dynapp_agent.Types.{Json, Fields}
use dynapp_agent.Types.Numbers.{ℤ}
use dynapp_agent.Sets.{string_slice_has}
use dynapp_agent.Sessions.{Session, find_session, drop_session, merged}

pub find-drop_session :
    (id other : String) (sessions : List Session)
    → find_session other (drop_session id sessions)
      ≡ (if other == id then none else find_session other sessions)
unfolding find_session drop_session
find-drop_session id other [] = ground arith
find-drop_session id other (s ∷ sessions) = ground (
  arith,
  find-drop_session id other sessions,
  eq_iff s.session_id id,
  eq_iff s.session_id other,
  eq_iff other id,
)

-- No two sessions have the same id.
abbrev pub AreDistinct : List Session → Type 0
AreDistinct [] = Unit
AreDistinct (s ∷ sessions) = (find_session s.session_id sessions ≡ none) × AreDistinct sessions

pub merged-id :
    (id : String) (process_id : Json) (sequence : ℤ) (status : String) (value : Fields) (now : ℤ)
    (previous : Option Session)
    → (merged id process_id sequence status value now previous).session_id ≡ id
unfolding merged
merged-id id process_id sequence status value now none = refl
merged-id id process_id sequence status value now (some s) = refl

pub find-written :
    (id other : String) (s : Session) (sessions : List Session)
    → s.session_id ≡ id
    → find_session other (s ∷ drop_session id sessions)
      ≡ (if s.session_id == other then some s else find_session other sessions)
unfolding find_session
find-written id other s sessions same = ground (
  arith,
  same,
  find-drop_session id other sessions,
  eq_iff s.session_id id,
  eq_iff s.session_id other,
  eq_iff other id,
)

pub merged-updated_at :
    (id : String) (process_id : Json) (sequence : ℤ) (status : String) (value : Fields) (now : ℤ)
    (previous : Option Session)
    → (merged id process_id sequence status value now previous).updated_at ≡ now
unfolding merged
merged-updated_at id process_id sequence status value now none = refl
merged-updated_at id process_id sequence status value now (some s) = refl

-- What a test says of the session that an id finds.
abbrev pub finds : (Session → Bool) → Option Session → Bool
finds p none = false
finds p (some s) = p s

abbrev pub ids_of : List Session → List String
ids_of sessions = map (λ (s : Session). s.session_id) sessions

has-ids_of :
    (p : Session → Bool) (other : String) (sessions : List Session)
    → find_session other sessions ≡ none
    → string_slice_has (ids_of (keep_if p sessions)) other ≡ false
unfolding find_session string_slice_has
has-ids_of p other [] h = refl
has-ids_of p other (s ∷ sessions) h = ground (arith, h, has-ids_of p other sessions)

-- An id is among those of the sessions that pass a test exactly if its session does.
pub has-ids_of-keep_if :
    (p : Session → Bool) (other : String) (sessions : List Session)
    → AreDistinct sessions
    → string_slice_has (ids_of (keep_if p sessions)) other ≡ finds p (find_session other sessions)
unfolding find_session string_slice_has
has-ids_of-keep_if p other [] d = refl
has-ids_of-keep_if p other (s ∷ sessions) d = elim (Bool-cases (s.session_id == other)) [
  | inl e ↦
      let same : s.session_id ≡ other = ground (arith, e, eq_iff s.session_id other) in
      let gone : find_session other sessions ≡ none =
        subst (λ id. find_session id sessions ≡ none) same d.0 in
      ground (arith, e, gone, has-ids_of p other sessions gone)
  | inr e ↦ ground (arith, e, has-ids_of-keep_if p other sessions d.1)
]

-- The sessions that fail a test are found as before, and those that pass it are not.
pub find_unless :
    (p : Session → Bool) (other : String) (sessions : List Session)
    → AreDistinct sessions
    → find_session other (keep_if (λ (s : Session). not (p s)) sessions)
      ≡ (if finds p (find_session other sessions) then none else find_session other sessions)
unfolding find_session
find_unless p other [] d = refl
find_unless p other (s ∷ sessions) d = elim (Bool-cases (s.session_id == other)) [
  | inl e ↦
      let same : s.session_id ≡ other = ground (arith, e, eq_iff s.session_id other) in
      let gone : find_session other sessions ≡ none =
        subst (λ id. find_session id sessions ≡ none) same d.0 in
      ground (arith, e, gone, find_unless p other sessions d.1)
  | inr e ↦ ground (arith, e, find_unless p other sessions d.1)
]
