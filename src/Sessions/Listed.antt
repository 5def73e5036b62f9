-- ===== src/Sessions/Listed.antt =====
-- The listing of sessions, latest first: shellagent/session_state.go.
use mathlib.Core.List.{Perm}
use mathlib.Core.List.Perm
use dynapp_agent.Prelude.{false, List, [], ◌∷◌, ◌≡◌, arith, Bool-cases, inl, inr}
use dynapp_agent.Types.Numbers.{ltb_ℤ}
use dynapp_agent.Sessions.{Session, by_latest, insert_latest}

-- No session is followed by one that was updated later.
abbrev pub IsLatestFirst : List Session → Type 0
IsLatestFirst [] = Unit
IsLatestFirst (s ∷ []) = Unit
IsLatestFirst (s ∷ t ∷ sessions) =
    (ltb_ℤ s.updated_at t.updated_at ≡ false) × IsLatestFirst (t ∷ sessions)

insert_latest-Perm :
    (s : Session) (sessions : List Session) → Perm (insert_latest s sessions) (s ∷ sessions)
unfolding insert_latest
insert_latest-Perm s [] = Perm.rfl
insert_latest-Perm s (t ∷ sessions) = elim (Bool-cases (ltb_ℤ s.updated_at t.updated_at)) [
  | inl e ↦ rw e (Perm.trans (Perm.cons t (insert_latest-Perm s sessions)) (Perm.swap s t sessions))
  | inr e ↦ rw e Perm.rfl
]

pub by_latest-Perm : (sessions : List Session) → Perm (by_latest sessions) sessions
unfolding by_latest
by_latest-Perm [] = Perm.rfl
by_latest-Perm (s ∷ sessions) =
    Perm.trans (insert_latest-Perm s (by_latest sessions)) (Perm.cons s (by_latest-Perm sessions))

insert_latest-behind :
    (s t : Session) (sessions : List Session)
    → ltb_ℤ t.updated_at s.updated_at ≡ false
    → IsLatestFirst (t ∷ sessions)
    → IsLatestFirst (insert_latest s sessions)
    → IsLatestFirst (t ∷ insert_latest s sessions)
unfolding insert_latest
insert_latest-behind s t [] h l k = (h, tt)
insert_latest-behind s t (u ∷ sessions) h l k =
    elim (Bool-cases (ltb_ℤ s.updated_at u.updated_at)) [
      | inl e ↦
          let after : IsLatestFirst (u ∷ insert_latest s sessions) = rw e at k in rw e (l.0, after)
      | inr e ↦ rw e (h, (e, l.1))
    ]

tail_of :
    (s : Session) (sessions : List Session) → IsLatestFirst (s ∷ sessions) → IsLatestFirst sessions
tail_of s [] h = tt
tail_of s (t ∷ sessions) h = h.1

insert_latest-IsLatestFirst :
    (s : Session) (sessions : List Session)
    → IsLatestFirst sessions
    → IsLatestFirst (insert_latest s sessions)
unfolding insert_latest
insert_latest-IsLatestFirst s [] h = tt
insert_latest-IsLatestFirst s (t ∷ sessions) h =
    elim (Bool-cases (ltb_ℤ s.updated_at t.updated_at)) [
      | inl e ↦ rw e (
          insert_latest-behind s t sessions (ground (arith, e)) h
            (insert_latest-IsLatestFirst s sessions (tail_of t sessions h)))
      | inr e ↦ rw e (e, h)
    ]

pub by_latest-IsLatestFirst : (sessions : List Session) → IsLatestFirst (by_latest sessions)
unfolding by_latest
by_latest-IsLatestFirst [] = tt
by_latest-IsLatestFirst (s ∷ sessions) =
    insert_latest-IsLatestFirst s (by_latest sessions) (by_latest-IsLatestFirst sessions)
