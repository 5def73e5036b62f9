-- ===== src/Sessions/Branches.antt =====
-- What a call on sessions may answer and leave, and that the end of each branch of handleSessionsRPC in
-- shellagent/session_state.go does.
use mathlib.Core.List.{Memᴰ, Perm}
use Prim.Native.String.{len}
use dynapp_agent.Prelude.{
  ℕ, ◌<◌, String, Bool, true, false, List, ◌∷◌, ◌==◌, eq_iff, not, if◌then◌else◌, Option, none,
  some, keep_if, ◌≡◌, ◌≢◌, ◌↔◌, ◌⊎◌, refl, arith, Option-cases, inl, inr, subst, sym, ap, ◌∙◌, map,
}
use dynapp_agent.Text.{sort_strings}
use dynapp_agent.Types.{Json, object, Fields}
use dynapp_agent.Types.Numbers.{ℤ, pos, ltb_ℤ}
use dynapp_agent.Sets.{string_slice_has}
use dynapp_agent.Sets.Membership.{has-sort_strings, string_slice_has_iff}
use dynapp_agent.Sessions.{
  Session, SessionError, app_id_required, invalid_id, value_not_object, value_too_large,
  invalid_status, invalid_process_id, invalid_cutoff, unsupported, Answer, failed, listed, got,
  written, removed, pruned, find_session, drop_session, early, is_stale, taken, by_latest,
}
use dynapp_agent.Sessions.Kept.{
  AreDistinct, find-drop_session, find-written, finds, ids_of, has-ids_of-keep_if, find_unless,
}
use dynapp_agent.Sessions.Listed.{IsLatestFirst, by_latest-Perm, by_latest-IsLatestFirst}

-- What a call gives: the app id, the method, the id and the cutoff that its first argument is read as,
-- the id, the value with its size, and the status that the first argument names as an object, and the
-- time.
pub record Request : Type 0 where
  pub app_id : String
  pub method : String
  pub id : String
  pub cutoff : ℤ
  pub named : String
  pub value : Json
  pub value_size : ℕ
  pub status : String
  pub now : ℤ

-- The method is none of the five.
abbrev pub IsUnknown : String → Type 0
IsUnknown method =
    (method ≢ "list")
    × ((method ≢ "get") × ((method ≢ "upsert") × ((method ≢ "remove") × (method ≢ "prune"))))

-- The call has a reason for its error.
abbrev pub IsCause : (String → Bool) → Request → SessionError → Type 0
IsCause matches_id request app_id_required = request.app_id ≡ ""
IsCause matches_id request invalid_id =
    ((request.method ≡ "upsert") × (matches_id request.named ≡ false))
    ⊎ (((request.method ≡ "get") ⊎ (request.method ≡ "remove")) × (matches_id request.id ≡ false))
IsCause matches_id request invalid_cutoff =
    (request.method ≡ "prune") × (ltb_ℤ (pos 0) request.cutoff ≡ false)
IsCause matches_id request unsupported = IsUnknown request.method
IsCause matches_id request value_not_object =
    (request.method ≡ "upsert") × ((fields : Fields) → request.value ≢ object fields)
IsCause matches_id request value_too_large =
    (request.method ≡ "upsert") × (65536 < request.value_size)
IsCause matches_id request invalid_status = (request.method ≡ "upsert") × (40 < len request.status)
IsCause matches_id request invalid_process_id = request.method ≡ "upsert"

-- The session was last updated before the cutoff, and is neither connecting nor running.
abbrev pub IsStale : ℤ → Session → Type 0
IsStale cutoff s =
    (ltb_ℤ s.updated_at cutoff ≡ true) × ((s.status ≢ "connecting") × (s.status ≢ "running"))

abbrev pub is_found : Option Session → Bool
is_found none = false
is_found (some s) = true

-- What a call answers and leaves, seen from one id.
unfoldable pub Leaves :
    (String → Bool) → Request → String → List Session → Answer × List Session → Type 0
Leaves matches_id request other sessions (failed e, after) =
    IsCause matches_id request e × (after ≡ sessions)
Leaves matches_id request other sessions (listed l, after) =
    (request.method ≡ "list") × ((after ≡ sessions) × (Perm l sessions × IsLatestFirst l))
Leaves matches_id request other sessions (got found, after) =
    (request.method ≡ "get") × ((after ≡ sessions) × (found ≡ find_session request.id sessions))
Leaves matches_id request other sessions (written s, after) =
    (request.method ≡ "upsert")
    × ((s.session_id ≡ request.named)
        × ((s.updated_at ≡ request.now)
            × (find_session other after
                ≡ (if request.named == other then some s else find_session other sessions))))
Leaves matches_id request other sessions (removed known, after) =
    (request.method ≡ "remove")
    × ((known ≡ is_found (find_session request.id sessions))
        × (find_session other after
            ≡ (if request.id == other then none else find_session other sessions)))
Leaves matches_id request other sessions (pruned ids, after) =
    (request.method ≡ "prune")
    × ((Memᴰ other ids
          ↔ ((s : Session) × ((find_session other sessions ≡ some s) × IsStale request.cutoff s)))
        × (find_session other after
            ≡ (if string_slice_has ids other then none else find_session other sessions)))

is_stale_iff : (cutoff : ℤ) (s : Session) → (is_stale cutoff s ≡ true) ↔ IsStale cutoff s
unfolding is_stale
is_stale_iff cutoff s = ground (arith, eq_iff s.status "connecting", eq_iff s.status "running")

finds_iff :
    (cutoff : ℤ) (found : Option Session)
    → (finds (is_stale cutoff) found ≡ true)
      ↔ ((s : Session) × ((found ≡ some s) × IsStale cutoff s))
finds_iff cutoff none =
    (λ h. absurd (ground (arith, h)), λ (s, (e, stale)). absurd (ground (arith, e)))
finds_iff cutoff (some t) = (
  λ h. (t, (refl, (is_stale_iff cutoff t).0 h)),
  λ (s, (e, stale)).
      let same : t ≡ s = cc e in
      subst (λ u. is_stale cutoff u ≡ true) (sym same) ((is_stale_iff cutoff s).1 stale),
)

module _ (matches_id : String → Bool) (request : Request) (other : String)
    (sessions : List Session) where
  pub early-Leaves :
      (t : Bool) (one two : Answer × List Session)
      → (t ≡ true → Leaves matches_id request other sessions one)
      → (t ≡ false → Leaves matches_id request other sessions two)
      → Leaves matches_id request other sessions (early t one two)
  unfolding early
  early-Leaves true one two h k = h refl
  early-Leaves false one two h k = k refl

  pub failed-Leaves :
      (e : SessionError)
      → IsCause matches_id request e
      → Leaves matches_id request other sessions (failed e, sessions)
  unfolding Leaves
  failed-Leaves e cause = (cause, refl)

  pub listed-Leaves :
      request.method ≡ "list"
      → Leaves matches_id request other sessions (listed (by_latest sessions), sessions)
  unfolding Leaves
  listed-Leaves m = (m, (refl, (by_latest-Perm sessions, by_latest-IsLatestFirst sessions)))

  pub got-Leaves :
      request.method ≡ "get"
      → Leaves matches_id request other sessions (got (find_session request.id sessions), sessions)
  unfolding Leaves
  got-Leaves m = (m, (refl, refl))

  pub written-Leaves :
      (s : Session)
      → request.method ≡ "upsert"
      → s.session_id ≡ request.named
      → s.updated_at ≡ request.now
      → Leaves matches_id request other sessions
          (written s, s ∷ drop_session request.named sessions)
  unfolding Leaves
  written-Leaves s m same now = (
    m,
    (
      same,
      (
        now,
        subst
            (λ id.
              find_session other (s ∷ drop_session request.named sessions)
              ≡ (if id == other then some s else find_session other sessions))
            same (find-written request.named other s sessions same),
      ),
    ),
  )

  pub taken-Leaves :
      request.method ≡ "remove"
      → Leaves matches_id request other sessions
          (taken request.id sessions (find_session request.id sessions))
  unfolding Leaves taken
  taken-Leaves m = elim (Option-cases (find_session request.id sessions)) [
    | inl e ↦
        rw (taken, e)
          (
            m,
            (
              sym (ap is_found e),
              ground (
                arith,
                e,
                eq_iff request.id other,
                ap (λ id. find_session id sessions) {x = request.id} {y = other},
              ),
            ),
          )
    | inr (s, e) ↦
        rw (taken, e)
          (
            m,
            (
              sym (ap is_found e),
              ground (
                arith,
                find-drop_session request.id other sessions,
                eq_iff request.id other,
                eq_iff other request.id,
              ),
            ),
          )
  ]

  pub pruned-Leaves :
      AreDistinct sessions
      → request.method ≡ "prune"
      → Leaves matches_id request other sessions (
        pruned
            (sort_strings (map (λ s. s.session_id) (keep_if (is_stale request.cutoff) sessions))),
        keep_if (λ (s : Session). not (is_stale request.cutoff s)) sessions,
      )
  unfolding Leaves
  pruned-Leaves d m =
      let stale = is_stale request.cutoff in
      let ids = sort_strings (ids_of (keep_if stale sessions)) in
      let found : string_slice_has ids other ≡ finds stale (find_session other sessions) =
        has-sort_strings (ids_of (keep_if stale sessions)) other
        ∙ has-ids_of-keep_if stale other sessions d in
      let test = string_slice_has_iff ids other in
      let spec = finds_iff request.cutoff (find_session other sessions) in
      (
        m,
        (
          (λ member. spec.0 (sym found ∙ test.1 member), λ s. test.0 (found ∙ spec.1 s)),
          subst
              (λ (b : Bool).
                find_session other (keep_if (λ (s : Session). not (stale s)) sessions)
                ≡ (if b then none else find_session other sessions))
              (sym found) (find_unless stale other sessions d),
        ),
      )
