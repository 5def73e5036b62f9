-- ===== src/Updater/Waiting.antt =====
-- The wait for idle bridges and the order of an update: waitForIdleBridges and
-- checkSelfUpdateWithVerifier of shellagent/updater.go.
use dynapp_agent.Prelude.{
  ℕ, String, Bool, true, false, ◌||◌, List, [], ◌∷◌, not, if◌then◌else◌, Option, none, some, nat_eq,
  leb, any_of, ◌≡◌, refl, arith, Option-cases, inl, inr, ◌≢◌, ◌⊎◌, subst, ap, ◌∙◌,
}
use dynapp_agent.Types.Numbers.{Time}
use dynapp_agent.Bridges.{Server, try_begin_update, cancel_update}
use dynapp_agent.Updater.{
  newer_release, normalized_release_version, recent_update_attempt, Asset, Assets,
  select_agent_assets,
}

-- What wakes the loop.
pub data Wake : Type 0 where
  cancelled timer ticker : Wake

-- One turn of the loop: whether the context has ended and how many bridges are active when it starts,
-- what wakes it, and the same two values after that.
pub record Turn : Type 0 where
  pub ended : Bool
  pub active : ℕ
  pub wake : Wake
  pub ended_then : Bool
  pub active_then : ℕ

-- The loop of waitForIdleBridges: `force` and `proceed`, or `none` if it still waits after these turns.
unfoldable pub wait_loop : List Turn → Option (Bool × Bool)
wait_loop [] = none
wait_loop (turn ∷ turns) =
    let rest = wait_loop turns in
    if turn.ended
    then some (false, false)
    else if nat_eq turn.active 0
    then some (false, true)
    else elim turn.wake [
      | cancelled ↦ some (false, false)
      | timer ↦
          if turn.ended_then
          then some (false, false)
          else some (not (nat_eq turn.active_then 0), true)
      | ticker ↦ rest
    ]

-- waitForIdleBridges: the number of active bridges, whether the context has ended, the time and the
-- deadline when it is called, and the number of active bridges once more.
unfoldable pub wait_for_idle_bridges : ℕ → Bool → Time → Time → ℕ → List Turn → Option (Bool × Bool)
unfolding wait_loop
wait_for_idle_bridges active ended now deadline active_then turns =
    if nat_eq active 0
    then some (false, true)
    else if ended
    then some (false, false)
    else if leb deadline now
    then some (not (nat_eq active_then 0), true)
    else wait_loop turns

abbrev pub is_timer : Turn → Bool
is_timer turn = elim turn.wake [ timer ↦ true | _ ↦ false ]

Wake-cases : (w : Wake) → (w ≡ cancelled) ⊎ ((w ≡ timer) ⊎ (w ≡ ticker))
Wake-cases cancelled = inl refl
Wake-cases timer = inr (inl refl)
Wake-cases ticker = inr (inr refl)

wait_loop-some : (turns : List Turn) → any_of is_timer turns ≡ true → wait_loop turns ≢ none
unfolding wait_loop
wait_loop-some [] h e = ground (arith, h)
wait_loop-some (turn ∷ turns) h e = elim (Wake-cases turn.wake) [
  | inl w ↦ ground (arith, h, e, w)
  | inr (inl w) ↦ ground (arith, h, e, w)
  | inr (inr w) ↦ ground (arith, h, e, w, wait_loop-some turns)
]

-- The wait for idle bridges ends at the latest when its timer fires: among turns of which one is woken
-- by the timer, it comes to a result.
pub wait_for_idle_bridges-ends :
    (active : ℕ) (ended : Bool) (now deadline : Time) (active_then : ℕ) (turns : List Turn)
    → any_of is_timer turns ≡ true
    → (got : Bool × Bool) × (wait_for_idle_bridges active ended now deadline active_then turns
        ≡ some got)
unfolding wait_for_idle_bridges
wait_for_idle_bridges-ends active ended now deadline active_then turns h =
    elim (Option-cases (wait_for_idle_bridges active ended now deadline active_then turns)) [
      | inr got ↦ got
      | inl e ↦ absurd (ground (arith, e, wait_loop-some turns h))
    ]

wait_loop-force :
    (turns : List Turn) (got : Bool × Bool)
    → wait_loop turns ≡ some got
    → got.0 ≡ true
    → any_of is_timer turns ≡ true
unfolding wait_loop
wait_loop-force [] (force, proceed) h k = absurd (ground (arith, h))
wait_loop-force (turn ∷ turns) (force, proceed) h k = elim (Wake-cases turn.wake) [
  | inl w ↦ ground (arith, h, k, w)
  | inr (inl w) ↦ ground (arith, h, k, w)
  | inr (inr w) ↦ ground (arith, h, k, w, wait_loop-force turns (force, proceed))
]

-- The bridges are overridden only at the deadline: it had passed when the wait began, or the timer
-- fired.
pub wait_for_idle_bridges-force :
    (active : ℕ) (ended : Bool) (now deadline : Time) (active_then : ℕ) (turns : List Turn)
    (proceed : Bool)
    → wait_for_idle_bridges active ended now deadline active_then turns ≡ some (true, proceed)
    → (leb deadline now || any_of is_timer turns) ≡ true
unfolding wait_for_idle_bridges
wait_for_idle_bridges-force active ended now deadline active_then turns proceed h =
    ground (arith, h, wait_loop-force turns (true, proceed))

-- What checkSelfUpdateWithVerifier meets: the latest release (`none` is the error of fetching it), the
-- recorded attempt, the path of the staged binary, the result of the wait, whether the staged binary
-- passes its second verification, and whether OnUpdate succeeds.
pub record Check : Type 0 where
  pub version : String
  pub release : Option (String × List Asset)
  pub attempt : Option (String × Time)
  pub goos : String
  pub goarch : String
  pub staged : Option String
  pub waited : Bool × Bool
  pub verified : Bool
  pub succeeds : Bool

-- What the check does to files and to the running agent.
pub data Deed : Type 0 where
  removed : String → Deed
  recorded : String → Deed
  handed_over : String → String → Deed

-- The end of the check, once the update has begun.
unfoldable pub apply_update : Check → String → String → Server → List Deed × Server
apply_update check tag path server =
    let version = normalized_release_version tag in
    if not check.verified
    then (removed path ∷ [], cancel_update server)
    else if check.succeeds
    then (recorded version ∷ handed_over path version ∷ [], server)
    else (recorded version ∷ handed_over path version ∷ [], cancel_update server)

unfoldable pub begin_and_apply : Check → String → String → Server → List Deed × Server
unfolding apply_update
begin_and_apply check tag path server =
    let begun = try_begin_update check.waited.0 server in
    if not check.waited.1
    then ([], server)
    else if not begun.0
    then ([], server)
    else apply_update check tag path begun.1

-- checkSelfUpdateWithVerifier
unfoldable pub check_self_update : Check → Time → Server → List Deed × Server
unfolding begin_and_apply
check_self_update check now server = elim check.release [
  | none ↦ ([], server)
  | some (tag, assets) ↦
      if not (newer_release tag check.version)
      then ([], server)
      else if recent_update_attempt check.attempt (normalized_release_version tag) now
      then ([], server)
      else elim (select_agent_assets check.goos check.goarch assets tag) [
        | none ↦ ([], server)
        | some picked ↦ elim check.staged [
          | none ↦ ([], server)
          | some path ↦ begin_and_apply check tag path server
        ]
      ]
]

-- Whether a path and a version were handed over, and which.
unfoldable pub handed_over_of : List Deed → Option (String × String)
handed_over_of [] = none
handed_over_of (handed_over path version ∷ deeds) = some (path, version)
handed_over_of (removed path ∷ deeds) = handed_over_of deeds
handed_over_of (recorded version ∷ deeds) = handed_over_of deeds

begin_and_apply-verified :
    (check : Check) (tag staged path version : String) (server : Server)
    → handed_over_of (begin_and_apply check tag staged server).0 ≡ some (path, version)
    → (staged ≡ path)
      × (normalized_release_version tag ≡ version)
      × (check.verified ≡ true)
      × (check.waited.1 ≡ true)
      × (server.update_pending ≡ false)
      × ((begin_and_apply check tag staged server).1.update_pending ≡ check.succeeds)
unfolding begin_and_apply apply_update handed_over_of try_begin_update cancel_update
begin_and_apply-verified check tag staged path version server h = ground (arith, h)

begin_and_apply-kept :
    (check : Check) (tag path : String) (server : Server)
    → handed_over_of (begin_and_apply check tag path server).0 ≡ none
    → (begin_and_apply check tag path server).1.update_pending ≡ server.update_pending
unfolding begin_and_apply apply_update handed_over_of try_begin_update cancel_update
begin_and_apply-kept check tag path server h = ground (arith, h)

begins_picked :
    (check : Check) (now : Time) (server : Server) (tag path : String) (assets : List Asset)
    (picked : Assets)
    → check.release ≡ some (tag, assets)
    → check.staged ≡ some path
    → select_agent_assets check.goos check.goarch assets tag ≡ some picked
    → (check_self_update check now server ≡ ([], server))
      ⊎ ((newer_release tag check.version ≡ true)
          × (recent_update_attempt check.attempt (normalized_release_version tag) now ≡ false)
          × (check_self_update check now server ≡ begin_and_apply check tag path server))
unfolding check_self_update
begins_picked check now server tag path assets picked e staged p = ground (arith, e, staged, p)

check_self_update_unpicked :
    (check : Check) (now : Time) (server : Server) (tag : String) (assets : List Asset)
    → check.release ≡ some (tag, assets)
    → select_agent_assets check.goos check.goarch assets tag ≡ none
    → check_self_update check now server ≡ ([], server)
unfolding check_self_update
check_self_update_unpicked check now server tag assets e missing = ground (arith, e, missing)

check_self_update-idle :
    (check : Check) (now : Time) (server : Server)
    → (check.release ≡ none) ⊎ (check.staged ≡ none)
    → check_self_update check now server ≡ ([], server)
unfolding check_self_update
check_self_update-idle check now server (inl e) = rw (check_self_update, e) refl
check_self_update-idle check now server (inr e) = elim (Option-cases check.release) [
  | inl f ↦ ground (arith, f)
  | inr ((tag, assets), f) ↦
      elim (Option-cases (select_agent_assets check.goos check.goarch assets tag)) [
        | inl missing ↦ ground (arith, e, f, missing)
        | inr (picked, p) ↦ ground (arith, e, f, p)
      ]
]

-- A release that the check found, with its assets: it is newer than the running agent and not one that
-- was tried lately, its assets were picked, and its binary was staged at the path.
abbrev pub IsDue : Check → Time → String → String → Type 0
IsDue check now tag path =
    (assets : List Asset) × (picked : Assets) × (check.release ≡ some (tag, assets))
    × (newer_release tag check.version ≡ true)
    × (recent_update_attempt check.attempt (normalized_release_version tag) now ≡ false)
    × (select_agent_assets check.goos check.goarch assets tag ≡ some picked)
    × (check.staged ≡ some path)

-- The check does nothing, or it applies a release that is due.
check_self_update-cases :
    (check : Check) (now : Time) (server : Server)
    → (check_self_update check now server ≡ ([], server))
      ⊎ ((tag : String) × (path : String) × IsDue check now tag path
          × (check_self_update check now server ≡ begin_and_apply check tag path server))
check_self_update-cases check now server = elim (Option-cases check.release) [
  | inl e ↦ inl (check_self_update-idle check now server (inl e))
  | inr ((tag, assets), e) ↦ elim (Option-cases check.staged) [
    | inl f ↦ inl (check_self_update-idle check now server (inr f))
    | inr (path, f) ↦ elim (Option-cases (select_agent_assets check.goos check.goarch assets tag)) [
      | inl missing ↦ inl (check_self_update_unpicked check now server tag assets e missing)
      | inr (picked, p) ↦ elim (begins_picked check now server tag path assets picked e f p) [
        | inl same ↦ inl same
        | inr (newer, fresh, same) ↦ inr (tag, path, (assets, picked, e, newer, fresh, p, f), same)
      ]
    ]
  ]
]

-- A binary is handed over for installation only if it was staged for the latest release, under that
-- release's version, where this release is newer than the running agent and was not tried lately, and
-- only if the wait ended well, the binary passed its second verification, and no update was pending;
-- the gate is then closed exactly if the hand-over succeeds.
pub check_self_update-handed_over :
    (check : Check) (now : Time) (server : Server) (path version : String)
    → handed_over_of (check_self_update check now server).0 ≡ some (path, version)
    → ((tag : String) × IsDue check now tag path × (normalized_release_version tag ≡ version))
      × (check.verified ≡ true)
      × (check.waited.1 ≡ true)
      × (server.update_pending ≡ false)
      × ((check_self_update check now server).1.update_pending ≡ check.succeeds)
unfolding handed_over_of
check_self_update-handed_over check now server path version h =
    elim (check_self_update-cases check now server) [
      | inl same ↦
          absurd (ground (arith, subst (λ r. handed_over_of r.0 ≡ some (path, version)) same h))
      | inr (tag, staged, due, same) ↦
          let (at, named, verified, waited, free, closed) =
            begin_and_apply-verified check tag staged path version server
              (subst (λ r. handed_over_of r.0 ≡ some (path, version)) same h) in
          (
            (tag, subst (IsDue check now tag) at due, named),
            verified,
            waited,
            free,
            ap (λ r. r.1.update_pending) same ∙ closed,
          )
    ]

-- A check that hands nothing over leaves the gate for bridges as it was, on every path, also after an
-- update had begun.
pub check_self_update-kept :
    (check : Check) (now : Time) (server : Server)
    → handed_over_of (check_self_update check now server).0 ≡ none
    → (check_self_update check now server).1.update_pending ≡ server.update_pending
check_self_update-kept check now server h = elim (check_self_update-cases check now server) [
  | inl same ↦ ap (λ r. r.1.update_pending) same
  | inr (tag, path, due, same) ↦
      ap (λ r. r.1.update_pending) same
      ∙ begin_and_apply-kept check tag path server (subst (λ r. handed_over_of r.0 ≡ none) same h)
]
