-- ===== src/Permissions/Closing.antt =====
-- Which sockets an edit of a grant closes, in shellagent/permissions.go.
use mathlib.Core.List.{Memᴰ}
use mathlib.Core.List.Memᴰ
use dynapp_agent.Prelude.{
  ℕ, String, Bool, true, false, ◌||◌, ◌&&◌, List, [], ◌∷◌, ◌++◌, ◌≡◌, refl, any_of, nat_eq, arith,
  Option, some, eq_iff, Bool-cases, inl, inr, ◌↔◌, ◌⊎◌, sym, subst, ◌∙◌,
}
use dynapp_agent.Types.{Host, Config, Fields, BrowserIdentity, SocketAuthentication}
use dynapp_agent.Types.Numbers.{Time}
use dynapp_agent.Grants.{find_identity, remove_identity}
use dynapp_agent.Permissions.{
  Agent, Effect, closed, notified, LiveSocket, is_bound_to, close_targets, close_sockets_bound_to,
  capability_arg,
}
use dynapp_agent.Permissions.Edit.{
  Selector, service_restart, pairing_declined, declared_ceiling, edited_identity, notify,
  upsert_browser_identity, with_identities, update_identity, revoke_identity,
}

-- The effect closes a socket with a code.
is_closing : ℕ → ℕ → Effect → Bool
is_closing socket code notified = false
is_closing socket code (closed s c) = nat_eq s socket && nat_eq c code

-- One of the effects closes a socket with a code.
has_closed : ℕ → ℕ → List Effect → Bool
has_closed socket code effects = any_of (is_closing socket code) effects

-- A live socket of that number is bound to an identity.
is_live_bound : BrowserIdentity → ℕ → List LiveSocket → Bool
is_live_bound identity socket [] = false
is_live_bound identity socket (entry ∷ live) =
    (nat_eq entry.socket socket && is_bound_to identity entry.auth)
    || is_live_bound identity socket live

has_closed-append :
    (socket code : ℕ) (l r : List Effect)
    → has_closed socket code (l ++ r) ≡ (has_closed socket code l || has_closed socket code r)
unfolding has_closed
has_closed-append socket code [] r = refl
has_closed-append socket code (e ∷ l) r = ground (arith, has_closed-append socket code l r)

has_closed-close_targets :
    (identity : BrowserIdentity) (socket code : ℕ) (live : List LiveSocket)
    → has_closed socket code (close_targets identity code live) ≡ is_live_bound identity socket live
unfolding has_closed is_closing is_live_bound close_targets
has_closed-close_targets identity socket code [] = refl
has_closed-close_targets identity socket code (entry ∷ live) =
    ground (arith, has_closed-close_targets identity socket code live)

has_closed-close_sockets_bound_to :
    (identity : BrowserIdentity) (socket code : ℕ) (agent : Agent)
    → has_closed socket code (close_sockets_bound_to identity code agent).effects
      ≡ (is_live_bound identity socket agent.live || has_closed socket code agent.effects)
unfolding close_sockets_bound_to
has_closed-close_sockets_bound_to identity socket code agent =
    rw (has_closed-append, has_closed-close_targets) refl

-- The test finds exactly the effects that close the socket with the code.
has_closed_iff :
    (socket code : ℕ) (effects : List Effect)
    → (has_closed socket code effects ≡ true) ↔ Memᴰ (closed socket code) effects
unfolding has_closed is_closing
has_closed_iff socket code [] = (λ h. absurd (ground (arith, h)), λ m. absurd (Memᴰ.not-nil m))
has_closed_iff socket code (notified ∷ effects) = (
  λ h. Memᴰ.tail ((has_closed_iff socket code effects).0 (ground (arith, h))),
  λ m. elim (Memᴰ.cases_cons m) [
    | inl e ↦ absurd (ground (arith, e))
    | inr r ↦ ground (arith, (has_closed_iff socket code effects).1 r)
  ],
)
has_closed_iff socket code (closed s c ∷ effects) = (
  λ h. elim (Bool-cases (nat_eq s socket && nat_eq c code)) [
    | inl e ↦ Memᴰ.head (ground (arith, e))
    | inr e ↦ Memᴰ.tail ((has_closed_iff socket code effects).0 (ground (arith, h, e)))
  ],
  λ m. elim (Memᴰ.cases_cons m) [
    | inl e ↦ ground (arith, e)
    | inr r ↦ ground (arith, (has_closed_iff socket code effects).1 r)
  ],
)

-- The authentication is under the identity's key and origin, and under its app if it has one.
abbrev pub IsUnder : BrowserIdentity → SocketAuthentication → Type 0
IsUnder identity auth =
    (auth.key_id ≡ identity.key_id)
    × ((auth.origin ≡ identity.origin)
        × ((identity.store_id ≡ "") ⊎ (auth.store_id ≡ identity.store_id)))

-- A live socket of that number is under the identity.
abbrev pub IsLiveUnder : BrowserIdentity → ℕ → List LiveSocket → Type 0
IsLiveUnder identity socket live =
    (entry : LiveSocket) × (Memᴰ entry live
      × ((entry.socket ≡ socket) × IsUnder identity entry.auth))

is_bound_to_iff :
    (identity : BrowserIdentity) (auth : SocketAuthentication)
    → (is_bound_to identity auth ≡ true) ↔ IsUnder identity auth
unfolding is_bound_to
is_bound_to_iff identity auth = ground (
  arith,
  eq_iff auth.key_id identity.key_id,
  eq_iff auth.origin identity.origin,
  eq_iff identity.store_id "",
  eq_iff auth.store_id identity.store_id,
)

is_live_bound_iff :
    (identity : BrowserIdentity) (socket : ℕ) (live : List LiveSocket)
    → (is_live_bound identity socket live ≡ true) ↔ IsLiveUnder identity socket live
unfolding is_live_bound
is_live_bound_iff identity socket [] =
    (λ h. absurd (ground (arith, h)), λ (entry, (m, rest)). absurd (Memᴰ.not-nil m))
is_live_bound_iff identity socket (entry ∷ live) = (
  λ h. elim (Bool-cases (nat_eq entry.socket socket && is_bound_to identity entry.auth)) [
    | inl e ↦ (
      entry,
      (
        Memᴰ.head refl,
        (ground (arith, e), (is_bound_to_iff identity entry.auth).0 (ground (arith, e))),
      ),
    )
    | inr e ↦
        let (found, (m, rest)) =
          (is_live_bound_iff identity socket live).0 (ground (arith, h, e)) in
        (found, (Memᴰ.tail m, rest))
  ],
  λ (found, (m, (same, under))). elim (Memᴰ.cases_cons m) [
    | inl e ↦
        let bound : is_bound_to identity entry.auth ≡ true =
          subst (λ x. is_bound_to identity x.auth ≡ true) e
            ((is_bound_to_iff identity found.auth).1 under) in
        let number : entry.socket ≡ socket = subst (λ x. x.socket ≡ socket) e same in
        ground (arith, bound, number)
    | inr r ↦ ground (arith, (is_live_bound_iff identity socket live).1 (found, (r, (same, under))))
  ],
)

or-cases : (a b : Bool) → ((a || b) ≡ true) ↔ ((a ≡ true) ⊎ (b ≡ true))
or-cases a b = ground arith

-- What has been closed with a code after closeSocketsBoundTo and notifyPermissionChange.
closed_iff :
    (identity : BrowserIdentity) (socket code : ℕ) (agent : Agent)
    → Memᴰ (closed socket code) (notify (close_sockets_bound_to identity code agent)).effects
      ↔ (IsLiveUnder identity socket agent.live ⊎ Memᴰ (closed socket code) agent.effects)
unfolding notify
closed_iff identity socket code agent =
    let after = close_sockets_bound_to identity code agent in
    let effects = has_closed_iff socket code after.effects in
    let before = has_closed_iff socket code agent.effects in
    let live = is_live_bound_iff identity socket agent.live in
    let test = has_closed-close_sockets_bound_to identity socket code agent in
    (
      λ m. elim (Memᴰ.cases_cons m) [
        | inl e ↦ absurd (ground (arith, e))
        | inr r ↦ elim ((or-cases _ _).0 (sym test ∙ effects.1 r)) [
          | inl e ↦ inl (live.0 e)
          | inr e ↦ inr (before.0 e)
        ]
      ],
      λ h. Memᴰ.tail (
          effects.0 (
            test
            ∙ (or-cases _ _).1 (elim h [ inl e ↦ inl (live.1 e) | inr e ↦ inr (before.1 e) ]))),
    )

-- An edit of a saved grant of a browser has closed a socket with the code for a restart exactly if it
-- had been closed so before, or if it is live under the grant's key and origin, and under its app where
-- the grant names one; a revocation does the same with the code for a declined pairing.
pub update_identity-closes :
    (host : Host) (fetch : Config → String → Option Fields) (now : Time) (selector : Selector)
    (args : Fields) (agent : Agent) (identity : BrowserIdentity) (requested : List String)
    (socket : ℕ)
    → find_identity selector.key_id selector.origin selector.store_id
        agent.config.browser_identities
      ≡ some identity
    → capability_arg args ≡ some requested
    → (Memᴰ
          (closed socket service_restart)
          (update_identity host fetch now selector args agent).1.effects
        ↔ (IsLiveUnder identity socket agent.live
            ⊎ Memᴰ (closed socket service_restart) agent.effects))
      × (Memᴰ (closed socket pairing_declined) (revoke_identity host fetch selector agent).1.effects
          ↔ (IsLiveUnder identity socket agent.live
              ⊎ Memᴰ (closed socket pairing_declined) agent.effects))
unfolding update_identity revoke_identity edited_identity upsert_browser_identity with_identities
update_identity-closes host fetch now selector args agent identity requested socket e f =
    let ceiling = declared_ceiling host fetch agent.config selector.store_id identity.declared in
    let edited = edited_identity host fetch now ceiling requested identity in
    let kept =
      remove_identity selector.key_id selector.origin selector.store_id
        agent.config.browser_identities in
    (
      rw (e, f, update_identity)
          (closed_iff edited socket service_restart (upsert_browser_identity edited agent)),
      rw (e, revoke_identity)
          (closed_iff identity socket pairing_declined (with_identities kept agent)),
    )
