-- ===== src/Grants/Approved.antt =====
-- What findApprovedAppGrant of shellagent/browser_identity.go returns.
use dynapp_agent.Prelude.{
  ℕ, ◌≤◌, String, Bool, true, false, ◌||◌, ◌&&◌, List, [], ◌∷◌, ◌≡◌, refl, if◌then◌else◌, not,
  Option, none, ◌⊎◌, subst, some, All, arith, Bool-cases, inl, inr, nat_eq,
}
use dynapp_agent.Types.{Host, BrowserIdentity}
use dynapp_agent.Origins.{same_identity_origin}
use dynapp_agent.Grants.{grant_priority, Best, is_better, best_grant, find_approved_app_grant}

module _ (host : Host) (origin store_id : String) where
  -- A saved grant that the search may return.
  pub is_eligible : BrowserIdentity → Bool
  is_eligible identity =
      not (identity.authority || not (same_identity_origin host identity.origin origin))
      && not (nat_eq (grant_priority store_id identity) 0)

  -- One turn of the loop.
  better_of : BrowserIdentity → Best → Best
  better_of identity best =
      let priority = grant_priority store_id identity in
      if identity.authority || not (same_identity_origin host identity.origin origin)
      then best
      else if nat_eq priority 0
      then best
      else if is_better identity priority best
      then some (identity, priority)
      else best

  module _ {ℓ} (P : BrowserIdentity → Type ℓ) where
    abbrev IsApproved : Best → Type ℓ
    IsApproved none = Unit
    IsApproved (some (identity, priority)) =
        (is_eligible identity ≡ true × priority ≡ grant_priority store_id identity) × P identity

    better_of-IsApproved :
        (identity : BrowserIdentity) (best : Best)
        → P identity
        → IsApproved best
        → IsApproved (better_of identity best)
    unfolding better_of is_eligible
    better_of-IsApproved identity best p h =
        elim (Bool-cases
          (identity.authority || not (same_identity_origin host identity.origin origin))) [
            | inl e ↦ rw e h
            | inr e ↦ elim (Bool-cases (nat_eq (grant_priority store_id identity) 0)) [
              | inl z ↦ rw (e, z) h
              | inr z ↦
                  elim (Bool-cases (is_better identity (grant_priority store_id identity) best)) [
                    | inl b ↦ rw (e, z, b) ((ground (arith, e, z), refl), p)
                    | inr b ↦ rw (e, z, b) h
                  ]
            ]
          ]

    best_grant-IsApproved :
        (best : Best) (l : List BrowserIdentity)
        → All P l
        → IsApproved best
        → IsApproved (best_grant host origin store_id best l)
    unfolding best_grant better_of
    best_grant-IsApproved best [] a h = h
    best_grant-IsApproved best (identity ∷ l) a h =
        best_grant-IsApproved (better_of identity best) l a.1
          (better_of-IsApproved identity best a.0 h)

  rank : Best → ℕ
  rank none = 0
  rank (some (identity, priority)) = priority

  rank-better_of :
      (identity : BrowserIdentity) (best : Best) → rank best ≤ rank (better_of identity best)
  unfolding rank better_of is_better
  rank-better_of identity none = ground arith
  rank-better_of identity (some (found, priority)) = ground arith

  better_of-rank :
      (identity : BrowserIdentity) (best : Best)
      → is_eligible identity ≡ true
      → grant_priority store_id identity ≤ rank (better_of identity best)
  unfolding rank better_of is_better is_eligible
  better_of-rank identity none h = ground arith
  better_of-rank identity (some (found, priority)) h = ground arith

  rank-best_grant :
      (best : Best) (l : List BrowserIdentity)
      → rank best ≤ rank (best_grant host origin store_id best l)
  unfolding best_grant better_of
  rank-best_grant best [] = omega arith
  rank-best_grant best (identity ∷ l) =
      omega (arith, rank-better_of identity best, rank-best_grant (better_of identity best) l)

  abbrev IsAtMost : ℕ → BrowserIdentity → Type 0
  IsAtMost bound identity = is_eligible identity ≡ true → grant_priority store_id identity ≤ bound

  best_grant-IsAtMost :
      (best : Best) (l : List BrowserIdentity)
      → All (IsAtMost (rank (best_grant host origin store_id best l))) l
  unfolding best_grant better_of
  best_grant-IsAtMost best [] = tt
  best_grant-IsAtMost best (identity ∷ l) =
      let next = better_of identity best in
      (
        λ h. omega (arith, better_of-rank identity best h, rank-best_grant next l),
        best_grant-IsAtMost next l,
      )

  -- The element is one of the list.
  abbrev pub In : BrowserIdentity → List BrowserIdentity → Type 0
  In x [] = ⊥
  In x (y ∷ l) = (x ≡ y) ⊎ In x l

  All-weaken :
      {P Q : BrowserIdentity → Type 0} (l : List BrowserIdentity)
      → ((i : BrowserIdentity) → P i → Q i)
      → All P l
      → All Q l
  All-weaken [] f a = tt
  All-weaken (x ∷ l) f a = (f x a.0, All-weaken l f a.1)

  All-In : (l : List BrowserIdentity) → All (λ i. In i l) l
  All-In [] = tt
  All-In (x ∷ l) = (inl refl, All-weaken l (λ i h. inr h) (All-In l))

  -- What the search promises: `none` only where no saved grant is eligible, and otherwise an
  -- eligible grant of the list whose class no other eligible one exceeds.
  pub IsBestGrant : List BrowserIdentity → Option BrowserIdentity → Type 0
  IsBestGrant l none = All (λ i. is_eligible i ≡ false) l
  IsBestGrant l (some found) =
      In found l × (is_eligible found ≡ true × All (IsAtMost (grant_priority store_id found)) l)

  unranked : (i : BrowserIdentity) → IsAtMost 0 i → is_eligible i ≡ false
  unfolding is_eligible
  unranked i h = ground (arith, h)

  answer :
      (l : List BrowserIdentity) (best : Best)
      → IsApproved (λ i. In i l) best
      → All (IsAtMost (rank best)) l
      → IsBestGrant l (elim best [ none ↦ none | some (identity, _) ↦ some identity ])
  unfolding IsBestGrant rank
  answer l none h a = All-weaken l unranked a
  answer l (some (found, priority)) h a = (h.1, (h.0.0, subst (λ p. All (IsAtMost p) l) h.0.1 a))

  -- For every saved list, origin and store id, findApprovedAppGrant returns nothing only where no
  -- grant is eligible; otherwise it returns a grant of the list that is no authority's, stands under
  -- the same origin, is of this app or of none, and is of the best class present.
  pub find_approved_app_grant-IsBestGrant :
      (l : List BrowserIdentity) → IsBestGrant l (find_approved_app_grant host l origin store_id)
  unfolding find_approved_app_grant
  find_approved_app_grant-IsBestGrant l =
      answer l (best_grant host origin store_id none l)
        (best_grant-IsApproved (λ i. In i l) none l (All-In l) tt) (best_grant-IsAtMost none l)

  abbrev pub OptionAll : (BrowserIdentity → Type 0) → Option BrowserIdentity → Type 0
  OptionAll P none = Unit
  OptionAll P (some found) = is_eligible found ≡ true × P found

  found_of :
      (P : BrowserIdentity → Type 0) (best : Best)
      → IsApproved P best
      → OptionAll P (elim best [ none ↦ none | some (identity, _) ↦ some identity ])
  found_of P none h = tt
  found_of P (some (found, priority)) h = (h.0.0, h.1)

  -- What holds of every saved grant holds of the one found.
  pub find_approved_app_grant-All :
      (P : BrowserIdentity → Type 0) (l : List BrowserIdentity)
      → All P l
      → OptionAll P (find_approved_app_grant host l origin store_id)
  unfolding find_approved_app_grant
  find_approved_app_grant-All P l a =
      found_of P (best_grant host origin store_id none l) (best_grant-IsApproved P none l a tt)
