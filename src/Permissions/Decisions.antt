-- ===== src/Permissions/Decisions.antt =====
-- The registry of pending requests in shellagent/permissions.go: no two of them share an id or a
-- code, and no decision grants more than a request declares.
use dynapp_agent.Prelude.{
  ℕ, zero, suc, String, Bool, true, false, ◌||◌, ◌&&◌, List, [], ◌∷◌, ◌==◌, ◌≡◌, refl,
  if◌then◌else◌, not, Option, none, some, All, arith, Bool-cases, Option-cases, inl, inr, leb, map,
  ltb, subst,
}
use dynapp_agent.Text.{trim_space}
use dynapp_agent.Types.{Host, Fields, lookup_field, string_value}
use dynapp_agent.Types.Numbers.{Time}
use dynapp_agent.Sets.{string_slice_has, intersect_strings}
use dynapp_agent.Sets.Membership.{has-sort_strings, has-intersect_strings}
use dynapp_agent.Permissions.{
  Agent, PendingRequest, RequestTemplate, ok, Decision, resolve, new_request, add_request,
  register_pending, find_pending, sweep, count_registered, is_taken, allocate, resolve_pending,
  granted_set, decide_permissions, capability_arg,
}
use dynapp_agent.Permissions.Requests.{Result-cases}

-- A registered request shares neither its id nor its code with a registered one of the list.
unfoldable pub stands_apart : PendingRequest → List PendingRequest → Bool
stands_apart pending l = not pending.registered || not (is_taken pending.code pending.id l)

-- No two registered requests share an id or a code.
abbrev pub AreApart : List PendingRequest → Type 0
AreApart [] = Unit
AreApart (pending ∷ l) = stands_apart pending l ≡ true × AreApart l

-- The draw that the allocation settles on is free.
allocate-free :
    (attempts : ℕ) (draws : List (Option (String × String))) (l : List PendingRequest)
    (code id : String)
    → allocate attempts draws l ≡ ok (code, id)
    → is_taken code id l ≡ false
unfolding allocate
allocate-free zero draws l code id h = absurd (ground (arith, h))
allocate-free (suc attempts) [] l code id h = absurd (ground (arith, h))
allocate-free (suc attempts) (none ∷ draws) l code id h = absurd (ground (arith, h))
allocate-free (suc attempts) (some (code', id') ∷ draws) l code id h =
    elim (Bool-cases (is_taken code' id' l)) [
      | inl e ↦ allocate-free attempts draws l code id (rw e at h)
      | inr e ↦
          let got : ok (code', id') ≡ ok (code, id) = rw e at h in
          let same_code : code' ≡ code = cc got in
          let same_id : id' ≡ id = cc got in rw (← same_code, ← same_id) e
    ]

taken-sweep :
    (now : Time) (code id : String) (l : List PendingRequest)
    → is_taken code id l ≡ false
    → is_taken code id (map (sweep now) l) ≡ false
unfolding is_taken sweep
taken-sweep now code id [] h = refl
taken-sweep now code id (x ∷ l) h = ground (arith, taken-sweep now code id l)

AreApart-sweep : (now : Time) (l : List PendingRequest) → AreApart l → AreApart (map (sweep now) l)
unfolding stands_apart sweep
AreApart-sweep now [] a = tt
AreApart-sweep now (x ∷ l) a =
    (ground (arith, a.0, taken-sweep now x.code x.id l), AreApart-sweep now l a.1)

apart-add_request :
    (now : Time) (code id : String) (template : RequestTemplate) (agent : Agent)
    → is_taken code id agent.requests ≡ false
    → AreApart agent.requests
    → AreApart (add_request now (code, id) template agent).requests
unfolding add_request resolve new_request stands_apart
apart-add_request now code id template agent h a = (ground (arith, h), a)

-- If no two registered requests share an id or a code, then none do after registerPending, however
-- it ends.
pub register_pending-AreApart :
    (now : Time) (draws : List (Option (String × String))) (template : RequestTemplate)
    (agent : Agent)
    → AreApart agent.requests
    → AreApart (register_pending now draws template agent).1.requests
unfolding register_pending
register_pending-AreApart now draws template agent a =
    let swept = record agent { requests = map (sweep now) agent.requests } in
    let apart = AreApart-sweep now agent.requests a in
    elim (Bool-cases (leb 32 (count_registered (map (sweep now) agent.requests)))) [
      | inl e ↦ rw e apart
      | inr e ↦ elim (Result-cases (allocate 16 draws (map (sweep now) agent.requests))) [
        | inl ((code, id), e') ↦
            rw (e, e')
              (apart-add_request now code id template swept
                (allocate-free 16 draws (map (sweep now) agent.requests) code id e') apart)
        | inr (failure, e') ↦ rw (e, e') apart
      ]
    ]

-- The set that a decision grants lies within a set; a refusal, or no decision, does.
abbrev pub LiesWithin : List String → Decision → Type 0
LiesWithin declared none = Unit
LiesWithin declared (some none) = Unit
LiesWithin declared (some (some granted)) =
    (x : String) → string_slice_has granted x ≡ true → string_slice_has declared x ≡ true

abbrev pub IsDecidedWithin : PendingRequest → Type 0
IsDecidedWithin pending = LiesWithin pending.declared pending.decision

granted_set-within :
    (requested : Option (List String)) (declared : List String) (x : String)
    → string_slice_has (granted_set requested declared) x ≡ true
    → string_slice_has declared x ≡ true
unfolding granted_set string_slice_has
granted_set-within none declared x h = absurd (ground (arith, h))
granted_set-within (some requested) declared x h = ground (
  arith,
  h,
  has-sort_strings (intersect_strings requested declared) x,
  has-intersect_strings requested declared x,
)

resolve-IsDecidedWithin :
    (granted : List String) (approved : Bool) (pending : PendingRequest)
    → LiesWithin pending.declared (some (some granted))
    → IsDecidedWithin pending
    → IsDecidedWithin (resolve granted approved pending)
unfolding resolve
resolve-IsDecidedWithin granted approved pending h d = elim (Option-cases pending.decision) [
  | inr (decision, e) ↦ rw (e, resolve) d
  | inl e ↦ rw (e, resolve) (chosen approved)
]
  where
    chosen :
        (approved : Bool)
        → LiesWithin pending.declared (some (if approved then some granted else none))
    chosen true = h
    chosen false = tt

resolve_pending-IsDecidedWithin :
    (id : String) (granted : List String) (approved : Bool) (l : List PendingRequest)
    (pending : PendingRequest)
    → find_pending id l ≡ some pending
    → LiesWithin pending.declared (some (some granted))
    → All IsDecidedWithin l
    → All IsDecidedWithin (resolve_pending id granted approved l)
unfolding find_pending resolve_pending
resolve_pending-IsDecidedWithin id granted approved [] pending f h a = tt
resolve_pending-IsDecidedWithin id granted approved (x ∷ l) pending f h a =
    elim (Bool-cases (x.registered && x.id == id)) [
      | inl e ↦
          let got : some x ≡ some pending = rw e at f in
          let same : pending ≡ x = cc got in
          let within : LiesWithin x.declared (some (some granted)) =
            subst (λ (p : PendingRequest). LiesWithin p.declared (some (some granted))) same h in
          rw e (resolve-IsDecidedWithin granted approved x within a.0, a.1)
      | inr e ↦
          rw e
            (a.0, resolve_pending-IsDecidedWithin id granted approved l pending (rw e at f) h a.1)
    ]

-- If no decided request was granted more than it declares, then none is after decidePermissions,
-- whatever its arguments name and ask for.
pub decide_permissions-IsDecidedWithin :
    (host : Host) (now : Time) (args : Fields) (agent : Agent)
    → All IsDecidedWithin agent.requests
    → All IsDecidedWithin (decide_permissions host now args agent).1.requests
unfolding decide_permissions
decide_permissions-IsDecidedWithin host now args agent a =
    let id = trim_space (string_value host (lookup_field "id" args)) in
    elim (Bool-cases (id == "")) [
      | inl e ↦ rw e a
      | inr e ↦ elim (Option-cases (find_pending id agent.requests)) [
        | inl none_found ↦ rw (e, none_found) a
        | inr (pending, found) ↦ elim (Bool-cases (ltb pending.expires_at now)) [
          | inl late ↦ rw (e, found, late) a
          | inr live ↦
              rw (e, found, live)
                (resolve_pending-IsDecidedWithin id _ _ agent.requests pending found
                  (granted_set-within (capability_arg args) pending.declared) a)
        ]
      ]
    ]

new-IsDecidedWithin :
    (now : Time) (drawn : String × String) (template : RequestTemplate) (agent : Agent)
    → All IsDecidedWithin agent.requests
    → All IsDecidedWithin (add_request now drawn template agent).requests
unfolding add_request new_request resolve
new-IsDecidedWithin now (code, id) template agent a =
    elim (Bool-cases agent.auto_approve_pairings) [
      | inl e ↦ rw e (λ x h. h, a)
      | inr e ↦ rw e (tt, a)
    ]

sweep-IsDecidedWithin :
    (now : Time) (l : List PendingRequest)
    → All IsDecidedWithin l
    → All IsDecidedWithin (map (sweep now) l)
unfolding sweep
sweep-IsDecidedWithin now [] a = tt
sweep-IsDecidedWithin now (x ∷ l) a = elim (Bool-cases (x.registered && ltb x.expires_at now)) [
  | inl e ↦ rw e (a.0, sweep-IsDecidedWithin now l a.1)
  | inr e ↦ rw e (a.0, sweep-IsDecidedWithin now l a.1)
]

-- If no decided request was granted more than it declares, then none is after registerPending, also
-- where the new request is approved at once.
pub register_pending-IsDecidedWithin :
    (now : Time) (draws : List (Option (String × String))) (template : RequestTemplate)
    (agent : Agent)
    → All IsDecidedWithin agent.requests
    → All IsDecidedWithin (register_pending now draws template agent).1.requests
unfolding register_pending
register_pending-IsDecidedWithin now draws template agent a =
    let swept = record agent { requests = map (sweep now) agent.requests } in
    let kept = sweep-IsDecidedWithin now agent.requests a in
    elim (Bool-cases (leb 32 (count_registered (map (sweep now) agent.requests)))) [
      | inl e ↦ rw e kept
      | inr e ↦ elim (Result-cases (allocate 16 draws (map (sweep now) agent.requests))) [
        | inl (drawn, e') ↦ rw (e, e') (new-IsDecidedWithin now drawn template swept kept)
        | inr (failure, e') ↦ rw (e, e') kept
      ]
    ]
