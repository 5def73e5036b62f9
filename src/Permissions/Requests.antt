-- ===== src/Permissions/Requests.antt =====
-- The registry of pending requests in shellagent/permissions.go: what registering, deciding and
-- waiting do to it.
use dynapp_agent.Prelude.{
  ◌+◌, ◌≤◌, String, List, [], ◌∷◌, ◌≡◌, refl, Option, arith, Bool-cases, Option-cases, inl, inr,
  ◌⊎◌, leb, map,
}
use dynapp_agent.Types.Numbers.{Time}
use dynapp_agent.Permissions.{
  Agent, PendingRequest, RequestTemplate, Wake, decided, expired, cancelled, Result, ok, err, Error,
  resolve, new_request, add_request, register_pending, unregister_pending, await_decision,
  find_pending, sweep, count_registered, allocate,
}

-- The grants and the pre-approvals of two states are the same.
abbrev pub SameGrants : Agent → Agent → Type 0
SameGrants agent after = (after.config ≡ agent.config) × (after.preapproved ≡ agent.preapproved)

pub Result-cases :
    {A : Type 0} (r : Result A) → ((a : A) × (r ≡ ok a)) ⊎ ((e : Error) × (r ≡ err e))
Result-cases (ok a) = inl (a, refl)
Result-cases (err e) = inr (e, refl)

pub register_pending-SameGrants :
    (now : Time) (draws : List (Option (String × String))) (template : RequestTemplate)
    (agent : Agent)
    → SameGrants agent (register_pending now draws template agent).1
unfolding register_pending add_request
register_pending-SameGrants now draws template agent =
    elim (Bool-cases (leb 32 (count_registered (map (sweep now) agent.requests)))) [
      | inl e ↦ rw e (refl, refl)
      | inr e ↦ elim (Result-cases (allocate 16 draws (map (sweep now) agent.requests))) [
        | inl (drawn, e') ↦ rw (e, e') (refl, refl)
        | inr (failure, e') ↦ rw (e, e') (refl, refl)
      ]
    ]

pub unregister_pending-SameGrants :
    (id : String) (agent : Agent) → SameGrants agent (unregister_pending id agent)
unfolding unregister_pending
unregister_pending-SameGrants id agent = elim (Option-cases (find_pending id agent.requests)) [
  | inl e ↦ rw (e, unregister_pending) (refl, refl)
  | inr (pending, e) ↦ rw (e, unregister_pending) (refl, refl)
]

pub await_decision-SameGrants :
    (wake : Wake) (pending : PendingRequest) (agent : Agent)
    → SameGrants agent (await_decision wake pending agent).1
unfolding await_decision
await_decision-SameGrants (decided granted) pending agent =
    unregister_pending-SameGrants pending.id agent
await_decision-SameGrants expired pending agent = unregister_pending-SameGrants pending.id agent
await_decision-SameGrants cancelled pending agent = unregister_pending-SameGrants pending.id agent

-- The registry after the sweep never holds more requests, and a new one adds one.
count-sweep :
    (now : Time) (l : List PendingRequest)
    → count_registered (map (sweep now) l) ≤ count_registered l
unfolding count_registered sweep
count-sweep now [] = omega arith
count-sweep now (x ∷ l) = ground (arith, count-sweep now l)

count-add_request :
    (now : Time) (drawn : String × String) (template : RequestTemplate) (agent : Agent)
    → count_registered (add_request now drawn template agent).requests
      ≡ 1 + count_registered agent.requests
unfolding count_registered add_request resolve new_request
count-add_request now (code, id) template agent = ground arith

-- If at most 32 requests are registered, then at most 32 are after registerPending, however it
-- ends.
pub register_pending-count :
    (now : Time) (draws : List (Option (String × String))) (template : RequestTemplate)
    (agent : Agent)
    → count_registered agent.requests ≤ 32
    → count_registered (register_pending now draws template agent).1.requests ≤ 32
unfolding register_pending
register_pending-count now draws template agent h =
    let swept = record agent { requests = map (sweep now) agent.requests } in
    let less = count-sweep now agent.requests in
    elim (Bool-cases (leb 32 (count_registered (map (sweep now) agent.requests)))) [
      | inl e ↦ rw e (omega (arith, less))
      | inr e ↦ elim (Result-cases (allocate 16 draws (map (sweep now) agent.requests))) [
        | inl (drawn, e') ↦
            rw (e, e') (ground (arith, e, count-add_request now drawn template swept))
        | inr (failure, e') ↦ rw (e, e') (omega (arith, less))
      ]
    ]
