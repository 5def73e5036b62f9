-- ===== src/Bridges/Counted.antt =====
-- The counter of active bridges is the number of bridges: shellagent/network_bridge.go.
use dynapp_agent.Prelude.{
  ℕ, suc, ◌+◌, ◌<◌, String, Bool, true, false, [], ◌∷◌, ◌==◌, eq_iff, not, if◌then◌else◌, Option,
  none, some, leb, length, ◌≡◌, refl, sym, ap, ◌∙◌, subst, ◌⊎◌, All, All-keep_if, arith, Bool-cases,
  Option-cases, inl, inr,
}
use dynapp_agent.Types.Numbers.{pos}
use dynapp_agent.Bridges.{
  Bridge, Bridges, Server, Event, closed, nil_dereference, find_bridge, drop_bridge, put, take,
  close_all, take_and_close, close_taken, close_any, close_if_present, change, bind, bind_datagrams,
  NetRequest, open_bridge, opened_bridge, write_bridge, take_from, add_to, emit, get,
  lock_bridge_open, is_invalid_open,
}

-- No entry has the id.
abbrev pub IsAbsent : String → Bridges → Type 0
IsAbsent id items = All (λ (b : Bridge). (b.id == id) ≡ false) items

-- The ids of a map are distinct.
abbrev pub AreKeys : Bridges → Type 0
AreKeys [] = Unit
AreKeys (b ∷ items) = IsAbsent b.id items × AreKeys items

-- Every id in the set was made from a number that the counter has passed.
abbrev pub AreNumbered : (String → ℕ → String) → ℕ → Bridges → Type 0
AreNumbered format counter items =
    All (λ (b : Bridge). (n : ℕ) (p : String) → counter < n → (b.id == format p n) ≡ false) items

-- The counter is the number of bridges in this set and `others` in the sets of other sockets.
abbrev pub IsCounted : (String → ℕ → String) → ℕ → Bridges → Server → Type 0
IsCounted format others items server =
    (server.active ≡ pos (others + length items))
    × AreKeys items
    × AreNumbered format server.counter items

drop_bridge-absent :
    (id : String) (items : Bridges) → IsAbsent id items → drop_bridge id items ≡ items
unfolding drop_bridge
drop_bridge-absent id [] h = refl
drop_bridge-absent id (b ∷ items) h = ground (arith, h.0, drop_bridge-absent id items h.1)

find-absent : (id : String) (items : Bridges) → IsAbsent id items → find_bridge id items ≡ none
unfolding find_bridge
find-absent id [] h = refl
find-absent id (b ∷ items) h = ground (arith, h.0, find-absent id items h.1)

-- An id is found, or no entry has it.
find_bridge-cases :
    (id : String) (items : Bridges)
    → IsAbsent id items ⊎ ((b : Bridge) × (find_bridge id items ≡ some b))
unfolding find_bridge
find_bridge-cases id [] = inl _
find_bridge-cases id (b ∷ items) = elim (Bool-cases (b.id == id)) [
  | inl e ↦ inr (b, ground (arith, e))
  | inr e ↦ elim (find_bridge-cases id items) [
    | inl h ↦ inl (e, h)
    | inr (c, h) ↦ inr (c, ground (arith, e, h))
  ]
]

IsAbsent-subst :
    {id other : String} (items : Bridges) → id ≡ other → IsAbsent id items → IsAbsent other items
IsAbsent-subst items e h = subst (λ s. IsAbsent s items) e h

-- Dropping an id that the map has leaves one entry fewer.
length-drop_bridge :
    (id : String) (items : Bridges) (b : Bridge)
    → AreKeys items
    → find_bridge id items ≡ some b
    → suc (length (drop_bridge id items)) ≡ length items
unfolding find_bridge drop_bridge
length-drop_bridge id [] b k h = absurd (ground (arith, h))
length-drop_bridge id (c ∷ items) b k h = elim (Bool-cases (c.id == id)) [
  | inl e ↦
      let same : c.id ≡ id = ground (arith, e, eq_iff c.id id) in
      ground (arith, e, drop_bridge-absent id items (IsAbsent-subst items same k.0))
  | inr e ↦ ground (arith, e, h, length-drop_bridge id items b k.1)
]

drop_bridge-IsAbsent : (id : String) (items : Bridges) → IsAbsent id (drop_bridge id items)
unfolding drop_bridge
drop_bridge-IsAbsent id [] = _
drop_bridge-IsAbsent id (b ∷ items) = ground (arith, drop_bridge-IsAbsent id items)

drop_bridge-AreKeys :
    (id : String) (items : Bridges) → AreKeys items → AreKeys (drop_bridge id items)
unfolding drop_bridge
drop_bridge-AreKeys id [] h = h
drop_bridge-AreKeys id (b ∷ items) h = ground (
  arith,
  drop_bridge-AreKeys id items h.1,
  All-keep_if (λ (c : Bridge). (c.id == b.id) ≡ false) (λ (c : Bridge). not (c.id == id)) items h.0,
)

drop_bridge-AreNumbered :
    (format : String → ℕ → String) (counter : ℕ) (id : String) (items : Bridges)
    → AreNumbered format counter items
    → AreNumbered format counter (drop_bridge id items)
unfolding drop_bridge
drop_bridge-AreNumbered format counter id items h = All-keep_if _ _ items h

take_one : (n : ℕ) → take_from 1 (pos (suc n)) ≡ pos n
unfolding take_from
take_one n = ground arith

take_all : (others n : ℕ) → take_from n (pos (others + n)) ≡ pos others
unfolding take_from
take_all others n = ground arith

-- What the ids rely on in fmt.Sprintf("%s_%d"): later numbers give other texts.
abbrev pub IsNumbering : (String → ℕ → String) → Type 0
IsNumbering format = (p q : String) (m n : ℕ) → m < n → (format p m == format q n) ≡ false

add_one : (others n : ℕ) → add_to 1 (pos (others + n)) ≡ pos (others + suc n)
unfolding add_to
add_one others n = ap pos (omega arith)

dropped : String → Bridges → Server → Event → Bridges × Server
dropped id items server event =
    (drop_bridge id items, emit event (record server { active = take_from 1 server.active }))

module _ (id : String) (items : Bridges) (server : Server) where
  take-found :
      (b : Bridge)
      → find_bridge id items ≡ some b
      → take id items server ≡ (
        some b.connection,
        drop_bridge id items,
        record server { active = take_from 1 server.active },
      )
  unfolding take
  take-found b found = rw (take, found) refl

  take-absent : IsAbsent id items → take id items server ≡ (none, items, server)
  unfolding take
  take-absent absent =
      rw (take, find-absent id items absent, drop_bridge-absent id items absent) refl

  take_and_close-found :
      (b : Bridge)
      → find_bridge id items ≡ some b
      → take_and_close id items server ≡ dropped id items server (closed b.connection)
  unfolding take_and_close close_taken dropped
  take_and_close-found b found = ap close_taken (take-found b found)

  take_and_close-absent :
      IsAbsent id items → take_and_close id items server ≡ (items, emit nil_dereference server)
  unfolding take_and_close close_taken
  take_and_close-absent absent = ap close_taken (take-absent absent)

  close_if_present-found :
      (b : Bridge)
      → find_bridge id items ≡ some b
      → close_if_present id items server ≡ dropped id items server (closed b.connection)
  unfolding close_if_present close_any dropped
  close_if_present-found b found = ap close_any (take-found b found)

  close_if_present-absent : IsAbsent id items → close_if_present id items server ≡ (items, server)
  unfolding close_if_present close_any
  close_if_present-absent absent = ap close_any (take-absent absent)

module _ (format : String → ℕ → String) (others : ℕ) where
  abbrev Keeps : Bridges × Server → Type 0
  Keeps next = IsCounted format others next.0 next.1

  drop-IsCounted :
      (id : String) (items : Bridges) (server : Server) (b : Bridge)
      → find_bridge id items ≡ some b
      → IsCounted format others items server
      → IsCounted format others
          (drop_bridge id items)
          (record server { active = take_from 1 server.active })
  drop-IsCounted id items server b found h =
      let size = length-drop_bridge id items b h.1 found in
      let count : server.active ≡ pos (suc (others + length (drop_bridge id items))) =
        h.0 ∙ ap pos (omega arith) in
      (
        ap (take_from 1) count ∙ take_one (others + length (drop_bridge id items)),
        drop_bridge-AreKeys id items h.1,
        drop_bridge-AreNumbered format server.counter id items h.2,
      )

  -- take(id).Close() keeps the count where the id is known, and so does it where it is not.
  take_and_close-IsCounted :
      (id : String) (items : Bridges) (server : Server)
      → IsCounted format others items server
      → Keeps (take_and_close id items server)
  unfolding emit dropped
  take_and_close-IsCounted id items server h = elim (find_bridge-cases id items) [
    | inr (b, found) ↦
        let kept = drop-IsCounted id items server b found h in
        subst Keeps (sym (take_and_close-found id items server b found)) (kept.0, kept.1, kept.2)
    | inl absent ↦ subst Keeps (sym (take_and_close-absent id items server absent)) (h.0, h.1, h.2)
  ]

  pub close_if_present-IsCounted :
      (id : String) (items : Bridges) (server : Server)
      → IsCounted format others items server
      → Keeps (close_if_present id items server)
  unfolding emit dropped
  close_if_present-IsCounted id items server h = elim (find_bridge-cases id items) [
    | inr (b, found) ↦
        let kept = drop-IsCounted id items server b found h in
        subst Keeps (sym (close_if_present-found id items server b found)) (kept.0, kept.1, kept.2)
    | inl absent ↦
        subst Keeps (sym (close_if_present-absent id items server absent)) (h.0, h.1, h.2)
  ]

  pub close_all-IsCounted :
      (items : Bridges) (server : Server)
      → IsCounted format others items server
      → let next = close_all items server in (next.1.active ≡ pos others) × (next.0 ≡ [])
  unfolding close_all
  close_all-IsCounted items server h =
      (ap (take_from (length items)) h.0 ∙ take_all others (length items), refl)

  pub write_bridge-IsCounted :
      (id : String) (bytes : ℕ) (written : Bool) (items : Bridges) (server : Server)
      → IsCounted format others items server
      → Keeps (write_bridge id bytes written items server)
  unfolding write_bridge emit
  write_bridge-IsCounted id bytes written items server h = elim (Option-cases (get id items)) [
    | inl e ↦ rw (write_bridge, e) h
    | inr (connection, e) ↦ elim (Bool-cases (leb bytes 0)) [
      | inl blank ↦ rw (write_bridge, e, blank) h
      | inr more ↦ elim (Bool-cases written) [
        | inl done ↦ rw (write_bridge, e, more, done) (h.0, h.1, h.2)
        | inr failed ↦
            rw (write_bridge, e, more, failed) (take_and_close-IsCounted id items server h)
      ]
    ]
  ]

  fresh-IsAbsent :
      (p : String) (items : Bridges) (counter : ℕ)
      → AreNumbered format counter items
      → IsAbsent (format p (counter + 1)) items
  fresh-IsAbsent p [] counter h = _
  fresh-IsAbsent p (b ∷ items) counter h =
      (h.0 (counter + 1) p (omega arith), fresh-IsAbsent p items counter h.1)

  later-AreNumbered :
      (items : Bridges) (counter : ℕ)
      → AreNumbered format counter items
      → AreNumbered format (counter + 1) items
  later-AreNumbered [] counter h = _
  later-AreNumbered (b ∷ items) counter h =
      (λ n p l. h.0 n p (omega (arith, l)), later-AreNumbered items counter h.1)

  -- put of a fresh id keeps the count, with the counter of ids already raised.
  put-IsCounted :
      (p : String) (connection carrier : ℕ) (items : Bridges) (server : Server)
      → IsNumbering format
      → IsCounted format others items server
      → Keeps (
          put
            (format p (server.counter + 1))
            connection
            carrier
            items
            (record server { counter = server.counter + 1 }))
  unfolding put
  put-IsCounted p connection carrier items server numbering h =
      let absent = fresh-IsAbsent p items server.counter h.2 in
      subst
        (λ rest.
          (add_to 1 server.active ≡ pos (others + suc (length rest)))
          × (IsAbsent (format p (server.counter + 1)) rest × AreKeys rest)
          × (((n : ℕ) (q : String)
                → server.counter + 1 < n
                → (format p (server.counter + 1) == format q n) ≡ false)
              × AreNumbered format (server.counter + 1) rest))
        (sym (drop_bridge-absent (format p (server.counter + 1)) items absent))
        (
          ap (add_to 1) h.0 ∙ add_one others (length items),
          (absent, h.1),
          (
            λ n q l. numbering p q (server.counter + 1) n l,
            later-AreNumbered items server.counter h.2,
          ),
        )

  opened_bridge-IsCounted :
      (request : NetRequest) (connection socket : ℕ) (sent : Bool) (items : Bridges)
      (server : Server)
      → IsNumbering format
      → IsCounted format others items server
      → Keeps (opened_bridge format request connection socket sent items server)
  unfolding opened_bridge emit
  opened_bridge-IsCounted request connection socket true items server numbering h =
      let kept = put-IsCounted request.protocol connection socket items server numbering h in
      (kept.0, kept.1, kept.2)
  opened_bridge-IsCounted request connection socket false items server numbering h =
      take_and_close-IsCounted _ _ _
        (put-IsCounted request.protocol connection socket items server numbering h)

  pub open_bridge-IsCounted :
      (request : NetRequest) (dialled : Option ℕ) (socket : ℕ) (sent : Bool) (items : Bridges)
      (server : Server)
      → IsNumbering format
      → IsCounted format others items server
      → Keeps (open_bridge format request dialled socket sent items server)
  unfolding open_bridge emit lock_bridge_open
  open_bridge-IsCounted request dialled socket sent items server numbering h =
      elim (Bool-cases (is_invalid_open request)) [
        | inl bad ↦ rw (open_bridge, bad) (h.0, h.1, h.2)
        | inr good ↦ elim (Bool-cases server.update_pending) [
          | inl pending ↦ rw (open_bridge, lock_bridge_open, good, pending) (h.0, h.1, h.2)
          | inr free ↦ elim (Option-cases dialled) [
            | inl failed ↦ rw (open_bridge, lock_bridge_open, good, free, failed) (h.0, h.1, h.2)
            | inr (connection, e) ↦
                rw (open_bridge, lock_bridge_open, good, free, e)
                  (opened_bridge-IsCounted request connection socket sent items server numbering h)
          ]
        ]
      ]

module _ (id : String) (f : Bridge → Bridge) (keeps : (b : Bridge) → (f b).id ≡ b.id) where
  changed-id : (b : Bridge) (t : Bool) → (if t then f b else b).id ≡ b.id
  changed-id b true = keeps b
  changed-id b false = refl

  length-change : (items : Bridges) → length (change id f items) ≡ length items
  unfolding change
  length-change [] = refl
  length-change (b ∷ items) = omega (arith, length-change items)

  change-IsAbsent :
      (other : String) (items : Bridges) → IsAbsent other items → IsAbsent other (change id f items)
  unfolding change
  change-IsAbsent other [] h = _
  change-IsAbsent other (b ∷ items) h =
      (ap (λ s. s == other) (changed-id b (b.id == id)) ∙ h.0, change-IsAbsent other items h.1)

  change-AreKeys : (items : Bridges) → AreKeys items → AreKeys (change id f items)
  unfolding change
  change-AreKeys [] h = _
  change-AreKeys (b ∷ items) h = (
    subst (λ s. IsAbsent s (change id f items)) (sym (changed-id b (b.id == id)))
        (change-IsAbsent b.id items h.0),
    change-AreKeys items h.1,
  )

  change-AreNumbered :
      (format : String → ℕ → String) (counter : ℕ) (items : Bridges)
      → AreNumbered format counter items
      → AreNumbered format counter (change id f items)
  unfolding change
  change-AreNumbered format counter [] h = _
  change-AreNumbered format counter (b ∷ items) h = (
    λ n p l. ap (λ s. s == format p n) (changed-id b (b.id == id)) ∙ h.0 n p l,
    change-AreNumbered format counter items h.1,
  )

  change-IsCounted :
      (format : String → ℕ → String) (others : ℕ) (items : Bridges) (server : Server)
      → IsCounted format others items server
      → IsCounted format others (change id f items) server
  change-IsCounted format others items server h = (
    h.0 ∙ ap (λ n. pos (others + n)) (sym (length-change items)),
    change-AreKeys items h.1,
    change-AreNumbered format server.counter items h.2,
  )

module _ (format : String → ℕ → String) (others : ℕ) where
  pub bind-IsCounted :
      (id : String) (carrier : ℕ) (mode : String) (items : Bridges) (server : Server)
      → IsCounted format others items server
      → IsCounted format others (bind id carrier mode items).1 server
  unfolding bind
  bind-IsCounted id carrier mode items server h = elim (Option-cases (find_bridge id items)) [
    | inl e ↦ rw (bind, e) h
    | inr (b, e) ↦ rw (bind, e) (change-IsCounted id _ (λ b. refl) format others items server h)
  ]

  pub bind_datagrams-IsCounted :
      (id : String) (items : Bridges) (server : Server)
      → IsCounted format others items server
      → IsCounted format others (bind_datagrams id items).1 server
  unfolding bind_datagrams
  bind_datagrams-IsCounted id items server h = elim (Option-cases (find_bridge id items)) [
    | inl e ↦ rw (bind_datagrams, e) h
    | inr (b, e) ↦ elim (Bool-cases (b.protocol == "udp")) [
      | inl udp ↦
          rw (bind_datagrams, e, udp)
            (change-IsCounted id _ (λ b. refl) format others items server h)
      | inr other ↦ rw (bind_datagrams, e, other) h
    ]
  ]
