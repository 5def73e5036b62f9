-- ===== src/Bridges/Updates.antt =====
-- Updates and open bridges: how the sockets of shellagent/network_bridge.go and the update gate of
-- shellagent/agent.go interleave.
use dynapp_agent.Prelude.{
  ℕ, ◌+◌, ◌≤◌, String, Bool, true, false, List, [], ◌∷◌, ◌++◌, Option, none, some, leb, length, ◌≡◌,
  refl, sym, ap, subst, ◌∙◌, All, arith, Bool-cases, Option-cases, inl, inr,
}
use dynapp_agent.Types.Numbers.{pos}
use dynapp_agent.Bridges.{
  Bridges, Server, emit, find_bridge, drop_bridge, put, take, close_all, take_and_close,
  close_taken, close_any, close_if_present, bind, bind_datagrams, NetRequest, open_bridge,
  opened_bridge, write_bridge, get, try_begin_update, cancel_update, is_invalid_open,
  lock_bridge_open,
}
use dynapp_agent.Bridges.Counted.{
  AreKeys, AreNumbered, IsCounted, IsNumbering, open_bridge-IsCounted, write_bridge-IsCounted,
  close_if_present-IsCounted, close_all-IsCounted, bind-IsCounted, bind_datagrams-IsCounted,
}

-- The agent with the sets of bridges of its sockets.
pub record System : Type 0 where
  pub sets : List Bridges
  pub server : Server

-- The bridges of all sockets.
abbrev pub total : List Bridges → ℕ
total [] = 0
total (items ∷ sets) = length items + total sets

module _ (format : String → ℕ → String) where
  -- What a frame, or a failed read, does to the bridges of its socket.
  pub data Act (items : Bridges) (server : Server) : Bridges × Server → Type 0 where
    opens :
        (request : NetRequest) (dialled : Option ℕ) (socket : ℕ) (sent : Bool)
        → Act items server (open_bridge format request dialled socket sent items server)
    writes :
        (id : String) (bytes : ℕ) (written : Bool)
        → Act items server (write_bridge id bytes written items server)
    closes : (id : String) → Act items server (close_if_present id items server)
    binds :
        (id : String) (carrier : ℕ) (mode : String)
        → Act items server ((bind id carrier mode items).1, server)
    binds_datagrams : (id : String) → Act items server ((bind_datagrams id items).1, server)

  -- A step of the agent that cancels no update.
  pub data Work : System → System → Type 0 where
    connects :
        (sets : List Bridges) (server : Server)
        → Work
            (record { sets = sets; server = server })
            (record { sets = [] ∷ sets; server = server })
    acts :
        (before after : List Bridges) (items : Bridges) (server : Server) (next : Bridges × Server)
        → Act items server next
        → Work
            (record { sets = before ++ items ∷ after; server = server })
            (record { sets = before ++ next.0 ∷ after; server = next.1 })
    ends :
        (before after : List Bridges) (items : Bridges) (server : Server)
        → Work
            (record { sets = before ++ items ∷ after; server = server })
            (record { sets = before ++ after; server = (close_all items server).1 })
    begins :
        (sets : List Bridges) (server : Server) (force : Bool)
        → Work
            (record { sets = sets; server = server })
            (record { sets = sets; server = (try_begin_update force server).1 })

  pub data Step : System → System → Type 0 where
    works : {s t : System} → Work s t → Step s t
    cancels : (s : System) → Step s (record s { server = cancel_update s.server })

  pub data Reach (s : System) : System → Type 0 where
    here : Reach s s
    next : {t u : System} → Reach s t → Step t u → Reach s u

  pub data Works (s : System) : System → Type 0 where
    done : Works s s
    more : {t u : System} → Works s t → Work t u → Works s u

  -- The ids of a set are distinct and came from the counter.
  abbrev AreNamed : ℕ → Bridges → Type 0
  AreNamed counter items = AreKeys items × AreNumbered format counter items

  -- The counter of active bridges is the number of bridges of all sockets.
  abbrev pub IsSound : System → Type 0
  IsSound s = (s.server.active ≡ pos (total s.sets)) × All (AreNamed s.server.counter) s.sets

total-around :
    (before after : List Bridges) (items : Bridges)
    → total (before ++ items ∷ after) ≡ total (before ++ after) + length items
total-around [] after items = omega arith
total-around (b ∷ before) after items = omega (arith, total-around before after items)

later :
    (format : String → ℕ → String) (items : Bridges) (m n : ℕ)
    → m ≤ n
    → AreNumbered format m items
    → AreNumbered format n items
later format [] m n l h = _
later format (b ∷ items) m n l h =
    (λ k p s. h.0 k p (omega (arith, l, s)), later format items m n l h.1)

module _ (format : String → ℕ → String) where
  later-sets :
      (sets : List Bridges) (m n : ℕ)
      → m ≤ n
      → All (AreNamed format m) sets
      → All (AreNamed format n) sets
  later-sets [] m n l h = _
  later-sets (items ∷ sets) m n l h =
      ((h.0.0, later format items m n l h.0.1), later-sets sets m n l h.1)

split :
    (P : Bridges → Type 0) (before after : List Bridges) (items : Bridges)
    → All P (before ++ items ∷ after)
    → P items × All P (before ++ after)
split P [] after items h = h
split P (b ∷ before) after items h =
    let rest = split P before after items h.1 in (rest.0, (h.0, rest.1))

join :
    (P : Bridges → Type 0) (before after : List Bridges) (items : Bridges)
    → P items
    → All P (before ++ after)
    → All P (before ++ items ∷ after)
join P [] after items p h = (p, h)
join P (b ∷ before) after items p h = (h.0, join P before after items p h.1)

-- The second server has the gate and the counter of the first.
abbrev SameGate : Server → Server → Type 0
SameGate server other =
    (other.update_pending ≡ server.update_pending) × (server.counter ≤ other.counter)

take-SameGate :
    (id : String) (items : Bridges) (server : Server) → SameGate server (take id items server).2
unfolding take
take-SameGate id items server = elim (Option-cases (find_bridge id items)) [
  | inl e ↦ rw (take, e) (refl, omega arith)
  | inr (b, e) ↦ rw (take, e) (refl, omega arith)
]

close_taken-SameGate :
    (got : Option ℕ × Bridges × Server) (server : Server)
    → SameGate server got.2
    → SameGate server (close_taken got).1
unfolding close_taken emit
close_taken-SameGate (none, items, other) server h = h
close_taken-SameGate (some connection, items, other) server h = h

close_any-SameGate :
    (got : Option ℕ × Bridges × Server) (server : Server)
    → SameGate server got.2
    → SameGate server (close_any got).1
unfolding close_any emit
close_any-SameGate (none, items, other) server h = h
close_any-SameGate (some connection, items, other) server h = h

take_and_close-SameGate :
    (id : String) (items : Bridges) (server : Server)
    → SameGate server (take_and_close id items server).1
unfolding take_and_close
take_and_close-SameGate id items server =
    close_taken-SameGate (take id items server) server (take-SameGate id items server)

write_bridge-SameGate :
    (id : String) (bytes : ℕ) (written : Bool) (items : Bridges) (server : Server)
    → SameGate server (write_bridge id bytes written items server).1
unfolding write_bridge emit
write_bridge-SameGate id bytes written items server = elim (Option-cases (get id items)) [
  | inl e ↦ rw (write_bridge, e) (refl, omega arith)
  | inr (connection, e) ↦ elim (Bool-cases (leb bytes 0)) [
    | inl blank ↦ rw (write_bridge, e, blank) (refl, omega arith)
    | inr filled ↦ elim (Bool-cases written) [
      | inl well ↦ rw (write_bridge, e, filled, well) (refl, omega arith)
      | inr failed ↦ rw (write_bridge, e, filled, failed) (take_and_close-SameGate id items server)
    ]
  ]
]

module _ (format : String → ℕ → String) where
  opened_bridge-SameGate :
      (request : NetRequest) (connection socket : ℕ) (sent : Bool) (items : Bridges)
      (server : Server)
      → SameGate server (opened_bridge format request connection socket sent items server).1
  unfolding opened_bridge emit put
  opened_bridge-SameGate request connection socket true items server = (refl, omega arith)
  opened_bridge-SameGate request connection socket false items server =
      let id = format request.protocol (server.counter + 1) in
      let stored =
        put id connection socket items (record server { counter = server.counter + 1 }) in
      let kept = take_and_close-SameGate id stored.0 stored.1 in (kept.0, omega (arith, kept.1))

  open_bridge-SameGate :
      (request : NetRequest) (dialled : Option ℕ) (socket : ℕ) (sent : Bool) (items : Bridges)
      (server : Server)
      → SameGate server (open_bridge format request dialled socket sent items server).1
  unfolding open_bridge emit lock_bridge_open
  open_bridge-SameGate request dialled socket sent items server =
      elim (Bool-cases (is_invalid_open request)) [
        | inl bad ↦ rw (open_bridge, bad) (refl, omega arith)
        | inr good ↦ elim (Bool-cases server.update_pending) [
          | inl pending ↦ rw (open_bridge, lock_bridge_open, good, pending) (refl, omega arith)
          | inr free ↦ elim (Option-cases dialled) [
            | inl failed ↦
                rw (open_bridge, lock_bridge_open, good, free, failed) (free, omega arith)
            | inr (connection, e) ↦
                let kept = opened_bridge-SameGate request connection socket sent items server in
                rw (open_bridge, lock_bridge_open, good, free, e) (kept.0 ∙ free, kept.1)
          ]
        ]
      ]

  Act-SameGate :
      (items : Bridges) (server : Server) (after : Bridges × Server)
      → Act format items server after
      → SameGate server after.1
  unfolding close_if_present
  Act-SameGate items server after (opens request dialled socket sent) =
      open_bridge-SameGate request dialled socket sent items server
  Act-SameGate items server after (writes id bytes written) =
      write_bridge-SameGate id bytes written items server
  Act-SameGate items server after (closes id) =
      close_any-SameGate (take id items server) server (take-SameGate id items server)
  Act-SameGate items server after (binds id carrier mode) = (refl, omega arith)
  Act-SameGate items server after (binds_datagrams id) = (refl, omega arith)

  Act-IsCounted :
      (others : ℕ) (items : Bridges) (server : Server) (after : Bridges × Server)
      → IsNumbering format
      → IsCounted format others items server
      → Act format items server after
      → IsCounted format others after.0 after.1
  Act-IsCounted others items server after numbering h (opens request dialled socket sent) =
      open_bridge-IsCounted format others request dialled socket sent items server numbering h
  Act-IsCounted others items server after numbering h (writes id bytes written) =
      write_bridge-IsCounted format others id bytes written items server h
  Act-IsCounted others items server after numbering h (closes id) =
      close_if_present-IsCounted format others id items server h
  Act-IsCounted others items server after numbering h (binds id carrier mode) =
      bind-IsCounted format others id carrier mode items server h
  Act-IsCounted others items server after numbering h (binds_datagrams id) =
      bind_datagrams-IsCounted format others id items server h

  begin-active :
      (force : Bool) (server : Server)
      → ((try_begin_update force server).1.active ≡ server.active)
        × ((try_begin_update force server).1.counter ≡ server.counter)
  unfolding try_begin_update
  begin-active force server = ground arith

  Work-IsSound :
      {s t : System} → IsNumbering format → Work format s t → IsSound format s → IsSound format t
  unfolding close_all
  Work-IsSound numbering (connects sets server) h = ((h.0 ∙ ap pos (omega arith)), ((_, _), h.1))
  Work-IsSound numbering (acts before after items server result act) h =
      let parts = split (AreNamed format server.counter) before after items h.1 in
      let others = total (before ++ after) in
      let kept =
        Act-IsCounted others items server result numbering
          (h.0 ∙ ap pos (total-around before after items), parts.0.0, parts.0.1) act in
      (
        kept.0 ∙ ap pos (sym (total-around before after result.0)),
        join (AreNamed format result.1.counter) before after result.0 (kept.1, kept.2)
            (later-sets format (before ++ after) server.counter result.1.counter
              (Act-SameGate items server result act).1 parts.1),
      )
  Work-IsSound numbering (ends before after items server) h =
      let parts = split (AreNamed format server.counter) before after items h.1 in
      let left =
        close_all-IsCounted format (total (before ++ after)) items server
          (h.0 ∙ ap pos (total-around before after items), parts.0.0, parts.0.1) in
      (left.0, parts.1)
  Work-IsSound numbering (begins sets server force) h =
      let same = begin-active force server in
      (same.0 ∙ h.0, subst (λ n. All (AreNamed format n) sets) (sym same.1) h.1)

  Step-IsSound :
      {s t : System} → IsNumbering format → Step format s t → IsSound format s → IsSound format t
  unfolding cancel_update
  Step-IsSound numbering (works w) h = Work-IsSound numbering w h
  Step-IsSound numbering (cancels s) h = h

  -- In every state that the sockets and the update gate reach from a sound one, the counter of active
  -- bridges is the number of bridges of all sockets, and the ids of each socket's bridges are distinct
  -- and made from numbers that the counter of ids has passed.
  pub Reach-IsSound :
      {s t : System} → IsNumbering format → Reach format s t → IsSound format s → IsSound format t
  Reach-IsSound numbering here h = h
  Reach-IsSound numbering (next r step) h =
      Step-IsSound numbering step (Reach-IsSound numbering r h)

  -- An update is pending, and no bridge is open.
  abbrev pub IsQuiet : System → Type 0
  IsQuiet s = (s.server.update_pending ≡ true) × (total s.sets ≡ 0)

  open_bridge-refused :
      (request : NetRequest) (dialled : Option ℕ) (socket : ℕ) (sent : Bool) (items : Bridges)
      (server : Server)
      → server.update_pending ≡ true
      → (open_bridge format request dialled socket sent items server).0 ≡ items
  unfolding open_bridge lock_bridge_open
  open_bridge-refused request dialled socket sent items server pending =
      elim (Bool-cases (is_invalid_open request)) [
        | inl bad ↦ rw (open_bridge, bad) refl
        | inr good ↦ rw (open_bridge, lock_bridge_open, good, pending) refl
      ]

  Act-quiet :
      (server : Server) (after : Bridges × Server)
      → server.update_pending ≡ true
      → Act format [] server after
      → length after.0 ≡ 0
  unfolding write_bridge get find_bridge close_if_present take close_any drop_bridge bind
      bind_datagrams
  Act-quiet server after pending (opens request dialled socket sent) =
      ap length (open_bridge-refused request dialled socket sent [] server pending)
  Act-quiet server after pending (writes id bytes written) = refl
  Act-quiet server after pending (closes id) = refl
  Act-quiet server after pending (binds id carrier mode) = refl
  Act-quiet server after pending (binds_datagrams id) = refl

  begin-pending :
      (force : Bool) (server : Server)
      → server.update_pending ≡ true
      → (try_begin_update force server).1.update_pending ≡ true
  unfolding try_begin_update
  begin-pending force server h = ground (arith, h)

  empty_of_length : (items : Bridges) → length items ≡ 0 → items ≡ []
  empty_of_length [] h = refl
  empty_of_length (b ∷ items) h = absurd (omega (arith, h))

  Work-IsQuiet : {s t : System} → Work format s t → IsQuiet s → IsQuiet t
  unfolding close_all
  Work-IsQuiet (connects sets server) h = (h.0, omega (arith, h.1))
  Work-IsQuiet (acts before after items server result act) h =
      let none = total-around before after items in
      let empty = empty_of_length items (omega (arith, h.1, none)) in
      let moved = subst (λ l. Act format l server result) empty act in
      (
        (Act-SameGate [] server result moved).0 ∙ h.0,
        omega (
          arith,
          h.1,
          none,
          total-around before after result.0,
          Act-quiet server result h.0 moved,
        ),
      )
  Work-IsQuiet (ends before after items server) h =
      (h.0, omega (arith, h.1, total-around before after items))
  Work-IsQuiet (begins sets server force) h = (begin-pending force server h.0, h.1)

  Works-IsQuiet : {s t : System} → Works format s t → IsQuiet s → IsQuiet t
  Works-IsQuiet done h = h
  Works-IsQuiet (more w work) h = Work-IsQuiet work (Works-IsQuiet w h)

  begin-IsQuiet :
      (server : Server) (n : ℕ)
      → server.active ≡ pos n
      → (try_begin_update false server).0 ≡ true
      → ((try_begin_update false server).1.update_pending ≡ true) × (n ≡ 0)
  unfolding try_begin_update
  begin-IsQuiet server n count h = ground (arith, count, h)

  -- If an update that waits for idle bridges begins in a state reached from a sound one, then no socket
  -- has an open bridge, and none gets one before the update is cancelled, whatever frames arrive.
  pub begin_update-quiet :
      (s t u : System)
      → IsNumbering format
      → IsSound format s
      → Reach format s t
      → (try_begin_update false t.server).0 ≡ true
      → Works format (record { sets = t.sets; server = (try_begin_update false t.server).1 }) u
      → (u.server.update_pending ≡ true) × (total u.sets ≡ 0)
  begin_update-quiet s t u numbering sound reach begun run =
      let count = (Reach-IsSound numbering reach sound).0 in
      let quiet = begin-IsQuiet t.server (total t.sets) count begun in
      Works-IsQuiet run (quiet.0, quiet.1)
