-- ===== src/Examples/Traffic.antt =====
-- The theorems on frames, bridges, updates, sessions and menus, applied to small states.
use dynapp_agent.Prelude.{
  ℕ, zero, suc, String, true, false, [], ◌∷◌, ◌++◌, ◌+◌, ◌*◌, ◌==◌, eq_iff, ◌≡◌, refl, ap, some,
  arith, Bool-cases, inl, inr,
}
use dynapp_agent.Types.Numbers.{pos, Time}
use dynapp_agent.Bytes.{Bytes}
use dynapp_agent.Datagrams.{encode_datagrams}
use dynapp_agent.Datagrams.Assembly.{receive_all, find_assembly}
use dynapp_agent.Datagrams.Whole.{stamp, receive_all-encode_datagrams}
use dynapp_agent.Bridges.{Bridges, Server, NetRequest, open_bridge, try_begin_update}
use dynapp_agent.Bridges.Counted.{IsNumbering}
use dynapp_agent.Bridges.Updates.{
  System, opens, connects, acts, works, Reach, here, next, done, more, IsSound, Reach-IsSound,
  begin_update-quiet, total,
}

-- "1" as often as the number says.
abbrev ticks : String → ℕ → String
ticks protocol zero = ""
ticks protocol (suc n) = String.◌∷◌ "1" (ticks protocol n)

abbrev count : String → ℕ
count String.[] = 0
count (String.◌∷◌ c s) = suc (count s)

count-ticks : (p : String) (n : ℕ) → count (ticks p n) ≡ n
count-ticks p zero = refl
count-ticks p (suc n) = omega (arith, count-ticks p n)

ticks-IsNumbering : IsNumbering ticks
ticks-IsNumbering p q m n l = elim (Bool-cases (ticks p m == ticks q n)) [
  | inr e ↦ e
  | inl e ↦ absurd (
      omega (
        arith,
        l,
        count-ticks p m,
        count-ticks q n,
        ap count ((eq_iff (ticks p m) (ticks q n)).0 e),
      ))
]

abbrev idle_server : Server
idle_server = record { active = pos 0; update_pending = false; counter = 0; events = [] }

-- A packet of as many zeros as the number says.
abbrev zeros : ℕ → Bytes
zeros zero = []
zeros (suc n) = 0 ∷ zeros n

-- A clock that a second passes by between two frames.
abbrev clock : ℕ → Time
clock k = 5 + k * 1_000_000_000

receive_all-encode_datagrams_example :
    (receive_all [] (stamp clock 0 (encode_datagrams (117 ∷ 100 ∷ 112 ∷ []) 7 (zeros 1500)))).0
    ≡ (117 ∷ 100 ∷ 112 ∷ [], zeros 1500) ∷ []
unfolding find_assembly
receive_all-encode_datagrams_example =
    receive_all-encode_datagrams clock (117 ∷ 100 ∷ 112 ∷ []) 7 (zeros 1500) [] (λ k. omega arith)
      (omega arith) (omega arith) (omega arith) (omega arith) refl

-- A connection that a tcp frame opens on the one socket of the agent.
abbrev tcp_request : NetRequest
tcp_request = record {
  id = "7";
  protocol = "tcp";
  host = "db";
  port = pos 5432;
  local_port = pos 0;
}

abbrev start : System
start = record { sets = []; server = idle_server }

abbrev opened_server : Bridges × Server
opened_server = open_bridge ticks tcp_request (some 4) 1 true [] idle_server

abbrev one_bridge : System
one_bridge = record { sets = [] ++ opened_server.0 ∷ []; server = opened_server.1 }

opening : Reach ticks start one_bridge
opening =
    next (next here (works (connects [] idle_server)))
      (works (acts [] [] [] idle_server opened_server (opens tcp_request (some 4) 1 true)))

Reach-IsSound_example : IsSound ticks one_bridge
Reach-IsSound_example =
    Reach-IsSound ticks {s = start} {t = one_bridge} ticks-IsNumbering opening (refl, tt)

abbrev connected : System
connected = record { sets = [] ∷ []; server = idle_server }

abbrev begun : System
begun = record { sets = [] ∷ []; server = (try_begin_update false idle_server).1 }

abbrev refused_bridge : Bridges × Server
refused_bridge = open_bridge ticks tcp_request (some 4) 1 true [] begun.server

abbrev still_quiet : System
still_quiet = record { sets = [] ++ refused_bridge.0 ∷ []; server = refused_bridge.1 }

begin_update-quiet_example :
    (still_quiet.server.update_pending ≡ true) × (total still_quiet.sets ≡ 0)
unfolding try_begin_update
begin_update-quiet_example =
    begin_update-quiet ticks start connected still_quiet ticks-IsNumbering (refl, tt)
      (next here (works (connects [] idle_server))) refl
      (more done (acts [] [] [] begun.server refused_bridge (opens tcp_request (some 4) 1 true)))
