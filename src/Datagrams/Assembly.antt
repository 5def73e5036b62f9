-- ===== src/Datagrams/Assembly.antt =====
-- The reassembly of fragmented datagrams: decodeCompleteBridgeDatagram of
-- shellagent/network_bridge.go.
use dynapp_agent.Prelude.{
  ℕ, zero, suc, ◌+◌, ◌-◌, Bool, ◌&&◌, List, [], ◌∷◌, ◌++◌, if◌then◌else◌, not, Option, none, some,
  nat_eq, leb, ltb, length, keep_if,
}
use dynapp_agent.Types.Numbers.{Time}
use dynapp_agent.Bytes.{Bytes, same_bytes}
use dynapp_agent.Datagrams.{Fragment, decode_fragment, max_pending}

-- Two seconds, in nanoseconds.
abbrev pub assembly_ttl : ℕ
assembly_ttl = 2_000_000_000

-- bridgeDatagramAssembly. A fragment that has not come, and one with no bytes, is nil: [].
pub record Assembly : Type 0 where
  pub fragments : List Bytes
  pub updated_at : Time

-- The map `pending`. A key is a bridge id and a message number.
abbrev pub Pending : Type 0
Pending = List ((Bytes × ℕ) × Assembly)

abbrev pub has_name : Bytes → ℕ → (Bytes × ℕ) × Assembly → Bool
has_name id message_id ((i, m), assembly) = same_bytes i id && nat_eq m message_id

unfoldable pub find_assembly : Bytes → ℕ → Pending → Option Assembly
find_assembly id message_id [] = none
find_assembly id message_id (entry ∷ pending) =
    if has_name id message_id entry then some entry.1 else find_assembly id message_id pending

unfoldable pub drop_assembly : Bytes → ℕ → Pending → Pending
drop_assembly id message_id pending = keep_if (λ entry. not (has_name id message_id entry)) pending

unfoldable pub is_fresh : Time → (Bytes × ℕ) × Assembly → Bool
is_fresh now entry = leb (now - entry.1.updated_at) assembly_ttl

unfoldable pub sweep_assemblies : Time → Pending → Pending
unfolding is_fresh
sweep_assemblies now pending = keep_if (is_fresh now) pending

-- The search for the oldest entry, in the order in which the map is walked.
oldest : (Bytes × ℕ) × Assembly → Pending → Bytes × ℕ
oldest best [] = best.0
oldest best (entry ∷ pending) =
    let other = oldest entry pending in
    let same = oldest best pending in
    if ltb entry.1.updated_at best.1.updated_at then other else same

-- Room is made for a new entry.
unfoldable pub evict : Pending → Pending
unfolding oldest drop_assembly
evict [] = []
evict (entry ∷ pending) =
    let (id, message_id) = oldest entry pending in
    if leb max_pending (length (entry ∷ pending))
    then drop_assembly id message_id (entry ∷ pending)
    else entry ∷ pending

unfoldable pub absent : ℕ → List Bytes
absent zero = []
absent (suc n) = [] ∷ absent n

unfoldable pub set_at : ℕ → Bytes → List Bytes → List Bytes
set_at k part [] = []
set_at zero part (x ∷ parts) = part ∷ parts
set_at (suc k) part (x ∷ parts) = x ∷ set_at k part parts

pub data Verdict : Type 0 where
  waiting too_long : Verdict
  complete : Verdict

-- The loop over the fragments, with the total so far.
unfoldable pub judge : ℕ → List Bytes → Verdict
judge total [] = complete
judge total ([] ∷ parts) = waiting
judge total ((b ∷ part) ∷ parts) =
    let rest = judge (total + length (b ∷ part)) parts in
    if ltb 65535 (total + length (b ∷ part)) then too_long else rest

unfoldable pub join : List Bytes → Bytes
join [] = []
join (part ∷ parts) = part ++ join parts

-- The assembly that a fragment belongs to, and the entries that stay beside it.
unfoldable pub start_assembly : Fragment → Pending → List Bytes × Pending
unfolding find_assembly evict absent
start_assembly fragment pending =
    elim (find_assembly fragment.bridge_id fragment.message_id pending) [
      | none ↦ (absent fragment.count, evict pending)
      | some assembly ↦ (
        if nat_eq (length assembly.fragments) fragment.count
            then assembly.fragments
            else absent fragment.count,
        pending,
      )
    ]

unfoldable pub settle : Fragment → List Bytes → Pending → Pending → Option (Bytes × Bytes) × Pending
unfolding judge join
settle fragment parts kept without = elim (judge 0 parts) [
  | waiting ↦ (none, kept)
  | too_long ↦ (none, without)
  | complete ↦ (some (fragment.bridge_id, join parts), without)
]

unfoldable pub add_fragment : Time → Fragment → Pending → Option (Bytes × Bytes) × Pending
unfolding start_assembly sweep_assemblies settle set_at drop_assembly
add_fragment now fragment pending =
    let (old, others) = start_assembly fragment (sweep_assemblies now pending) in
    let parts = set_at fragment.index fragment.body old in
    let without = drop_assembly fragment.bridge_id fragment.message_id others in
    let entry : (Bytes × ℕ) × Assembly =
      ((fragment.bridge_id, fragment.message_id), record { fragments = parts; updated_at = now }) in
    settle fragment parts (entry ∷ without) without

-- decodeCompleteBridgeDatagram: the datagram that is complete with this frame, if one is.
unfoldable pub decode_complete : Time → Pending → Bytes → Option (Bytes × Bytes) × Pending
unfolding add_fragment
decode_complete now pending frame = elim (decode_fragment frame) [
  | none ↦ (none, pending)
  | some fragment ↦
      let added = add_fragment now fragment pending in
      if nat_eq fragment.count 1 then (some (fragment.bridge_id, fragment.body), pending) else added
]

-- The datagrams that a sequence of frames completes, each frame with the time of its arrival.
unfoldable pub receive_all : Pending → List (Time × Bytes) → List (Bytes × Bytes) × Pending
unfolding decode_complete
receive_all pending [] = ([], pending)
receive_all pending ((now, frame) ∷ frames) =
    let (delivered, next) = decode_complete now pending frame in
    let (others, last) = receive_all next frames in
    (elim delivered [ none ↦ others | some datagram ↦ datagram ∷ others ], last)
