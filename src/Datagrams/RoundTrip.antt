-- ===== src/Datagrams/RoundTrip.antt =====
-- The parts of a datagram that have come so far, and the map that holds them.
use dynapp_agent.Prelude.{
  ℕ, zero, suc, ◌+◌, ◌-◌, ◌≤◌, ◌<◌, true, ◌≡◌, refl, List, [], ◌∷◌, ◌++◌, none, some, length,
  length-append, arith, Bool-cases, inl, inr, sym, ap, ◌∙◌, All, append-nil, append_assoc,
}
use dynapp_agent.Types.Numbers.{Time}
use dynapp_agent.Bytes.{Bytes, same_bytes_refl}
use dynapp_agent.Datagrams.Assembly.{
  Assembly, Pending, waiting, complete, has_name, find_assembly, is_fresh, sweep_assemblies, absent,
  set_at, judge, join,
}

-- The parts so far, followed by the ones that have not come.
unfoldable pub partial : List Bytes → ℕ → List Bytes
partial parts left = parts ++ absent left

length-absent : (n : ℕ) → length (absent n) ≡ n
unfolding absent
length-absent zero = refl
length-absent (suc n) = omega (arith, length-absent n)

pub length-partial :
    (parts : List Bytes) (left : ℕ) → length (partial parts left) ≡ length parts + left
unfolding partial
length-partial parts left = omega (arith, length-append parts (absent left), length-absent left)

pub set_at-partial :
    (parts : List Bytes) (left : ℕ) (part : Bytes)
    → set_at (length parts) part (partial parts (suc left)) ≡ partial (parts ++ part ∷ []) left
unfolding set_at partial absent
set_at-partial [] left part = refl
set_at-partial (x ∷ parts) left part = ap (λ l. x ∷ l) (set_at-partial parts left part)

-- Every part has a byte.
abbrev pub AllFilled : List Bytes → Type 0
AllFilled parts = All (λ part. 0 < length part) parts

pub AllFilled-append_one :
    (parts : List Bytes) (part : Bytes)
    → AllFilled parts
    → 0 < length part
    → AllFilled (parts ++ part ∷ [])
AllFilled-append_one [] part a h = (h, tt)
AllFilled-append_one (x ∷ parts) part a h = (a.0, AllFilled-append_one parts part a.1 h)

pub join-append_one :
    (parts : List Bytes) (part : Bytes) → join (parts ++ part ∷ []) ≡ join parts ++ part
unfolding join
join-append_one [] part = append-nil part
join-append_one (x ∷ parts) part =
    ap (λ l. x ++ l) (join-append_one parts part) ∙ sym (append_assoc x (join parts) part)

pub judge-partial :
    (parts : List Bytes) (total left : ℕ)
    → AllFilled parts
    → total + length (join parts) ≤ 65535
    → judge total (partial parts (suc left)) ≡ waiting
unfolding judge partial absent join
judge-partial [] total left a h = refl
judge-partial ([] ∷ parts) total left a h = absurd (omega (arith, a.0))
judge-partial ((b ∷ part) ∷ parts) total left a h = ground (
  arith,
  length-append (b ∷ part) (join parts),
  judge-partial parts (total + length (b ∷ part)) left a.1,
)

pub judge-full :
    (parts : List Bytes) (total : ℕ)
    → AllFilled parts
    → total + length (join parts) ≤ 65535
    → judge total (partial parts 0) ≡ complete
unfolding judge partial absent join
judge-full [] total a h = refl
judge-full ([] ∷ parts) total a h = absurd (omega (arith, a.0))
judge-full ((b ∷ part) ∷ parts) total a h =
    ground (
      arith,
      length-append (b ∷ part) (join parts),
      judge-full parts (total + length (b ∷ part)) a.1,
    )

pub partial-zero : (parts : List Bytes) → partial parts 0 ≡ parts
unfolding partial absent
partial-zero parts = append-nil parts

has_name_refl :
    (id : Bytes) (m : ℕ) (assembly : Assembly) → has_name id m ((id, m), assembly) ≡ true
has_name_refl id m assembly = ground (arith, same_bytes_refl id)

-- The first entry under a name is found, and stays fresh for two seconds after its last update.
pub find-head :
    (id : Bytes) (m : ℕ) (assembly : Assembly) (rest : Pending)
    → find_assembly id m (((id, m), assembly) ∷ rest) ≡ some assembly
unfolding find_assembly
find-head id m assembly rest = rw (has_name_refl id m assembly) refl

pub sweep-head :
    (now before : Time) (key : Bytes × ℕ) (parts : List Bytes) (rest : Pending)
    → now - before ≤ 2_000_000_000
    → sweep_assemblies now ((key, record { fragments = parts; updated_at = before }) ∷ rest)
      ≡ (key, record { fragments = parts; updated_at = before }) ∷ sweep_assemblies now rest
unfolding sweep_assemblies is_fresh
sweep-head now before key parts rest h = ground (arith, h)

pub find-sweep_none :
    (now : Time) (id : Bytes) (m : ℕ) (pending : Pending)
    → find_assembly id m pending ≡ none
    → find_assembly id m (sweep_assemblies now pending) ≡ none
unfolding find_assembly sweep_assemblies
find-sweep_none now id m [] h = refl
find-sweep_none now id m (entry ∷ pending) h = elim (Bool-cases (has_name id m entry)) [
  | inl e ↦ absurd (ground (arith, e, h))
  | inr e ↦ ground (arith, e, find-sweep_none now id m pending (rw e at h))
]
