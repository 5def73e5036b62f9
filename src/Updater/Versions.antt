-- ===== src/Updater/Versions.antt =====
-- newerRelease of shellagent/updater.go is the order of version numbers.
use dynapp_agent.Prelude.{
  ℕ, String, true, false, some, ◌≡◌, sym, subst, ◌∙◌, arith, Option-cases, inl, inr, ◌↔◌, ◌⊎◌, ◌<◌,
}
use dynapp_agent.Updater.{release_parts, parse_release, is_greater, newer_release}

is_greater-asym : (a b : ℕ × ℕ × ℕ) → is_greater a b ≡ true → is_greater b a ≡ false
unfolding is_greater
is_greater-asym (a, b, c) (x, y, z) h = ground (arith, h)

is_greater_chain :
    (a b c : ℕ × ℕ × ℕ) → is_greater a b ≡ true → is_greater b c ≡ true → is_greater a c ≡ true
unfolding is_greater
is_greater_chain (a, b, c) (x, y, z) (p, q, r) h k = ground (arith, h, k)

-- A release that is newer has parts, and so has the one it is newer than.
newer-parts :
    (latest current : String)
    → newer_release latest current ≡ true
    → (left right : String × String × String) × (release_parts latest ≡ some left)
      × (release_parts current ≡ some right)
      × (is_greater (parse_release left) (parse_release right) ≡ true)
unfolding newer_release
newer-parts latest current h = elim (Option-cases (release_parts latest)) [
  | inl e ↦ absurd (ground (arith, h, e))
  | inr (left, e) ↦ elim (Option-cases (release_parts current)) [
    | inl f ↦ absurd (ground (arith, h, e, f))
    | inr (right, f) ↦ (left, right, e, f, ground (arith, h, e, f))
  ]
]

newer-of-parts :
    (latest current : String) (left right : String × String × String)
    → release_parts latest ≡ some left
    → release_parts current ≡ some right
    → newer_release latest current ≡ is_greater (parse_release left) (parse_release right)
unfolding newer_release
newer-of-parts latest current left right e f = ground (arith, e, f)

some_injective : {A : Type 0} {x y : A} → some x ≡ some y → x ≡ y
some_injective e = cc e

-- No two releases are each newer than the other; in particular none is newer than itself.
pub newer_release-asym :
    (latest current : String)
    → newer_release latest current ≡ true
    → newer_release current latest ≡ false
newer_release-asym latest current h =
    let (left, right, e, f, greater) = newer-parts latest current h in
    newer-of-parts current latest right left f e
    ∙ is_greater-asym (parse_release left) (parse_release right) greater

-- A release that is newer than one which is newer than a third is newer than the third.
pub newer_release-chain :
    (first second third : String)
    → newer_release first second ≡ true
    → newer_release second third ≡ true
    → newer_release first third ≡ true
newer_release-chain first second third h k =
    let (a, b, ea, eb, ab) = newer-parts first second h in
    let (c, d, ec, ed, cd) = newer-parts second third k in
    let same : b ≡ c = some_injective (sym eb ∙ ec) in
    newer-of-parts first third a d ea ed
    ∙ is_greater_chain (parse_release a) (parse_release b) (parse_release d) ab
        (subst (λ s. is_greater (parse_release s) (parse_release d) ≡ true) (sym same) cd)

-- The first triple exceeds the second, from left to right.
abbrev pub Exceeds : ℕ × ℕ × ℕ → ℕ × ℕ × ℕ → Type 0
Exceeds (a, b, c) (x, y, z) = (x < a) ⊎ (((a ≡ x) × (y < b)) ⊎ ((a ≡ x) × ((b ≡ y) × (z < c))))

-- Both are release names, and the numbers of the first exceed those of the second.
abbrev pub IsNewer : String → String → Type 0
IsNewer latest current =
    (left right : String × String × String) × (release_parts latest ≡ some left)
    × (release_parts current ≡ some right)
    × Exceeds (parse_release left) (parse_release right)

is_greater_iff : (a b : ℕ × ℕ × ℕ) → (is_greater a b ≡ true) ↔ Exceeds a b
unfolding is_greater
is_greater_iff (a, b, c) (x, y, z) = ground arith

-- newerRelease answers true exactly where both names are releases and the first one's numbers exceed
-- the second's: by the major number, by the minor one where the major ones are equal, or by the patch
-- where those and the minor ones are.
pub newer_release_iff :
    (latest current : String) → (newer_release latest current ≡ true) ↔ IsNewer latest current
newer_release_iff latest current = (
  λ h.
      let (left, right, e, f, greater) = newer-parts latest current h in
      (left, right, e, f, (is_greater_iff (parse_release left) (parse_release right)).0 greater),
  λ (left, right, e, f, exceeds).
      newer-of-parts latest current left right e f
      ∙ (is_greater_iff (parse_release left) (parse_release right)).1 exceeds,
)
