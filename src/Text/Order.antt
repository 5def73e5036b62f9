-- ===== src/Text/Order.antt =====
-- sort.Strings: the order of bytes, which for UTF-8 is the order of code points.
use Prim.Native.Nat.{Ordering, compare as compare_ℕ}
use Prim.Native.String.{compare}
use Prim.Native.String.compare as clause
use text.Mathlib.Text.{is_le}
use text.Mathlib.TextEquality.{Char-path}
use mathlib.Core.Path.{ap₂}
use dynapp_agent.Prelude.{
  String, ◌≡◌, refl, Bool, true, false, ◌⊎◌, inl, inr, code, arith, List, [], ◌∷◌, if◌then◌else◌,
}

abbrev pub str_le : String → String → Bool
str_le s t = is_le (compare s t)

unfoldable pub insert_sorted : String → List String → List String
insert_sorted x [] = x ∷ []
insert_sorted x (y ∷ ys) = if str_le x y then x ∷ y ∷ ys else y ∷ insert_sorted x ys

unfoldable pub sort_strings : List String → List String
unfolding insert_sorted
sort_strings [] = []
sort_strings (x ∷ xs) = insert_sorted x (sort_strings xs)

sorts : sort_strings ("net" ∷ "fs.b" ∷ "fs" ∷ []) ≡ "fs" ∷ "fs.b" ∷ "net" ∷ []
unfolding sort_strings
sorts = refl

-- The order, by clauses over the two texts.
le_codes : String → String → Bool
le_codes String.[] t = true
le_codes (String.◌∷◌ c s) String.[] = false
le_codes (String.◌∷◌ c s) (String.◌∷◌ d t) = elim (compare_ℕ (code c) (code d)) [
  | Ordering.lt ↦ true
  | Ordering.eq ↦ le_codes s t
  | Ordering.gt ↦ false
]

str_le-eq-le_codes : (s t : String) → str_le s t ≡ le_codes s t
unfolding le_codes
str_le-eq-le_codes String.[] String.[] = refl
str_le-eq-le_codes String.[] (String.◌∷◌ d t) = rw clause.nil-cons
str_le-eq-le_codes (String.◌∷◌ c s) String.[] = rw clause.cons-nil
str_le-eq-le_codes (String.◌∷◌ c s) (String.◌∷◌ d t) =
    rw clause.cons-cons (ground (arith, str_le-eq-le_codes s t))

le_codes_total : (s t : String) → (le_codes s t ≡ true) ⊎ (le_codes t s ≡ true)
unfolding le_codes
le_codes_total String.[] t = inl refl
le_codes_total (String.◌∷◌ c s) String.[] = inr refl
le_codes_total (String.◌∷◌ c s) (String.◌∷◌ d t) = ground (arith, le_codes_total s t)

le_codes_trans : (s t u : String) → le_codes s t ≡ true → le_codes t u ≡ true → le_codes s u ≡ true
unfolding le_codes
le_codes_trans String.[] t u p q = refl
le_codes_trans (String.◌∷◌ c s) (String.◌∷◌ d t) String.[] p q = q
le_codes_trans (String.◌∷◌ c s) String.[] u p q = ground arith
le_codes_trans (String.◌∷◌ c s) (String.◌∷◌ d t) (String.◌∷◌ e u) p q =
    ground (arith, le_codes_trans s t u)

le_codes_antisymm : (s t : String) → le_codes s t ≡ true → le_codes t s ≡ true → s ≡ t
unfolding le_codes
le_codes_antisymm String.[] String.[] p q = refl
le_codes_antisymm String.[] (String.◌∷◌ d t) p q = ground arith
le_codes_antisymm (String.◌∷◌ c s) String.[] p q = ground arith
le_codes_antisymm (String.◌∷◌ c s) (String.◌∷◌ d t) p q =
    let same : code c ≡ code d = ground arith in
    let rest : s ≡ t = le_codes_antisymm s t (ground arith) (ground arith) in
    ap₂ String.◌∷◌ (Char-path c d same) rest

pub str_le_total : (s t : String) → (str_le s t ≡ true) ⊎ (str_le t s ≡ true)
str_le_total s t = simp str_le-eq-le_codes (le_codes_total s t)

pub str_le_trans : (s t u : String) → str_le s t ≡ true → str_le t u ≡ true → str_le s u ≡ true
str_le_trans s t u = simp str_le-eq-le_codes (le_codes_trans s t u)

pub str_le_antisymm : (s t : String) → str_le s t ≡ true → str_le t s ≡ true → s ≡ t
str_le_antisymm s t = simp str_le-eq-le_codes (le_codes_antisymm s t)
