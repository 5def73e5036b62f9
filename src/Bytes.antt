-- ===== src/Bytes.antt =====
-- Byte slices as lists of numbers, and the big-endian numbers of encoding/binary.
use dynapp_agent.Prelude.{
  ℕ, zero, suc, ◌+◌, ◌-◌, ◌*◌, ◌/◌, ◌%◌, ◌^◌, ◌≤◌, ◌<◌, ◌≡◌, refl, List, [], ◌∷◌, ◌++◌, length,
  arith, Bool, true, false, ◌&&◌, nat_eq, ap,
}

-- A Go []byte; every element is below 256 where the source says so.
abbrev pub Bytes : Type 0
Bytes = List ℕ

module _ {ℓ} {A : Type ℓ} where
  abbrev pub take : ℕ → List A → List A
  take zero xs = []
  take (suc n) [] = []
  take (suc n) (x ∷ xs) = x ∷ take n xs

  abbrev pub drop : ℕ → List A → List A
  drop zero xs = xs
  drop (suc n) [] = []
  drop (suc n) (x ∷ xs) = drop n xs

  pub take-append : (xs ys : List A) → take (length xs) (xs ++ ys) ≡ xs
  take-append [] ys = refl
  take-append (x ∷ xs) ys = ap (λ l. x ∷ l) (take-append xs ys)

  pub drop-append : (xs ys : List A) → drop (length xs) (xs ++ ys) ≡ ys
  drop-append [] ys = refl
  drop-append (x ∷ xs) ys = drop-append xs ys

  pub take-drop : (n : ℕ) (xs : List A) → take n xs ++ drop n xs ≡ xs
  take-drop zero xs = refl
  take-drop (suc n) [] = refl
  take-drop (suc n) (x ∷ xs) = ap (λ l. x ∷ l) (take-drop n xs)

  pub length-take-le : (n : ℕ) (xs : List A) → length (take n xs) ≤ n
  length-take-le zero xs = omega arith
  length-take-le (suc n) [] = omega arith
  length-take-le (suc n) (x ∷ xs) = omega (arith, length-take-le n xs)

  pub length-take : (n : ℕ) (xs : List A) → n ≤ length xs → length (take n xs) ≡ n
  length-take zero xs h = refl
  length-take (suc n) [] h = absurd (omega arith)
  length-take (suc n) (x ∷ xs) h = omega (arith, length-take n xs (omega arith))

  pub length-drop : (n : ℕ) (xs : List A) → length (drop n xs) ≡ length xs - n
  length-drop zero xs = omega arith
  length-drop (suc n) [] = omega arith
  length-drop (suc n) (x ∷ xs) = omega (arith, length-drop n xs)

  pub take-all : (n : ℕ) (xs : List A) → length xs ≤ n → take n xs ≡ xs
  take-all zero [] h = refl
  take-all zero (x ∷ xs) h = absurd (omega arith)
  take-all (suc n) [] h = refl
  take-all (suc n) (x ∷ xs) h = ap (λ l. x ∷ l) (take-all n xs (omega arith))

  pub drop-all : (n : ℕ) (xs : List A) → length xs ≤ n → drop n xs ≡ []
  drop-all zero [] h = refl
  drop-all zero (x ∷ xs) h = absurd (omega arith)
  drop-all (suc n) [] h = refl
  drop-all (suc n) (x ∷ xs) h = drop-all n xs (omega arith)

-- The byte at an index. The source checks the length before it reads.
abbrev pub at : ℕ → Bytes → ℕ
at k [] = 0
at zero (b ∷ bs) = b
at (suc k) (b ∷ bs) = at k bs

-- Equality of two byte strings.
abbrev pub same_bytes : Bytes → Bytes → Bool
same_bytes [] [] = true
same_bytes (a ∷ l) (b ∷ bs) = nat_eq a b && same_bytes l bs
same_bytes _ _ = false

pub same_bytes_refl : (bs : Bytes) → same_bytes bs bs ≡ true
same_bytes_refl [] = refl
same_bytes_refl (b ∷ bs) = ground (arith, same_bytes_refl bs)

pub same_bytes-eq : (l bs : Bytes) → same_bytes l bs ≡ true → l ≡ bs
same_bytes-eq [] [] h = refl
same_bytes-eq [] (b ∷ bs) h = absurd (ground (arith, h))
same_bytes-eq (a ∷ l) [] h = absurd (ground (arith, h))
same_bytes-eq (a ∷ l) (b ∷ bs) h = ground (arith, h, same_bytes-eq l bs)

-- binary.BigEndian: what PutUint16 and PutUint32 write of a number, after its conversion.
abbrev pub be16 : ℕ → Bytes
be16 n = n / 2 ^ 8 % 2 ^ 8 ∷ n % 2 ^ 8 ∷ []

abbrev pub be32 : ℕ → Bytes
be32 n = n / 2 ^ 24 % 2 ^ 8 ∷ n / 2 ^ 16 % 2 ^ 8 ∷ n / 2 ^ 8 % 2 ^ 8 ∷ n % 2 ^ 8 ∷ []

-- binary.BigEndian: the number that two and four bytes give, at an index.
abbrev pub be16_at : ℕ → Bytes → ℕ
be16_at k bs = at k bs * 2 ^ 8 + at (k + 1) bs

abbrev pub be32_at : ℕ → Bytes → ℕ
be32_at k bs = at k bs * 2 ^ 24 + at (k + 1) bs * 2 ^ 16 + at (k + 2) bs * 2 ^ 8 + at (k + 3) bs

pub be16_at-be16 : (n : ℕ) → n < 2 ^ 16 → be16_at 0 (be16 n) ≡ n
be16_at-be16 n h = omega arith

pub be32_at-be32 : (n : ℕ) → n < 2 ^ 32 → be32_at 0 (be32 n) ≡ n
be32_at-be32 n h = omega arith
