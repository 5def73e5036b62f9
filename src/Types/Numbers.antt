-- ===== src/Types/Numbers.antt =====
-- Go's int64 values, and times as nanoseconds.
use dynapp_agent.Prelude.{
  ℕ, suc, ◌+◌, ◌-◌, ◌*◌, ◌/◌, ◌%◌, ◌^◌, Bool, ltb, leb, if◌then◌else◌, ◌≡◌, refl,
}

-- `negsuc n` is -(n + 1).
pub data ℤ : Type 0 where
  pos : ℕ → ℤ
  negsuc : ℕ → ℤ

abbrev pub pos_part : ℤ → ℕ
pos_part (pos n) = n
pos_part (negsuc n) = 0

abbrev pub neg_part : ℤ → ℕ
neg_part (pos n) = 0
neg_part (negsuc n) = suc n

-- a < b
abbrev pub ltb_ℤ : ℤ → ℤ → Bool
ltb_ℤ a b = ltb (pos_part a + neg_part b) (pos_part b + neg_part a)

abbrev pub is_zero : ℤ → Bool
is_zero a = leb (pos_part a + neg_part a) 0

-- The residue of a number modulo 2 ^ 64, read as an int64.
signed_of : ℕ → ℤ
signed_of r = if ltb r (2 ^ 63) then pos r else negsuc (2 ^ 64 - 1 - r)

-- The product of a number by a positive factor, wrapped to an int64.
unfoldable pub wrap_mul : ℤ → ℕ → ℤ
unfolding signed_of
wrap_mul (pos n) k = signed_of (n * k % 2 ^ 64)
wrap_mul (negsuc n) k = signed_of ((2 ^ 64 - suc n * k % 2 ^ 64) % 2 ^ 64)

-- time.Time is the count of nanoseconds since year 1; a Duration is an int64. A negative duration
-- larger than the time itself does not occur.
abbrev pub Time : Type 0
Time = ℕ

unfoldable pub add_duration : Time → ℤ → Time
add_duration t (pos n) = t + n
add_duration t (negsuc n) = t - suc n

-- Time.UnixMilli
unfoldable pub unix_milli : Time → ℤ
unix_milli t =
    let ms = t / 1_000_000 in
    let epoch : ℕ = 62_135_596_800_000 in
    if leb epoch ms then pos (ms - epoch) else negsuc (epoch - ms - 1)

wraps : wrap_mul (pos 10_000_000_000_000) 1_000_000 ≡ negsuc 8_446_744_073_709_551_615
unfolding wrap_mul
wraps = refl
