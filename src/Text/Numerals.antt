-- ===== src/Text/Numerals.antt =====
-- Decimal digits, as Go's strconv reads them.
use dynapp_agent.Prelude.{ℕ, ◌+◌, ◌-◌, ◌*◌, String, code, Bool, ◌&&◌, leb}

abbrev pub is_digit : ℕ → Bool
is_digit c = leb b'0' c && leb c b'9'

-- The value of a text of digits, after a value read before.
unfoldable pub digits : ℕ → String → ℕ
digits value String.[] = value
digits value (String.◌∷◌ c s) = digits (value * 10 + (code c - b'0')) s
