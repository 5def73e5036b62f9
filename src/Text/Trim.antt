-- ===== src/Text/Trim.antt =====
-- strings.TrimSpace: the white space of Go's unicode.IsSpace is cut from both ends.
use dynapp_agent.Prelude.{
  ℕ, String, Char, code, ◌≡◌, refl, Bool, false, ◌&&◌, ◌||◌, leb, nat_eq, if◌then◌else◌, arith, inl,
  inr, Bool-cases,
}

-- unicode.IsSpace
pub is_space : ℕ → Bool
is_space c =
    (leb 9 c && leb c 13)
    || nat_eq c 32
    || nat_eq c 0x85
    || nat_eq c 0xA0
    || nat_eq c 0x1680
    || (leb 0x2000 c && leb c 0x200A)
    || nat_eq c 0x2028
    || nat_eq c 0x2029
    || nat_eq c 0x202F
    || nat_eq c 0x205F
    || nat_eq c 0x3000

pub trim_left : String → String
trim_left String.[] = String.[]
trim_left (String.◌∷◌ c s) = if is_space (code c) then trim_left s else String.◌∷◌ c s

-- A character in front of a trimmed tail: white space before nothing goes too.
pub trim_cons : Char → String → String
trim_cons c String.[] = if is_space (code c) then String.[] else String.◌∷◌ c String.[]
trim_cons c (String.◌∷◌ d s) = String.◌∷◌ c (String.◌∷◌ d s)

pub trim_right : String → String
trim_right String.[] = String.[]
trim_right (String.◌∷◌ c s) = trim_cons c (trim_right s)

unfoldable pub trim_space : String → String
unfolding trim_left trim_right trim_cons is_space
trim_space s = trim_right (trim_left s)

trims : trim_space " net.tcp " ≡ "net.tcp"
unfolding trim_space
trims = refl

trim_right-trim_cons :
    (c : Char) (s : String) → trim_right s ≡ s → trim_right (trim_cons c s) ≡ trim_cons c s
unfolding trim_right trim_cons
trim_right-trim_cons c String.[] h = elim (Bool-cases (is_space (code c))) [
  | inl e ↦ simp e
  | inr e ↦ simp e
]
trim_right-trim_cons c (String.◌∷◌ d s) h = rw (h, trim_cons)

trim_right_idem : (s : String) → trim_right (trim_right s) ≡ trim_right s
unfolding trim_right
trim_right_idem String.[] = refl
trim_right_idem (String.◌∷◌ c s) = trim_right-trim_cons c (trim_right s) (trim_right_idem s)

-- The text does not begin with white space.
abbrev Leads : String → Type 0
Leads String.[] = Unit
Leads (String.◌∷◌ c s) = is_space (code c) ≡ false

trim_left-Leads : (s : String) → Leads (trim_left s)
unfolding trim_left
trim_left-Leads String.[] = tt
trim_left-Leads (String.◌∷◌ c s) = ground (arith, trim_left-Leads s)

trim_cons-Leads : (c : Char) (s : String) → is_space (code c) ≡ false → Leads (trim_cons c s)
unfolding trim_cons
trim_cons-Leads c String.[] h = rw h h
trim_cons-Leads c (String.◌∷◌ d s) h = h

trim_right-Leads : (s : String) → Leads s → Leads (trim_right s)
unfolding trim_right
trim_right-Leads String.[] h = tt
trim_right-Leads (String.◌∷◌ c s) h = trim_cons-Leads c (trim_right s) h

trim_left_of_Leads : (s : String) → Leads s → trim_left s ≡ s
unfolding trim_left
trim_left_of_Leads String.[] h = refl
trim_left_of_Leads (String.◌∷◌ c s) h = rw h

-- Trimming twice is trimming once.
pub trim_space_idem : (s : String) → trim_space (trim_space s) ≡ trim_space s
unfolding trim_space
trim_space_idem s =
    rw
      (trim_left_of_Leads (trim_right (trim_left s))
        (trim_right-Leads (trim_left s) (trim_left-Leads s)))
      (trim_right_idem (trim_left s))
