-- ===== src/Text/Slices.antt =====
-- The other functions of Go's `strings` package that the agent uses, on the characters of a text.
use dynapp_agent.Prelude.{
  false, List, [], ◌∷◌, ℕ, String, Char, code, ◌≡◌, refl, Bool, true, ◌||◌, nat_eq, if◌then◌else◌,
  Option, none, some, ◌==◌,
}

-- strings.Cut at a character: what stands before its first occurrence and after it.
unfoldable pub cut_at : ℕ → String → Option (String × String)
cut_at sep String.[] = none
cut_at sep (String.◌∷◌ c s) =
    let rest = cut_at sep s in
    if nat_eq (code c) sep
    then some (String.[], s)
    else elim rest [ none ↦ none | some (before, after) ↦ some (String.◌∷◌ c before, after) ]

-- value[strings.LastIndex(value, sep)+1:], or `none` where `sep` does not occur.
unfoldable pub after_last : ℕ → String → Option String
after_last sep String.[] = none
after_last sep (String.◌∷◌ c s) =
    let rest = after_last sep s in
    elim rest [ some found ↦ some found | none ↦ if nat_eq (code c) sep then some s else none ]

-- strings.ReplaceAll(value, c, "")
unfoldable pub without_char : ℕ → String → String
without_char sep String.[] = String.[]
without_char sep (String.◌∷◌ c s) =
    let rest = without_char sep s in if nat_eq (code c) sep then rest else String.◌∷◌ c rest

-- strings.TrimLeft, strings.TrimRight and strings.Trim of the characters that pass a test.
unfoldable pub trim_left_if : (ℕ → Bool) → String → String
trim_left_if p String.[] = String.[]
trim_left_if p (String.◌∷◌ c s) =
    let rest = trim_left_if p s in if p (code c) then rest else String.◌∷◌ c s

cons_unless_blank : (ℕ → Bool) → Char → String → String
cons_unless_blank p c String.[] = if p (code c) then String.[] else String.◌∷◌ c String.[]
cons_unless_blank p c (String.◌∷◌ d s) = String.◌∷◌ c (String.◌∷◌ d s)

unfoldable pub trim_right_if : (ℕ → Bool) → String → String
unfolding cons_unless_blank
trim_right_if p String.[] = String.[]
trim_right_if p (String.◌∷◌ c s) = cons_unless_blank p c (trim_right_if p s)

unfoldable pub trim_if : (ℕ → Bool) → String → String
unfolding trim_left_if trim_right_if
trim_if p s = trim_right_if p (trim_left_if p s)

-- strings.TrimPrefix of one character.
unfoldable pub trim_prefix_char : ℕ → String → String
trim_prefix_char sep String.[] = String.[]
trim_prefix_char sep (String.◌∷◌ c s) = if nat_eq (code c) sep then s else String.◌∷◌ c s

-- strings.HasSuffix: some end of the text is the suffix.
unfoldable pub ends_with : String → String → Bool
ends_with String.[] suffix = suffix == ""
ends_with (String.◌∷◌ c s) suffix = String.◌∷◌ c s == suffix || ends_with s suffix

-- strings.TrimPrefix: the text after a prefix, or the text itself.
strip : String → String → String → String
strip whole String.[] s = s
strip whole (String.◌∷◌ p ps) String.[] = whole
strip whole (String.◌∷◌ p ps) (String.◌∷◌ c s) =
    let rest = strip whole ps s in if nat_eq (code p) (code c) then rest else whole

unfoldable pub trim_prefix : String → String → String
unfolding strip
trim_prefix s prefix = strip s prefix s

-- strings.ContainsAny, by a test on the characters.
unfoldable pub contains_char : (ℕ → Bool) → String → Bool
contains_char p String.[] = false
contains_char p (String.◌∷◌ c s) = p (code c) || contains_char p s

-- strings.Split at a character.
with_head : Char → List String → List String
with_head c [] = []
with_head c (part ∷ parts) = String.◌∷◌ c part ∷ parts

unfoldable pub split_at : ℕ → String → List String
unfolding with_head
split_at sep String.[] = "" ∷ []
split_at sep (String.◌∷◌ c s) =
    let parts = split_at sep s in if nat_eq (code c) sep then "" ∷ parts else with_head c parts

slices :
    (cut_at b'/' "amit/dyner" ≡ some ("amit", "dyner"))
    × (after_last b'/' "a/b/c" ≡ some "c")
    × (without_char b'-' "amit-bet" ≡ "amitbet")
    × (trim_right_if (nat_eq b'/') "https://x//" ≡ "https://x")
    × (ends_with "a.dynapp.io" ".dynapp.io" ≡ true)
    × (trim_prefix "native:a/b" "native:" ≡ "a/b")
unfolding cut_at after_last without_char trim_right_if ends_with trim_prefix
slices = (refl, refl, refl, refl, refl, refl)
