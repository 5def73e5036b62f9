-- ===== src/Rdp/Search.antt =====
-- The search for a field, derExplicit of shellagent/rdp/rdp.go: it ends, and it finds what was written.
use dynapp_agent.Prelude.{
  ℕ, zero, suc, ◌≤◌, ◌<◌, ◌^◌, [], ◌∷◌, ◌++◌, if◌then◌else◌, none, some, nat_eq, length,
  length-append, ◌≡◌, ◌≢◌, refl, sym, ap, ◌∙◌, arith, Option-cases, inl, inr,
}
use dynapp_agent.Bytes.{Bytes, drop, drop-append, length-drop}
use dynapp_agent.Rdp.{der_length, der_tlv, field, absent, out_of_fuel, find_field, der_encode}
use dynapp_agent.Rdp.Fields.{der_tlv-der_encode}

-- A field reaches beyond its tag, and not beyond the bytes.
der_tlv-reach :
    (bytes : Bytes) (tag reach : ℕ) (value : Bytes)
    → der_tlv bytes ≡ some (tag, value, reach)
    → (0 < reach) × (reach ≤ length bytes)
unfolding der_tlv
der_tlv-reach [] tag reach value h = absurd (ground (arith, h))
der_tlv-reach (b ∷ rest) tag reach value h = elim (Option-cases (der_length rest)) [
  | inl e ↦ absurd (ground (arith, h, e))
  | inr ((size, bytes), e) ↦ (ground (arith, h, e), ground (arith, h, e))
]

-- One step of the search, on a field that is there.
find_field-step :
    (fuel tag : ℕ) (bytes : Bytes) (current reach : ℕ) (value : Bytes)
    → der_tlv bytes ≡ some (current, value, reach)
    → find_field (suc fuel) tag bytes
      ≡ (if nat_eq current tag then field value else find_field fuel tag (drop reach bytes))
unfolding find_field
find_field-step fuel tag [] current reach value h =
    absurd (ground (arith, (der_tlv-reach [] current reach value h)))
find_field-step fuel tag (b ∷ bytes) current reach value h = rw (find_field, h) refl

find_field-none :
    (fuel tag : ℕ) (bytes : Bytes) → der_tlv bytes ≡ none → find_field (suc fuel) tag bytes ≡ absent
unfolding find_field
find_field-none fuel tag [] h = refl
find_field-none fuel tag (b ∷ bytes) h = rw (find_field, h) refl

-- As much fuel as there are bytes is enough: the search ends.
pub find_field-ends :
    (fuel tag : ℕ) (bytes : Bytes) → length bytes ≤ fuel → find_field fuel tag bytes ≢ out_of_fuel
unfolding find_field
find_field-ends zero tag [] h e = ground (arith, e)
find_field-ends zero tag (b ∷ bytes) h e = absurd (omega (arith, h))
find_field-ends (suc fuel) tag [] h e = ground (arith, e)
find_field-ends (suc fuel) tag (b ∷ bytes) h e = elim (Option-cases (der_tlv (b ∷ bytes))) [
  | inl f ↦ ground (arith, e, find_field-none fuel tag (b ∷ bytes) f)
  | inr ((current, value, reach), f) ↦
      let (low, high) = der_tlv-reach (b ∷ bytes) current reach value f in
      let shorter : length (drop reach (b ∷ bytes)) ≤ fuel =
        omega (arith, h, low, high, length-drop reach (b ∷ bytes)) in
      ground (
        arith,
        e,
        find_field-step fuel tag (b ∷ bytes) current reach value f,
        find_field-ends fuel tag (drop reach (b ∷ bytes)) shorter,
      )
]

-- More fuel than there are bytes changes nothing.
find_field-fuel :
    (f g tag : ℕ) (bytes : Bytes)
    → length bytes ≤ f
    → length bytes ≤ g
    → find_field f tag bytes ≡ find_field g tag bytes
unfolding find_field
find_field-fuel zero zero tag bytes h k = refl
find_field-fuel zero (suc g) tag [] h k = refl
find_field-fuel zero (suc g) tag (b ∷ bytes) h k = absurd (omega (arith, h))
find_field-fuel (suc f) zero tag [] h k = refl
find_field-fuel (suc f) zero tag (b ∷ bytes) h k = absurd (omega (arith, k))
find_field-fuel (suc f) (suc g) tag [] h k = refl
find_field-fuel (suc f) (suc g) tag (b ∷ bytes) h k = elim (Option-cases (der_tlv (b ∷ bytes))) [
  | inl e ↦ find_field-none f tag (b ∷ bytes) e ∙ sym (find_field-none g tag (b ∷ bytes) e)
  | inr ((current, value, reach), e) ↦
      let (low, high) = der_tlv-reach (b ∷ bytes) current reach value e in
      let size = length-drop reach (b ∷ bytes) in
      find_field-step f tag (b ∷ bytes) current reach value e
      ∙ ap (λ r. if nat_eq current tag then field value else r)
          (find_field-fuel f g tag (drop reach (b ∷ bytes)) (omega (arith, h, low, high, size))
            (omega (arith, k, low, high, size)))
      ∙ sym (find_field-step g tag (b ∷ bytes) current reach value e)
]

-- The search over a field that was written: it ends there, or goes on behind it.
pub find-der_encode :
    (tag current : ℕ) (content rest : Bytes)
    → length content < 2 ^ 16
    → find_field
        (length (der_encode current content ++ rest))
        tag
        (der_encode current content ++ rest)
      ≡ (if nat_eq current tag then field content else find_field (length rest) tag rest)
find-der_encode tag current content rest h =
    let bytes = der_encode current content ++ rest in
    let head = der_encode current content in
    let read = der_tlv-der_encode current content rest h in
    let (low, high) = der_tlv-reach bytes current (length head) content read in
    let size = length-append head rest in
    find_field-fuel (length bytes) (suc (length bytes)) tag bytes (omega arith) (omega arith)
    ∙ find_field-step (length bytes) tag bytes current (length head) content read
    ∙ ap (λ r. if nat_eq current tag then field content else r)
        (ap (find_field (length bytes) tag) (drop-append head rest)
          ∙ find_field-fuel (length bytes) (length rest) tag rest (omega (arith, size))
              (omega arith))
