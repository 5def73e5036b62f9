-- ===== src/Rdp/Response.antt =====
-- What encodeRdcCleanPathResponse of shellagent/rdp/rdp.go writes can be read field by field.
use dynapp_agent.Prelude.{
  ℕ, ◌+◌, ◌≤◌, ◌<◌, ◌^◌, false, List, [], ◌∷◌, ◌++◌, some, nat_eq, length, length-append,
  append_assoc, append-nil, ◌≡◌, refl, sym, ap, ◌∙◌, arith,
}
use dynapp_agent.Bytes.{Bytes}
use dynapp_agent.Rdp.{
  der_tlv, der_explicit, inner_field, der_encode, der_explicit_value, response_root,
  encode_rdc_clean_path_response, encode_each, der_encode_length,
}
use dynapp_agent.Rdp.Fields.{der_tlv-der_encode, der_inner-der_encode}
use dynapp_agent.Rdp.Search.{find-der_encode}

-- The first field with the tag is the one that is found; one with another tag is passed over.
explicit_first :
    (tag : ℕ) (content rest : Bytes)
    → length content < 2 ^ 16
    → der_explicit (der_encode tag content ++ rest) tag ≡ some content
unfolding der_explicit
explicit_first tag content rest h =
    rw (der_explicit, find-der_encode tag tag content rest h) (ground arith)

explicit_skip :
    (tag current : ℕ) (content rest : Bytes)
    → nat_eq current tag ≡ false
    → length content < 2 ^ 16
    → der_explicit (der_encode current content ++ rest) tag ≡ der_explicit rest tag
unfolding der_explicit
explicit_skip tag current content rest differs h =
    rw (der_explicit, find-der_encode tag current content rest h, differs) refl

inner_of_explicit :
    (root : Bytes) (tag expected : ℕ) (value : Bytes)
    → der_explicit root tag ≡ some (der_encode expected value)
    → length value < 2 ^ 16
    → inner_field root tag expected ≡ some value
unfolding inner_field
inner_of_explicit root tag expected value found h =
    rw (inner_field, found) (der_inner-der_encode expected value h)

content-le : (tag : ℕ) (content : Bytes) → length content ≤ length (der_encode tag content)
unfolding der_encode
content-le tag content = omega (arith, length-append (der_encode_length (length content)) content)

-- Four fields in a row.
unfoldable four : Bytes → Bytes → Bytes → Bytes → Bytes
four a b c d = der_encode 0xa0 a ++ der_encode 0xa6 b ++ der_encode 0xa7 c ++ der_encode 0xa9 d

four-nested :
    (a b c d : Bytes)
    → four a b c d
      ≡ der_encode 0xa0 a ++ (der_encode 0xa6 b ++ (der_encode 0xa7 c ++ (der_encode 0xa9 d ++ [])))
unfolding four
four-nested a b c d =
    append_assoc (der_encode 0xa0 a ++ der_encode 0xa6 b) (der_encode 0xa7 c) (der_encode 0xa9 d)
    ∙ append_assoc (der_encode 0xa0 a) (der_encode 0xa6 b) (der_encode 0xa7 c ++ der_encode 0xa9 d)
    ∙ ap (λ l. der_encode 0xa0 a ++ (der_encode 0xa6 b ++ (der_encode 0xa7 c ++ l)))
        (sym (append-nil (der_encode 0xa9 d)))

four-length : (a b c d : Bytes) → length a + length b + length c + length d ≤ length (four a b c d)
unfolding four
four-length a b c d = omega (
  arith,
  content-le 0xa0 a,
  content-le 0xa6 b,
  content-le 0xa7 c,
  content-le 0xa9 d,
  length-append (der_encode 0xa0 a ++ der_encode 0xa6 b ++ der_encode 0xa7 c) (der_encode 0xa9 d),
  length-append (der_encode 0xa0 a ++ der_encode 0xa6 b) (der_encode 0xa7 c),
  length-append (der_encode 0xa0 a) (der_encode 0xa6 b),
)

four-explicit :
    (a b c d : Bytes)
    → length (four a b c d) < 2 ^ 16
    → (der_explicit (four a b c d) 0xa0 ≡ some a)
      × (der_explicit (four a b c d) 0xa6 ≡ some b)
      × (der_explicit (four a b c d) 0xa9 ≡ some d)
four-explicit a b c d h =
    let small = four-length a b c d in
    let nested = four-nested a b c d in
    let last = der_encode 0xa9 d ++ [] in
    let third = der_encode 0xa7 c ++ last in
    let second = der_encode 0xa6 b ++ third in
    let sa : length a < 2 ^ 16 = omega (arith, small, h) in
    let sb : length b < 2 ^ 16 = omega (arith, small, h) in
    let sc : length c < 2 ^ 16 = omega (arith, small, h) in
    let sd : length d < 2 ^ 16 = omega (arith, small, h) in
    (
      ap (λ l. der_explicit l 0xa0) nested ∙ explicit_first 0xa0 a second sa,
      ap (λ l. der_explicit l 0xa6) nested
          ∙ explicit_skip 0xa6 0xa0 a second refl sa
          ∙ explicit_first 0xa6 b third sb,
      ap (λ l. der_explicit l 0xa9) nested
          ∙ explicit_skip 0xa9 0xa0 a second refl sa
          ∙ explicit_skip 0xa9 0xa6 b third refl sb
          ∙ explicit_skip 0xa9 0xa7 c last refl sc
          ∙ explicit_first 0xa9 d [] sd,
    )

-- The response is one field with the tag 0x30, in which the version 3390, the X.224 answer and the
-- address are found under their tags, as long as the fields take fewer than 2 ^ 16 bytes.
pub encode_rdc_clean_path_response-inner_field :
    (address x224 : Bytes) (certificates : List Bytes)
    → length (response_root address x224 certificates) < 2 ^ 16
    → let root = response_root address x224 certificates in
      (der_tlv (encode_rdc_clean_path_response address x224 certificates)
        ≡ some (0x30, root, length (encode_rdc_clean_path_response address x224 certificates)))
      × (inner_field root 0xa0 0x02 ≡ some (0x0d ∷ 0x3e ∷ []))
      × (inner_field root 0xa6 0x04 ≡ some x224)
      × (inner_field root 0xa9 0x0c ≡ some address)
unfolding encode_rdc_clean_path_response response_root der_explicit_value four
encode_rdc_clean_path_response-inner_field address x224 certificates h =
    let version = der_encode 0x02 (0x0d ∷ 0x3e ∷ []) in
    let answer = der_encode 0x04 x224 in
    let chain = der_encode 0x30 (encode_each certificates) in
    let target = der_encode 0x0c address in
    let root = four version answer chain target in
    let small = four-length version answer chain target in
    let found = four-explicit version answer chain target h in
    let read = der_tlv-der_encode 0x30 root [] h in
    (
      ap der_tlv (sym (append-nil (der_encode 0x30 root))) ∙ read,
      inner_of_explicit root 0xa0 0x02 (0x0d ∷ 0x3e ∷ []) found.0 (omega arith),
      inner_of_explicit root 0xa6 0x04 x224 found.1 (omega (arith, small, h, content-le 0x04 x224)),
      inner_of_explicit root 0xa9 0x0c address found.2
          (omega (arith, small, h, content-le 0x0c address)),
    )
