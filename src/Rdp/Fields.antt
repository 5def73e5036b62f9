-- ===== src/Rdp/Fields.antt =====
-- What derEncode of shellagent/rdp/rdp.go writes, derTLV and derInner read back.
use dynapp_agent.Prelude.{
  ℕ, suc, ◌+◌, ◌*◌, ◌/◌, ◌%◌, ◌^◌, ◌≤◌, ◌<◌, [], ◌∷◌, ◌++◌, some, leb, ltb, length, length-append,
  append_assoc, append-nil, ◌≡◌, sym, ap, ◌∙◌, arith, Bool-cases, inl, inr,
}
use dynapp_agent.Bytes.{Bytes, take, drop, take-append, drop-append}
use dynapp_agent.Rdp.{big_endian, der_length, der_tlv, der_inner, der_encode_length, der_encode}

two_bytes : (n : ℕ) → n < 2 ^ 16 → (0 * 256 + n / 256 % 256) * 256 + n % 256 ≡ n
two_bytes n h = omega arith

-- The length that was written is read, with the number of its bytes.
der_length-der_encode_length :
    (size : ℕ) (rest : Bytes)
    → size < 2 ^ 16
    → der_length (der_encode_length size ++ rest) ≡ some (size, length (der_encode_length size))
unfolding der_length der_encode_length big_endian
der_length-der_encode_length size rest h = elim (Bool-cases (ltb size 128)) [
  | inl short ↦ rw (der_encode_length, short) (ground (arith, short))
  | inr long ↦ elim (Bool-cases (leb size 255)) [
    | inl one ↦ rw (der_encode_length, long, one) (ground arith)
    | inr two ↦ rw (der_encode_length, long, two) (ground (arith, two_bytes size h))
  ]
]

der_tlv-cons :
    (tag : ℕ) (bytes : Bytes) (size reach : ℕ)
    → der_length bytes ≡ some (size, reach)
    → reach + size ≤ length bytes
    → der_tlv (tag ∷ bytes) ≡ some (tag, take size (drop reach bytes), 1 + reach + size)
unfolding der_tlv
der_tlv-cons tag bytes size reach read fits = rw (der_tlv, read) (ground (arith, fits))

-- A field that was written is read back, whatever follows it, if its content is below 2 ^ 16 bytes.
pub der_tlv-der_encode :
    (tag : ℕ) (content rest : Bytes)
    → length content < 2 ^ 16
    → der_tlv (der_encode tag content ++ rest)
      ≡ some (tag, content, length (der_encode tag content))
unfolding der_encode
der_tlv-der_encode tag content rest h =
    let size = der_encode_length (length content) in
    let split : (size ++ content) ++ rest ≡ size ++ (content ++ rest) =
      append_assoc size content rest in
    let read : der_length ((size ++ content) ++ rest) ≡ some (length content, length size) =
      ap der_length split ∙ der_length-der_encode_length (length content) (content ++ rest) h in
    let total : length ((size ++ content) ++ rest) ≡ length size + length content + length rest =
      omega (arith, length-append (size ++ content) rest, length-append size content) in
    let body : take (length content) (drop (length size) ((size ++ content) ++ rest)) ≡ content =
      ap (λ l. take (length content) (drop (length size) l)) split
      ∙ ap (take (length content)) (drop-append size (content ++ rest))
      ∙ take-append content rest in
    let reach : 1 + length size + length content ≡ suc (length (size ++ content)) =
      omega (arith, length-append size content) in
    der_tlv-cons tag ((size ++ content) ++ rest) (length content) (length size) read
      (omega (arith, total))
    ∙ (λ i. some (tag, body i, reach i))

-- A field that was written is its own inner field.
pub der_inner-der_encode :
    (tag : ℕ) (content : Bytes)
    → length content < 2 ^ 16
    → der_inner (der_encode tag content) tag ≡ some content
unfolding der_inner
der_inner-der_encode tag content h =
    let read : der_tlv (der_encode tag content)
        ≡ some (tag, content, length (der_encode tag content)) =
      ap der_tlv (sym (append-nil (der_encode tag content)))
      ∙ der_tlv-der_encode tag content [] h in
    rw (der_inner, read) (ground arith)
