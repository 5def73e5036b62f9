-- ===== src/Frames/Binary.antt =====
-- The DFB1 envelope of binary frames: sendBinary and decodeBinaryFrame of shellagent/agent.go. A header
-- is the bytes of its JSON.
use dynapp_agent.Prelude.{
  ℕ, ◌-◌, ◌≤◌, ◌<◌, Bool, true, ◌||◌, [], ◌∷◌, ◌++◌, if◌then◌else◌, not, Option, none, some, ltb,
  length, length-append, ◌≡◌, refl, ap, sym, ◌∙◌, arith, Bool-cases, inl, inr,
}
use dynapp_agent.Bytes.{
  Bytes, take, drop, take-append, drop-append, same_bytes, be32, be32_at, be32_at-be32,
}

-- The bytes of "DFB1".
abbrev magic : Bytes
magic = 68 ∷ 70 ∷ 66 ∷ 49 ∷ []

-- The frame that sendBinary writes; `none` where the header is too large.
unfoldable pub encode_binary_frame : Bytes → Bytes → Option Bytes
encode_binary_frame header body =
    if ltb 524288 (length header)
    then none
    else some (magic ++ (be32 (length header) ++ (header ++ body)))

-- decodeBinaryFrame, on whether the header is JSON of a message.
unfoldable pub decode_binary_frame : (Bytes → Bool) → Bytes → Option (Bytes × Bytes)
decode_binary_frame is_message frame =
    let header_length = be32_at 4 frame in
    let header = take header_length (drop 8 frame) in
    if ltb (length frame) 8 || not (same_bytes (take 4 frame) magic)
    then none
    else if ltb header_length 1 || ltb (length frame - 8) header_length
    then none
    else if is_message header
    then some (header, drop header_length (drop 8 frame))
    else none

decode-envelope :
    (is_message : Bytes → Bool) (n : ℕ) (header body : Bytes)
    → be32_at 0 (be32 n) ≡ length header
    → 0 < length header
    → is_message header ≡ true
    → decode_binary_frame is_message (magic ++ (be32 n ++ (header ++ body))) ≡ some (header, body)
unfolding decode_binary_frame
decode-envelope is_message n header body number filled message =
    rw (decode_binary_frame, number, take-append header body, drop-append header body, message)
      (ground (arith, filled, length-append header body))

some_injective : {x y : Bytes} → some x ≡ some y → x ≡ y
some_injective e = cc e

written-small :
    (header body frame : Bytes)
    → encode_binary_frame header body ≡ some frame
    → length header ≤ 524288
unfolding encode_binary_frame
written-small header body frame h = ground (arith, h)

written-bytes :
    (header body frame : Bytes)
    → encode_binary_frame header body ≡ some frame
    → magic ++ (be32 (length header) ++ (header ++ body)) ≡ frame
unfolding encode_binary_frame
written-bytes header body frame h = elim (Bool-cases (ltb 524288 (length header))) [
  | inl large ↦ absurd (ground (arith, h, large))
  | inr small ↦ some_injective (sym (rw small refl) ∙ h)
]

-- A binary frame that was written gives its header and its body back, if the header is JSON of a message
-- and not empty.
pub decode_binary_frame-encode_binary_frame :
    (is_message : Bytes → Bool) (header body frame : Bytes)
    → encode_binary_frame header body ≡ some frame
    → 0 < length header
    → is_message header ≡ true
    → decode_binary_frame is_message frame ≡ some (header, body)
decode_binary_frame-encode_binary_frame is_message header body frame written filled message =
    let small : length header ≤ 524288 = written-small header body frame written in
    let made : magic ++ (be32 (length header) ++ (header ++ body)) ≡ frame =
      written-bytes header body frame written in
    ap (decode_binary_frame is_message) (sym made)
    ∙ decode-envelope is_message (length header) header body
        (be32_at-be32 (length header) (omega (arith, small))) filled message
