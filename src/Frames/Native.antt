-- ===== src/Frames/Native.antt =====
-- The frames between the agent and a native host, Read and Write of nativeFrameSocket in
-- shellagent/native_host.go, on a stream of bytes.
use dynapp_agent.Prelude.{
  ℕ, ◌+◌, ◌-◌, ◌≤◌, ◌||◌, ◌∷◌, ◌++◌, if◌then◌else◌, Option, none, some, nat_eq, ltb, length,
  length-append, ◌≡◌, refl, ap, sym, ◌∙◌, arith, Bool-cases, inl, inr,
}
use dynapp_agent.Bytes.{
  Bytes, take, drop, at, take-append, drop-append, be32, be32_at, be32_at-be32,
}

-- maxNativeFrame
abbrev pub max_native_frame : ℕ
max_native_frame = 22020096

-- websocket.MessageText and MessageBinary, the only kinds in use.
pub data MessageKind : Type 0 where
  text_message binary_message : MessageKind

-- nativeFrameText and nativeFrameBinary
unfoldable pub kind_byte : MessageKind → ℕ
kind_byte text_message = 1
kind_byte binary_message = 2

unfoldable pub kind_of_byte : ℕ → Option MessageKind
kind_of_byte byte =
    if nat_eq byte 1 then some text_message else if nat_eq byte 2 then some binary_message else none

-- Write: the bytes of a frame; `none` where it is too large.
unfoldable pub write_native_frame : MessageKind → Bytes → Option Bytes
unfolding kind_byte
write_native_frame kind payload =
    if ltb max_native_frame (length payload + 1)
    then none
    else some (be32 (length payload + 1) ++ (kind_byte kind ∷ payload))

-- Read: the kind and the payload of the next frame, and the stream behind it.
unfoldable pub read_native_frame : Bytes → Option (MessageKind × Bytes × Bytes)
unfolding kind_of_byte
read_native_frame stream =
    let size = be32_at 0 stream in
    let payload = take (size - 1) (drop 5 stream) in
    let rest = drop (size - 1) (drop 5 stream) in
    if ltb (length stream) 5
    then none
    else if ltb size 1 || ltb max_native_frame size
    then none
    else if ltb (length (drop 5 stream)) (size - 1)
    then none
    else elim (kind_of_byte (at 4 stream)) [ none ↦ none | some kind ↦ some (kind, payload, rest) ]

kind_of_byte-kind_byte : (kind : MessageKind) → kind_of_byte (kind_byte kind) ≡ some kind
unfolding kind_of_byte kind_byte
kind_of_byte-kind_byte text_message = refl
kind_of_byte-kind_byte binary_message = refl

read-envelope :
    (n byte : ℕ) (kind : MessageKind) (payload rest : Bytes)
    → be32_at 0 (be32 n) ≡ length payload + 1
    → length payload + 1 ≤ max_native_frame
    → kind_of_byte byte ≡ some kind
    → read_native_frame (be32 n ++ (byte ∷ (payload ++ rest))) ≡ some (kind, payload, rest)
unfolding read_native_frame
read-envelope n byte kind payload rest number small known =
    let size = be32_at 0 (be32 n) in
    let before : size - 1 ≡ length payload = omega (arith, number) in
    let front : take (size - 1) (payload ++ rest) ≡ payload =
      ap (λ k. take k (payload ++ rest)) before ∙ take-append payload rest in
    let back : drop (size - 1) (payload ++ rest) ≡ rest =
      ap (λ k. drop k (payload ++ rest)) before ∙ drop-append payload rest in
    rw (read_native_frame, known, front, back)
      (ground (arith, number, small, length-append payload rest))

some_injective : {x y : Bytes} → some x ≡ some y → x ≡ y
some_injective e = cc e

-- A frame that was written is read back, and the stream goes on behind it.
pub read_native_frame-write_native_frame :
    (kind : MessageKind) (payload frame rest : Bytes)
    → write_native_frame kind payload ≡ some frame
    → read_native_frame (frame ++ rest) ≡ some (kind, payload, rest)
unfolding write_native_frame
read_native_frame-write_native_frame kind payload frame rest written =
    elim (Bool-cases (ltb max_native_frame (length payload + 1))) [
      | inl large ↦ absurd (ground (arith, written, large))
      | inr small ↦
          let made : be32 (length payload + 1) ++ (kind_byte kind ∷ payload) ≡ frame =
            some_injective (sym (rw small refl) ∙ written) in
          let fits : length payload + 1 ≤ max_native_frame = ground (arith, small) in
          ap (λ f. read_native_frame (f ++ rest)) (sym made)
          ∙ read-envelope (length payload + 1) (kind_byte kind) kind payload rest
              (be32_at-be32 (length payload + 1) (omega (arith, fits))) fits
              (kind_of_byte-kind_byte kind)
    ]
