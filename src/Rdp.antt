-- ===== src/Rdp.antt =====
-- The DER fields of RDCleanPath messages and the frames around them: shellagent/rdp/rdp.go.
pub mod Fields
pub mod Search
pub mod Response
use dynapp_agent.Prelude.{
  ℕ, zero, suc, ◌+◌, ◌-◌, ◌*◌, ◌/◌, ◌%◌, ◌^◌, Bool, true, false, ◌||◌, ◌&&◌, List, [], ◌∷◌, ◌++◌,
  if◌then◌else◌, not, Option, none, some, nat_eq, leb, ltb, length, ◌≡◌, refl,
}
use dynapp_agent.Bytes.{Bytes, take, drop, same_bytes, be16_at}

-- value<<8 | b over the bytes of a number.
unfoldable pub big_endian : ℕ → Bytes → ℕ
big_endian value [] = value
big_endian value (b ∷ bs) = big_endian (value * 256 + b) bs

-- derLength on the bytes from its offset on: the length and the number of bytes that it takes.
unfoldable pub der_length : Bytes → Option (ℕ × ℕ)
unfolding big_endian
der_length [] = none
der_length (first ∷ rest) =
    let count = first % 128 in
    if ltb first 128
    then some (first, 1)
    else if ltb count 1 || ltb 4 count || ltb (length rest) count
    then none
    else some (big_endian 0 (take count rest), 1 + count)

-- derTLV on the bytes from its offset on: the tag, the content, and how far the field reaches.
unfoldable pub der_tlv : Bytes → Option (ℕ × Bytes × ℕ)
unfolding der_length
der_tlv [] = none
der_tlv (tag ∷ rest) = elim (der_length rest) [
  | none ↦ none
  | some (size, bytes) ↦
      if ltb (length rest) (bytes + size)
      then none
      else some (tag, take size (drop bytes rest), 1 + bytes + size)
]

-- How the search for a field ends; `out_of_fuel` is no end of the source.
pub data Found : Type 0 where
  field : Bytes → Found
  absent out_of_fuel : Found

-- The loop of derExplicit on the bytes from its offset on.
unfoldable pub find_field : ℕ → ℕ → Bytes → Found
unfolding der_tlv
find_field fuel tag [] = absent
find_field zero tag (b ∷ bs) = out_of_fuel
find_field (suc fuel) tag (b ∷ bs) = elim (der_tlv (b ∷ bs)) [
  | none ↦ absent
  | some (current, value, reach) ↦
      let rest = find_field fuel tag (drop reach (b ∷ bs)) in
      if nat_eq current tag then field value else rest
]

-- derExplicit
unfoldable pub der_explicit : Bytes → ℕ → Option Bytes
unfolding find_field
der_explicit root tag = elim (find_field (length root) tag root) [
  | field value ↦ some value
  | _ ↦ none
]

-- derInner
unfoldable pub der_inner : Bytes → ℕ → Option Bytes
unfolding der_tlv
der_inner value expected = elim (der_tlv value) [
  | none ↦ none
  | some (tag, inner, reach) ↦
      if nat_eq tag expected && nat_eq reach (length value) then some inner else none
]

-- derExplicit, then derInner.
unfoldable pub inner_field : Bytes → ℕ → ℕ → Option Bytes
unfolding der_explicit der_inner
inner_field root tag expected = elim (der_explicit root tag) [
  | none ↦ none
  | some value ↦ der_inner value expected
]

-- rdcCleanPathRequest
pub record CleanPathRequest : Type 0 where
  pub destination : Bytes
  pub proxy_auth : Bytes
  pub x224 : Bytes

-- parseRdcCleanPathRequest. The number of a version of more than eight bytes wraps in the source, which
-- the test against 3390 sees as its last bytes.
unfoldable pub parse_rdc_clean_path_request : Bytes → Option CleanPathRequest
unfolding inner_field big_endian
parse_rdc_clean_path_request bytes = elim (der_tlv bytes) [
  | none ↦ none
  | some (tag, root, reach) ↦
      if not (nat_eq tag 0x30) then none else elim (inner_field root 0xa0 0x02) [
        | none ↦ none
        | some version ↦
            if leb (length version) 0 || not (nat_eq (big_endian 0 version % 2 ^ 64) 3390)
            then none
            else elim (inner_field root 0xa2 0x0c) [
              | none ↦ none
              | some destination ↦ elim (inner_field root 0xa6 0x04) [
                | none ↦ none
                | some x224 ↦ some (record {
                  destination = destination;
                  proxy_auth = elim (inner_field root 0xa3 0x0c) [ none ↦ [] | some proxy ↦ proxy ];
                  x224 = x224;
                })
              ]
            ]
      ]
]

-- derEncodeLength
unfoldable pub der_encode_length : ℕ → Bytes
der_encode_length size =
    if ltb size 128
    then size ∷ []
    else if leb size 255
    then 0x81 ∷ size ∷ []
    else 0x82 ∷ size / 256 % 256 ∷ size % 256 ∷ []

-- derEncode
unfoldable pub der_encode : ℕ → Bytes → Bytes
der_encode tag content = tag ∷ der_encode_length (length content) ++ content

-- derExplicitValue
unfoldable pub der_explicit_value : ℕ → Bytes → Bytes
der_explicit_value tag inner = der_encode (0xa0 + tag) inner

encode_each : List Bytes → Bytes
unfolding der_encode
encode_each [] = []
encode_each (certificate ∷ certificates) = der_encode 0x04 certificate ++ encode_each certificates

-- The fields of the response, and encodeRdcCleanPathResponse.
unfoldable pub response_root : Bytes → Bytes → List Bytes → Bytes
unfolding encode_each
response_root address x224 certificates =
    der_explicit_value 0 (der_encode 0x02 (0x0d ∷ 0x3e ∷ []))
    ++ der_explicit_value 6 (der_encode 0x04 x224)
    ++ der_explicit_value 7 (der_encode 0x30 (encode_each certificates))
    ++ der_explicit_value 9 (der_encode 0x0c address)

unfoldable pub encode_rdc_clean_path_response : Bytes → Bytes → List Bytes → Bytes
encode_rdc_clean_path_response address x224 certificates =
    der_encode 0x30 (response_root address x224 certificates)

-- encodeRdcCleanPathError
unfoldable pub encode_rdc_clean_path_error : ℕ → Bytes
unfolding der_explicit_value
encode_rdc_clean_path_error wsa_error =
    let high = wsa_error / 256 % 256 in
    let two = high ∷ wsa_error % 256 ∷ [] in
    let value = if leb 128 high then 0 ∷ two else two in
    let reason = der_explicit_value 0 (der_encode 0x02 (0x01 ∷ [])) in
    let fields =
      if nat_eq wsa_error 0
      then reason
      else reason ++ der_explicit_value 2 (der_encode 0x02 value) in
    der_encode 0x30 (
      der_explicit_value 0 (der_encode 0x02 (0x0d ∷ 0x3e ∷ []))
      ++ der_explicit_value 1 (der_encode 0x30 fields))
