-- ===== src/Examples/Formats.antt =====
-- The theorems on RDCleanPath messages and source packs, applied to small ones.
use dynapp_agent.Prelude.{
  ℕ, zero, suc, String, List, [], ◌∷◌, ◌==◌, if◌then◌else◌, some, length, nat_eq, true, ◌≡◌, ◌≢◌,
  refl, arith,
}
use dynapp_agent.Bytes.{Bytes}
use dynapp_agent.Rdp.{
  der_tlv, der_encode, der_encode_length, out_of_fuel, find_field, inner_field, response_root,
  encode_rdc_clean_path_response, der_explicit_value,
}
use dynapp_agent.Frames.Binary.{
  encode_binary_frame, decode_binary_frame, decode_binary_frame-encode_binary_frame,
}
use dynapp_agent.Rdp.Search.{find_field-ends}
use dynapp_agent.Rdp.Response.{encode_rdc_clean_path_response-inner_field}
use dynapp_agent.Packs.{
  PackFile, has_object, decode_source_pack, encode_source_pack, encode_objects, be64, unpacked,
}
use dynapp_agent.Packs.RoundTrip.{gathered, decode_source_pack-encode_source_pack}

find_field-ends_example : find_field 4 0xa0 (0xa2 ∷ 1 ∷ 7 ∷ 9 ∷ []) ≢ out_of_fuel
find_field-ends_example = find_field-ends 4 0xa0 (0xa2 ∷ 1 ∷ 7 ∷ 9 ∷ []) (omega arith)

encode_rdc_clean_path_response-inner_field_example :
    let root = response_root (49 ∷ 48 ∷ []) (3 ∷ 0 ∷ []) ((48 ∷ []) ∷ []) in
    (der_tlv (encode_rdc_clean_path_response (49 ∷ 48 ∷ []) (3 ∷ 0 ∷ []) ((48 ∷ []) ∷ []))
      ≡ some (
        0x30,
        root,
        length (encode_rdc_clean_path_response (49 ∷ 48 ∷ []) (3 ∷ 0 ∷ []) ((48 ∷ []) ∷ [])),
      ))
    × (inner_field root 0xa0 0x02 ≡ some (0x0d ∷ 0x3e ∷ []))
    × (inner_field root 0xa6 0x04 ≡ some (3 ∷ 0 ∷ []))
    × (inner_field root 0xa9 0x0c ≡ some (49 ∷ 48 ∷ []))
unfolding response_root der_explicit_value der_encode der_encode_length
encode_rdc_clean_path_response-inner_field_example =
    encode_rdc_clean_path_response-inner_field (49 ∷ 48 ∷ []) (3 ∷ 0 ∷ []) ((48 ∷ []) ∷ [])
      (omega arith)

abbrev pad : ℕ → Bytes
pad zero = []
pad (suc n) = 0 ∷ pad n

-- A digest that tells the two blobs apart by their first byte.
abbrev toy_digest : Bytes → String
toy_digest [] = "empty"
toy_digest (b ∷ bytes) = if nat_eq b 7 then "seven" else "nine"

abbrev toy_raw : String → Bytes
toy_raw digest = if digest == "seven" then 7 ∷ pad 31 else 9 ∷ pad 31

abbrev toy_blobs : String → Bytes
toy_blobs digest = if digest == "seven" then 7 ∷ 1 ∷ [] else 9 ∷ []

abbrev toy_files : List PackFile
toy_files = record { digest = "seven"; size = 2 } ∷ record { digest = "nine"; size = 1 } ∷ []

decode_source_pack-encode_source_pack_example :
    decode_source_pack toy_digest toy_digest (encode_source_pack toy_raw toy_blobs toy_files)
    ≡ unpacked (gathered toy_blobs toy_files [])
unfolding has_object encode_source_pack encode_objects be64
decode_source_pack-encode_source_pack_example =
    decode_source_pack-encode_source_pack toy_digest toy_digest toy_raw toy_blobs toy_files
      ((refl, refl, refl, refl, refl, (refl, refl, refl, refl, refl, tt))) (omega arith)
      (omega arith)

decode_binary_frame-encode_binary_frame_example :
    decode_binary_frame (λ header. true) (68 ∷ 70 ∷ 66 ∷ 49 ∷ 0 ∷ 0 ∷ 0 ∷ 2 ∷ 123 ∷ 125 ∷ 5 ∷ [])
    ≡ some (123 ∷ 125 ∷ [], 5 ∷ [])
unfolding encode_binary_frame
decode_binary_frame-encode_binary_frame_example =
    decode_binary_frame-encode_binary_frame (λ header. true) (123 ∷ 125 ∷ []) (5 ∷ [])
      (68 ∷ 70 ∷ 66 ∷ 49 ∷ 0 ∷ 0 ∷ 0 ∷ 2 ∷ 123 ∷ 125 ∷ 5 ∷ []) refl (omega arith) refl
