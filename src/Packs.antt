-- ===== src/Packs.antt =====
-- Source packs: decodeSourcePack and encodeSourcePack of shellagent/apphost/source_snapshot.go.
pub mod RoundTrip
use dynapp_agent.Prelude.{
  ℕ, zero, suc, ◌+◌, ◌-◌, ◌*◌, ◌/◌, ◌%◌, ◌^◌, String, Bool, true, false, ◌||◌, ◌&&◌, List, [], ◌∷◌,
  ◌++◌, ◌==◌, if◌then◌else◌, not, starts_with, nat_eq, leb, ltb, length, any_of,
}
use Prim.Native.String.{len}
use dynapp_agent.Text.{contains_char, split_at}
use dynapp_agent.Bytes.{Bytes, take, drop, same_bytes, be32, be32_at}

-- The bytes of "DYNPACK1".
abbrev pub magic : Bytes
magic = 68 ∷ 89 ∷ 78 ∷ 80 ∷ 65 ∷ 67 ∷ 75 ∷ 49 ∷ []

-- binary.BigEndian.PutUint64 and Uint64
unfoldable pub be64 : ℕ → Bytes
be64 n = be32 (n / 2 ^ 32 % 2 ^ 32) ++ be32 (n % 2 ^ 32)

unfoldable pub be64_at : ℕ → Bytes → ℕ
be64_at k bytes = be32_at k bytes * 2 ^ 32 + be32_at (k + 4) bytes

-- How decoding ends; a slice expression with a negative bound panics.
pub data Unpacked : Type 0 where
  unpacked : List (String × Bytes) → Unpacked
  refused panics : Unpacked

-- sourceSnapshotFile, as far as packing reads it.
pub record PackFile : Type 0 where
  pub digest : String
  pub size : ℕ

unfoldable pub has_object : String → List (String × Bytes) → Bool
has_object digest objects = any_of (λ (o : String × Bytes). o.0 == digest) objects

module _ (hex_digest : Bytes → String) (source_digest : Bytes → String) where
  -- The loop over the objects: `left` are still to come, `rest` is the pack from `offset` on, and `total`
  -- is its length. `hex_digest` prints 32 raw bytes; sums of uint64 wrap.
  unfoldable pub decode_objects : ℕ → Bytes → ℕ → ℕ → List (String × Bytes) → Unpacked
  unfolding be64_at has_object
  decode_objects zero rest offset total objects =
      if nat_eq offset total then unpacked objects else refused
  decode_objects (suc left) rest offset total objects =
      let digest = hex_digest (take 32 rest) in
      let size = be64_at 0 (drop 32 rest) in
      let body = drop 8 (drop 32 rest) in
      let content = take size body in
      let next =
        decode_objects left (drop size body) (offset + 40 + size) total
          ((digest, content) ∷ objects) in
      if ltb total (offset + 40)
      then refused
      else if ltb total ((offset + 40 + size) % 2 ^ 64)
      then refused
      else if leb (2 ^ 63) size
      then panics
      else if has_object digest objects || not (source_digest content == digest)
      then refused
      else next

  -- decodeSourcePack
  unfoldable pub decode_source_pack : Bytes → Unpacked
  unfolding decode_objects
  decode_source_pack pack =
      if ltb (length pack) 12 || not (same_bytes (take 8 pack) magic)
      then refused
      else decode_objects (be32_at 8 pack) (drop 12 pack) 12 (length pack) []

module _ (raw_digest : String → Bytes) (blobs : String → Bytes) where
  -- The loop of encodeSourcePack; `raw_digest` reads a digest's 32 bytes back.
  unfoldable pub encode_objects : List PackFile → Bytes
  unfolding be64
  encode_objects [] = []
  encode_objects (file ∷ files) =
      raw_digest file.digest ++ (be64 file.size ++ (blobs file.digest ++ encode_objects files))

  -- encodeSourcePack
  unfoldable pub encode_source_pack : List PackFile → Bytes
  encode_source_pack files = magic ++ (be32 (length files % 2 ^ 32) ++ encode_objects files)

-- validSourceDigest; `is_hex` is whether hex.DecodeString reads the text.
unfoldable pub valid_source_digest : (String → Bool) → (String → String) → String → Bool
valid_source_digest is_hex after_prefix value =
    starts_with value "sha256:" && nat_eq (len value) 71 && is_hex (after_prefix value)

-- validateSnapshotPath: whether the path is accepted.
unfoldable pub validate_snapshot_path : String → Bool
validate_snapshot_path portable = not (
    portable == ""
    || starts_with portable "/"
    || contains_char (λ c. nat_eq c 92) portable
    || any_of (λ part. part == "" || part == "." || part == "..") (split_at b'/' portable))
