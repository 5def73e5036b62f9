-- ===== src/Packs/RoundTrip.antt =====
-- A pack that encodeSourcePack of shellagent/apphost/source_snapshot.go writes decodes to its objects.
use dynapp_agent.Prelude.{
  ℕ, suc, ◌+◌, ◌/◌, ◌%◌, ◌^◌, ◌≤◌, ◌<◌, String, true, false, List, [], ◌∷◌, ◌++◌, ◌==◌, eq_iff, leb,
  ltb, length, length-append, ◌≡◌, refl, sym, ap, ◌∙◌, arith,
}
use dynapp_agent.Bytes.{Bytes, take, drop, take-append, drop-append, be32, be32_at, be32_at-be32}
use dynapp_agent.Packs.{
  magic, be64, be64_at, unpacked, PackFile, has_object, decode_objects, decode_source_pack,
  encode_objects, encode_source_pack,
}

be64_at-be64 : (n : ℕ) (rest : Bytes) → n < 2 ^ 63 → be64_at 0 (be64 n ++ rest) ≡ n
unfolding be64_at be64
be64_at-be64 n rest h = omega (
  arith,
  h,
  be32_at-be32 (n / 2 ^ 32 % 2 ^ 32) (omega arith),
  be32_at-be32 (n % 2 ^ 32) (omega arith),
)

length-be64 : (n : ℕ) → length (be64 n) ≡ 8
unfolding be64
length-be64 n = refl

-- What the 32 bytes of a digest leave to be read behind them.
behind_digest :
    (raw rest : Bytes)
    → length raw ≡ 32
    → (take 32 (raw ++ rest) ≡ raw) × (drop 32 (raw ++ rest) ≡ rest)
behind_digest raw rest h = (
  ap (λ n. take n (raw ++ rest)) (sym h) ∙ take-append raw rest,
  ap (λ n. drop n (raw ++ rest)) (sym h) ∙ drop-append raw rest,
)

-- The objects that a pack of these files adds.
unfoldable pub gathered :
    (String → Bytes) → List PackFile → List (String × Bytes) → List (String × Bytes)
gathered blobs [] objects = objects
gathered blobs (file ∷ files) objects =
    gathered blobs files ((file.digest, blobs file.digest) ∷ objects)

module _ (hex_digest source_digest : Bytes → String) (raw_digest : String → Bytes)
    (blobs : String → Bytes) where
  -- The files can be packed: each digest reads back from its 32 bytes, belongs to the blob, and was not
  -- seen before, and the size is that of the blob.
  abbrev pub ArePackable : List (String × Bytes) → List PackFile → Type 0
  ArePackable objects [] = Unit
  ArePackable objects (file ∷ files) =
      (length (raw_digest file.digest) ≡ 32)
      × (hex_digest (raw_digest file.digest) ≡ file.digest)
      × (length (blobs file.digest) ≡ file.size)
      × (source_digest (blobs file.digest) ≡ file.digest)
      × (has_object file.digest objects ≡ false)
      × ArePackable ((file.digest, blobs file.digest) ∷ objects) files

  decode-step :
      (left : ℕ) (rest : Bytes) (offset total size : ℕ) (digest : String) (content more : Bytes)
      (objects : List (String × Bytes))
      → hex_digest (take 32 rest) ≡ digest
      → be64_at 0 (drop 32 rest) ≡ size
      → take size (drop 8 (drop 32 rest)) ≡ content
      → drop size (drop 8 (drop 32 rest)) ≡ more
      → offset + 40 + size ≤ total
      → total < 2 ^ 63
      → has_object digest objects ≡ false
      → source_digest content ≡ digest
      → decode_objects hex_digest source_digest (suc left) rest offset total objects
        ≡ decode_objects hex_digest source_digest left more
            (offset + 40 + size)
            total
            ((digest, content) ∷ objects)
  unfolding decode_objects
  decode-step left rest offset total size digest content more objects hd hs hc hm fits small fresh
        good =
      let first : ltb total (offset + 40) ≡ false = ground (arith, fits) in
      let second : ltb total ((offset + 40 + size) % 2 ^ 64) ≡ false =
        ground (arith, fits, small) in
      let third : leb (2 ^ 63) size ≡ false = ground (arith, fits, small) in
      let same : (source_digest content == digest) ≡ true =
        (eq_iff (source_digest content) digest).1 good in
      rw (decode_objects, hd, hs, hc, hm, first, second, third, fresh, same) refl

  decode_objects-end :
      (offset total : ℕ) (objects : List (String × Bytes))
      → total ≡ offset
      → decode_objects hex_digest source_digest 0
          (encode_objects raw_digest blobs [])
          offset
          total
          objects
        ≡ unpacked objects
  unfolding decode_objects
  decode_objects-end offset total objects h = ground (arith, h)

  length-no_objects : length (encode_objects raw_digest blobs []) ≡ 0
  unfolding encode_objects
  length-no_objects = refl

  decode-header :
      (n : ℕ) (more : Bytes)
      → decode_source_pack hex_digest source_digest (magic ++ (be32 n ++ more))
        ≡ decode_objects hex_digest source_digest
            (be32_at 0 (be32 n))
            more
            12
            (length (magic ++ (be32 n ++ more)))
            []
  unfolding decode_source_pack
  decode-header n more = ground arith

  length-header : (n : ℕ) (more : Bytes) → length (magic ++ (be32 n ++ more)) ≡ 12 + length more
  length-header n more = omega arith

  length-encode_objects :
      (file : PackFile) (files : List PackFile)
      → length (raw_digest file.digest) ≡ 32
      → length (blobs file.digest) ≡ file.size
      → length (encode_objects raw_digest blobs (file ∷ files))
        ≡ 40 + file.size + length (encode_objects raw_digest blobs files)
  unfolding encode_objects
  length-encode_objects file files raw size =
      let more = encode_objects raw_digest blobs files in
      let body = blobs file.digest ++ more in
      omega (
        arith,
        raw,
        size,
        length-be64 file.size,
        length-append (raw_digest file.digest) (be64 file.size ++ body),
        length-append (be64 file.size) body,
        length-append (blobs file.digest) more,
      )

  decode_objects-encode_objects :
      (files : List PackFile) (offset total : ℕ) (objects : List (String × Bytes))
      → ArePackable objects files
      → total ≡ offset + length (encode_objects raw_digest blobs files)
      → total < 2 ^ 63
      → decode_objects hex_digest source_digest
          (length files)
          (encode_objects raw_digest blobs files)
          offset
          total
          objects
        ≡ unpacked (gathered blobs files objects)
  unfolding gathered be64 encode_objects
  decode_objects-encode_objects [] offset total objects packable sum small =
      decode_objects-end offset total objects (omega (arith, sum, length-no_objects))
  decode_objects-encode_objects (file ∷ files) offset total objects
        (raw, hexed, size, good, fresh, rest) sum small =
      let more = encode_objects raw_digest blobs files in
      let content = blobs file.digest in
      let tail = be64 file.size ++ (content ++ more) in
      let (front, back) = behind_digest (raw_digest file.digest) tail raw in
      let long = length-encode_objects file files raw size in
      let body : drop 8 (drop 32 (encode_objects raw_digest blobs (file ∷ files)))
          ≡ content ++ more =
        ap (drop 8) back ∙ drop-append (be64 file.size) (content ++ more) in
      decode-step (length files) (encode_objects raw_digest blobs (file ∷ files)) offset total
        file.size file.digest content more objects (ap hex_digest front ∙ hexed)
        (ap (be64_at 0) back
          ∙ be64_at-be64 file.size (content ++ more) (omega (arith, sum, small, long)))
        (ap (take file.size) body
          ∙ ap (λ n. take n (content ++ more)) (sym size)
          ∙ take-append content more)
        (ap (drop file.size) body
          ∙ ap (λ n. drop n (content ++ more)) (sym size)
          ∙ drop-append content more)
        (omega (arith, sum, long)) small fresh good
      ∙ decode_objects-encode_objects files (offset + 40 + file.size) total
          ((file.digest, content) ∷ objects) rest (omega (arith, sum, long)) small

  -- A pack of files that can be packed, of which there are fewer than 2 ^ 32 and which take fewer than
  -- 2 ^ 63 bytes, decodes to exactly their objects, and decoding does not panic.
  pub decode_source_pack-encode_source_pack :
      (files : List PackFile)
      → ArePackable [] files
      → length files < 2 ^ 32
      → length (encode_source_pack raw_digest blobs files) < 2 ^ 63
      → decode_source_pack hex_digest source_digest (encode_source_pack raw_digest blobs files)
        ≡ unpacked (gathered blobs files [])
  unfolding encode_source_pack
  decode_source_pack-encode_source_pack files packable few small =
      let more = encode_objects raw_digest blobs files in
      let n = length files % 2 ^ 32 in
      let number : be32_at 0 (be32 n) ≡ length files =
        be32_at-be32 n (omega arith) ∙ omega (arith, few) in
      let total = length (magic ++ (be32 n ++ more)) in
      decode-header n more
      ∙ ap (λ k. decode_objects hex_digest source_digest k more 12 total []) number
      ∙ decode_objects-encode_objects files 12 total [] packable (length-header n more) small
