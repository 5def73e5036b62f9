-- ===== src/Datagrams/Codec.antt =====
-- One datagram of a bridge, written and read back.
use dynapp_agent.Prelude.{ℕ, ◌+◌, ◌^◌, ◌≤◌, ◌<◌, ◌≡◌, some, length, length-append, arith}
use dynapp_agent.Bytes.{
  Bytes, be16, be32, be16_at, be32_at, take-append, drop-append, be16_at-be16, be32_at-be32,
}
use dynapp_agent.Datagrams.{encode_fragment, decode_fragment}

-- The frame of a fragment that fits into a datagram and counts at most 128 fragments is read back as
-- that fragment.
pub decode_fragment-encode_fragment :
    (id : Bytes) (message_id index count : ℕ) (body : Bytes)
    → 0 < length id
    → length id + length body ≤ 986
    → index < count
    → count ≤ 128
    → message_id < 2 ^ 32
    → decode_fragment (encode_fragment id message_id index count body)
      ≡ some (record {
        bridge_id = id;
        message_id = message_id;
        index = index;
        count = count;
        body = body;
      })
unfolding decode_fragment encode_fragment
decode_fragment-encode_fragment id message_id index count body h0 h1 h2 h3 h4 =
    let e1 : be16_at 0 (be16 index) ≡ index = be16_at-be16 index (omega arith) in
    let e2 : be16_at 0 (be16 count) ≡ count = be16_at-be16 count (omega arith) in
    let e3 : be16_at 0 (be16 (length id)) ≡ length id = be16_at-be16 (length id) (omega arith) in
    let e4 : be32_at 0 (be32 message_id) ≡ message_id = be32_at-be32 message_id h4 in
    rw (e1, e2, e3, e4, take-append id body, drop-append id body)
      (ground (arith, length-append id body))
