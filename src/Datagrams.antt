-- ===== src/Datagrams.antt =====
-- The datagrams of UDP bridges: shellagent/network_bridge.go, encodeBridgeDatagrams to
-- decodeCompleteBridgeDatagram.
pub mod Codec
pub mod Assembly
pub mod RoundTrip
pub mod Transfer
pub mod Whole
use dynapp_agent.Prelude.{
  ℕ, zero, suc, ◌+◌, ◌-◌, ◌*◌, ◌/◌, ◌%◌, ◌^◌, ◌≤◌, ◌<◌, Bool, true, false, ◌||◌, ◌&&◌, List, [],
  ◌∷◌, ◌++◌, if◌then◌else◌, not, Option, none, some, nat_eq, leb, ltb, length, map,
}
use dynapp_agent.Bytes.{Bytes, take, drop, at, same_bytes, be16, be32, be16_at, be32_at}

-- bridgeDatagramBytes, bridgeDatagramHeaderBytes and maxPendingBridgeDatagrams
abbrev pub datagram_bytes : ℕ
datagram_bytes = 1000

abbrev pub header_bytes : ℕ
header_bytes = 14

abbrev pub max_pending : ℕ
max_pending = 256

-- The bytes of "DGD1".
abbrev pub magic : Bytes
magic = 68 ∷ 71 ∷ 68 ∷ 49 ∷ []

-- One frame of encodeBridgeDatagrams.
unfoldable pub encode_fragment : Bytes → ℕ → ℕ → ℕ → Bytes → Bytes
encode_fragment id message_id index count body =
    magic ++ be32 message_id ++ be16 index ++ be16 count ++ be16 (length id) ++ id ++ body

-- The loop over the fragments: `left` frames are still to be made, the next one has number `index`.
unfoldable pub encode_loop : Bytes → ℕ → ℕ → ℕ → ℕ → ℕ → Bytes → List Bytes
encode_loop id message_id size count zero index body = []
encode_loop id message_id size count (suc left) index body =
    encode_fragment id message_id index count (take size body)
    ∷ encode_loop id message_id size count left (index + 1) (drop size body)

-- fragmentCount, for a positive size.
unfoldable pub fragment_count : ℕ → ℕ → ℕ
fragment_count size bytes =
    let count = (bytes + size - 1) / size in if ltb count 1 then 1 else count

-- encodeBridgeDatagrams, with the number that the counter of messages gives.
unfoldable pub encode_datagrams : Bytes → ℕ → Bytes → List Bytes
unfolding encode_loop fragment_count
encode_datagrams id message_id body =
    let size = datagram_bytes - header_bytes - length id in
    let count = fragment_count size (length body) in
    if leb (length id) 0 || ltb 65535 (length id) || ltb 65535 (length body) || ltb size 1
    then []
    else if ltb 65535 count
    then []
    else encode_loop id message_id size count count 0 body

-- bridgeDatagramFragment
pub record Fragment : Type 0 where
  pub bridge_id : Bytes
  pub message_id : ℕ
  pub index : ℕ
  pub count : ℕ
  pub body : Bytes

-- decodeBridgeDatagram
unfoldable pub decode_fragment : Bytes → Option Fragment
decode_fragment frame =
    let index = be16_at 8 frame in
    let count = be16_at 10 frame in
    let id_length = be16_at 12 frame in
    if ltb (length frame) header_bytes
      || ltb datagram_bytes (length frame)
      || not (same_bytes (take 4 frame) magic)
    then none
    else if nat_eq count 0
        || ltb 128 count
        || leb count index
        || nat_eq id_length 0
        || ltb (length frame) (header_bytes + id_length)
    then none
    else some (record {
      bridge_id = take id_length (drop header_bytes frame);
      message_id = be32_at 4 frame;
      index = index;
      count = count;
      body = drop id_length (drop header_bytes frame);
    })
