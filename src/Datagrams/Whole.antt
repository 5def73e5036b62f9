-- ===== src/Datagrams/Whole.antt =====
-- What a bridge sends as fragments arrives as one datagram: encodeBridgeDatagrams and
-- decodeCompleteBridgeDatagram of shellagent/network_bridge.go.
use dynapp_agent.Prelude.{
  ℕ, zero, suc, ◌+◌, ◌-◌, ◌*◌, ◌/◌, ◌^◌, ◌≤◌, ◌<◌, ◌≡◌, refl, List, [], ◌∷◌, ◌++◌, Option, none,
  some, leb, length, length-append, arith, Bool-cases, inl, inr, sym, ap, ◌∙◌, subst, append_assoc,
}
use native.Mathlib.Nat.{div-mul-le_self, lt-div-mul-add, div-lt_iff_lt-mul}
use dynapp_agent.Types.Numbers.{Time}
use dynapp_agent.Bytes.{Bytes, take, drop, length-take, length-drop, take-all, take-drop}
use dynapp_agent.Datagrams.{
  encode_loop, encode_datagrams, fragment_count, datagram_bytes, header_bytes,
}
use dynapp_agent.Datagrams.Codec.{decode_fragment-encode_fragment}
use dynapp_agent.Datagrams.Assembly.{Pending, find_assembly, join, decode_complete, receive_all}
use dynapp_agent.Datagrams.RoundTrip.{AllFilled, AllFilled-append_one, join-append_one}
use dynapp_agent.Datagrams.Transfer.{
  IsReady, FitsId, start, after_part, after_part-IsReady, decode-waiting, decode_complete_frame,
}

-- Frames with the times at which they come, of which a clock gives the one of each place.
unfoldable pub stamp : (ℕ → Time) → ℕ → List Bytes → List (Time × Bytes)
stamp clock k [] = []
stamp clock k (frame ∷ frames) = (clock k, frame) ∷ stamp clock (k + 1) frames

-- What a frame completes, followed by what the rest does.
gather : Option (Bytes × Bytes) × Pending → List (Time × Bytes) → List (Bytes × Bytes)
gather (none, pending) frames = (receive_all pending frames).0
gather (some datagram, pending) frames = datagram ∷ (receive_all pending frames).0

gather_eta :
    (got : Option (Bytes × Bytes) × Pending) (frames : List (Time × Bytes))
    → elim got.0 [
      | none ↦ (receive_all got.1 frames).0
      | some datagram ↦ datagram ∷ (receive_all got.1 frames).0
    ]
      ≡ gather got frames
unfolding gather
gather_eta (none, pending) frames = refl
gather_eta (some datagram, pending) frames = refl

receive-cons :
    (now : Time) (pending : Pending) (frame : Bytes) (frames : List (Time × Bytes))
    → (receive_all pending ((now, frame) ∷ frames)).0
      ≡ gather (decode_complete now pending frame) frames
unfolding receive_all
receive-cons now pending frame frames = gather_eta (decode_complete now pending frame) frames

receive-none :
    (now : Time) (pending next : Pending) (frame : Bytes) (frames : List (Time × Bytes))
    → decode_complete now pending frame ≡ (none, next)
    → (receive_all pending ((now, frame) ∷ frames)).0 ≡ (receive_all next frames).0
unfolding gather
receive-none now pending next frame frames h =
    receive-cons now pending frame frames ∙ ap (λ got. gather got frames) h

gather-last :
    (got : Option (Bytes × Bytes) × Pending) (datagram : Bytes × Bytes)
    → got.0 ≡ some datagram
    → gather got [] ≡ datagram ∷ []
unfolding gather receive_all
gather-last (none, pending) datagram h = absurd (ground (arith, h))
gather-last (some d, pending) datagram h = let same : d ≡ datagram = cc h in ap (λ x. x ∷ []) same

receive-last :
    (now : Time) (pending : Pending) (frame : Bytes) (datagram : Bytes × Bytes)
    → (decode_complete now pending frame).0 ≡ some datagram
    → (receive_all pending ((now, frame) ∷ [])).0 ≡ datagram ∷ []
receive-last now pending frame datagram h =
    receive-cons now pending frame [] ∙ gather-last (decode_complete now pending frame) datagram h

module _ (clock : ℕ → Time) (id : Bytes) (message_id count size : ℕ) where
  -- A part that is not the last is full.
  full_part :
      (left : ℕ) (body : Bytes)
      → suc left * size < length body
      → length body ≤ suc (suc left) * size
      → (length (take size body) ≡ size)
        × ((left * size < length (drop size body)) × (length (drop size body) ≤ suc left * size))
  full_part left body lo hi =
      let bound : size < length body = grind arith in
      (
        length-take size body (omega arith),
        (grind (arith, length-drop size body, bound), grind (arith, length-drop size body, bound)),
      )

  receive-encode_loop :
      (left : ℕ) (parts : List Bytes) (body : Bytes) (pending : Pending)
      → ((k : ℕ) → clock (k + 1) - clock k ≤ 2_000_000_000)
      → FitsId (clock (length parts)) id message_id count
      → length id + size ≤ 986
      → 0 < size
      → length parts + suc left ≡ count
      → 2 ≤ count
      → count ≤ 128
      → IsReady (clock (length parts)) id message_id count parts (suc left) pending
      → AllFilled parts
      → left * size < length body
      → length body ≤ suc left * size
      → length (join parts) + length body ≤ 65535
      → (receive_all pending (
          stamp clock
            (length parts)
            (encode_loop id message_id size count (suc left) (length parts) body))).0
        ≡ (id, join parts ++ body) ∷ []
  unfolding encode_loop stamp
  receive-encode_loop zero parts body pending paced fit small pos n two m r a lo hi total =
      let all : take size body ≡ body = take-all size body (grind arith) in
      rw all (
        receive-last (clock (length parts)) pending _ _ (
          decode_complete_frame (clock (length parts)) id message_id count parts body pending fit
            (grind arith) (omega (arith, n)) (omega (arith, n)) m r a (grind arith) total))
  receive-encode_loop (suc left) parts body pending paced fit small pos n two m r a lo hi total =
      let now = clock (length parts) in
      let part = take size body in
      let (full, (lo', hi')) = full_part left body lo hi in
      let filled : 0 < length part = omega (arith, full) in
      let (rest, e) =
        decode-waiting now id message_id count parts left part pending fit (omega (arith, full))
          (omega (arith, n)) m r a filled (grind (arith, full)) in
      let parts' = parts ++ part ∷ [] in
      let next = after_part now id message_id parts' (suc left) rest in
      let more : length parts' ≡ length parts + 1 = length-append parts (part ∷ []) in
      let rebuilt : join parts' ++ drop size body ≡ join parts ++ body =
        ap (λ l. l ++ drop size body) (join-append_one parts part)
        ∙ append_assoc (join parts) part (drop size body)
        ∙ ap (λ l. join parts ++ l) (take-drop size body) in
      let sizes : length (join parts') ≡ length (join parts) + length part =
        ap length (join-append_one parts part) ∙ length-append (join parts) part in
      receive-none now pending next _ _ e
      ∙ ap
          (λ (k : ℕ).
            (receive_all next (
              stamp clock k
                (encode_loop id message_id size count (suc left) k (drop size body)))).0)
          (sym more)
      ∙ receive-encode_loop left parts' (drop size body) next paced fit small pos
          (omega (arith, n, more)) two m
          (after_part-IsReady (clock (length parts')) id message_id count now parts' (suc left) rest
            (subst (λ (k : ℕ). clock k - now ≤ 2_000_000_000) (sym more) (paced (length parts)))
            (omega (arith, n, more)))
          (AllFilled-append_one parts part a filled) lo' hi'
          (omega (arith, total, sizes, length-drop size body, full))
      ∙ ap (λ l. (id, l) ∷ []) rebuilt

-- The bounds of a number of fragments.
abbrev IsCount : ℕ → ℕ → ℕ → Type 0
IsCount size bytes count =
    (left : ℕ) × ((count ≡ suc (suc left))
      × ((suc left * size < bytes) × ((bytes ≤ suc (suc left) * size) × (suc (suc left) ≤ 128))))

quotient_bounds :
    (size bytes q : ℕ)
    → 512 ≤ size
    → size < bytes
    → bytes ≤ 65535
    → q * size ≤ bytes + size - 1
    → bytes + size - 1 < q * size + size
    → IsCount size bytes q
quotient_bounds size bytes zero h l b lo hi = absurd (omega arith)
quotient_bounds size bytes (suc zero) h l b lo hi = absurd (omega arith)
quotient_bounds size bytes (suc (suc left)) h l b lo hi =
    let below : suc left * size < bytes = grind arith in
    let small : suc left * 512 ≤ suc left * size = grind arith in
    (left, (refl, (below, (grind arith, omega arith))))

-- The number of fragments of a body that does not fit into one.
fragment_count-bounds :
    (size bytes : ℕ)
    → 512 ≤ size
    → size < bytes
    → bytes ≤ 65535
    → IsCount size bytes (fragment_count size bytes)
unfolding fragment_count
fragment_count-bounds size bytes h l b =
    let q : ℕ = (bytes + size - 1) / size in
    let (left, (e, rest)) =
      quotient_bounds size bytes q h l b (div-mul-le_self (bytes + size - 1) size)
        (lt-div-mul-add (omega arith)) in
    (left, (ground (arith, e), rest))

-- A body that fits into one fragment.
fragment_count_small : (size bytes : ℕ) → 0 < size → bytes ≤ size → fragment_count size bytes ≡ 1
unfolding fragment_count
fragment_count_small size bytes h b =
    let upper : (bytes + size - 1) / size < 2 = (div-lt_iff_lt-mul h).1 (omega arith) in
    ground (arith, upper)

-- The size of the parts under an id.
abbrev size_of : Bytes → ℕ
size_of id = datagram_bytes - header_bytes - length id

guards_open :
    (id : Bytes) (message_id : ℕ) (body : Bytes) (count : ℕ)
    → 0 < length id
    → length id ≤ 474
    → length body ≤ 65535
    → fragment_count (size_of id) (length body) ≡ count
    → count ≤ 65535
    → encode_datagrams id message_id body
      ≡ encode_loop id message_id (size_of id) count count 0 body
unfolding encode_datagrams
guards_open id message_id body count h0 h1 h2 e c = rw (e, encode_datagrams) (ground arith)

receive-single :
    (clock : ℕ → Time) (id : Bytes) (message_id : ℕ) (body : Bytes) (pending : Pending)
    → 0 < length id
    → length body ≤ size_of id
    → length id ≤ 474
    → message_id < 2 ^ 32
    → (receive_all pending (stamp clock 0 (encode_loop id message_id (size_of id) 1 1 0 body))).0
      ≡ (id, body) ∷ []
unfolding encode_loop decode_complete stamp
receive-single clock id message_id body pending h0 h1 h2 h3 =
    let all : take (size_of id) body ≡ body = take-all (size_of id) body h1 in
    let read =
      decode_fragment-encode_fragment id message_id 0 1 body h0 (omega (arith, h1, h2))
        (omega arith) (omega arith) h3 in
    rw all (receive-last (clock 0) pending _ _ (rw (read, decode_complete) refl))

receive-many :
    (clock : ℕ → Time) (id : Bytes) (message_id : ℕ) (body : Bytes) (pending : Pending)
    → ((k : ℕ) → clock (k + 1) - clock k ≤ 2_000_000_000)
    → 0 < length id
    → length id ≤ 474
    → message_id < 2 ^ 32
    → length body ≤ 65535
    → find_assembly id message_id pending ≡ none
    → (count : ℕ) → IsCount (size_of id) (length body) count
    → (receive_all pending
        (stamp clock 0 (encode_loop id message_id (size_of id) count count 0 body))).0
      ≡ (id, body) ∷ []
unfolding join
receive-many clock id message_id body pending paced h0 h1 h2 h3 h4 count
      (left, (e, (lo, (hi, m)))) =
    subst
      (λ (n : ℕ).
        (receive_all pending
          (stamp clock 0 (encode_loop id message_id (size_of id) count n 0 body))).0
        ≡ (id, body) ∷ [])
      (sym e)
      (receive-encode_loop clock id message_id count (size_of id) (suc left) [] body pending paced
        (h0, h2) (omega (arith, h1)) (omega (arith, h1)) (omega (arith, e)) (omega (arith, e))
        (omega (arith, e, m))
        (subst (λ n. IsReady (clock 0) id message_id count [] n pending) e
          (start (clock 0) id message_id count pending h4))
        tt lo hi (omega (arith, h3)))

-- A body of at most 65535 bytes, sent under an id of 1 to 474 bytes and a message number that no
-- half-received datagram of this id has, arrives as that one body, once all its frames have come in
-- order, each at most two seconds after the one before.
pub receive_all-encode_datagrams :
    (clock : ℕ → Time) (id : Bytes) (message_id : ℕ) (body : Bytes) (pending : Pending)
    → ((k : ℕ) → clock (k + 1) - clock k ≤ 2_000_000_000)
    → 0 < length id
    → length id ≤ 474
    → message_id < 2 ^ 32
    → length body ≤ 65535
    → find_assembly id message_id pending ≡ none
    → (receive_all pending (stamp clock 0 (encode_datagrams id message_id body))).0
      ≡ (id, body) ∷ []
receive_all-encode_datagrams clock id message_id body pending paced h0 h1 h2 h3 h4 =
    let size = size_of id in
    elim (Bool-cases (leb (length body) size)) [
      | inl fits ↦
          let one =
            fragment_count_small size (length body) (omega (arith, h1)) (ground (arith, fits)) in
          ap (λ frames. (receive_all pending (stamp clock 0 frames)).0)
            (guards_open id message_id body 1 h0 h1 h3 one (omega arith))
          ∙ receive-single clock id message_id body pending h0 (ground (arith, fits)) h1 h2
      | inr big ↦
          let bounds =
            fragment_count-bounds size (length body) (omega (arith, h1)) (ground (arith, big)) h3 in
          let count = fragment_count size (length body) in
          ap (λ frames. (receive_all pending (stamp clock 0 frames)).0)
            (guards_open id message_id body count h0 h1 h3 refl
              (omega (arith, bounds.1.0, bounds.1.1.1.1)))
          ∙ receive-many clock id message_id body pending paced h0 h1 h2 h3 h4 count bounds
    ]
