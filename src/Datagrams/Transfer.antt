-- ===== src/Datagrams/Transfer.antt =====
-- One fragment more: decodeCompleteBridgeDatagram of shellagent/network_bridge.go on a part that is
-- not the last, and on the last.
use dynapp_agent.Prelude.{
  ℕ, suc, ◌+◌, ◌-◌, ◌^◌, ◌≤◌, ◌<◌, ◌≡◌, refl, List, [], ◌∷◌, ◌++◌, none, some, length,
  length-append, arith, ap, ◌∙◌,
}
use dynapp_agent.Types.Numbers.{Time}
use dynapp_agent.Bytes.{Bytes}
use dynapp_agent.Datagrams.{Fragment, encode_fragment}
use dynapp_agent.Datagrams.Codec.{decode_fragment-encode_fragment}
use dynapp_agent.Datagrams.Assembly.{
  Pending, waiting, complete, find_assembly, drop_assembly, sweep_assemblies, set_at, judge, join,
  start_assembly, settle, add_fragment, decode_complete,
}
use dynapp_agent.Datagrams.RoundTrip.{
  partial, length-partial, set_at-partial, AllFilled, AllFilled-append_one, join-append_one,
  judge-partial, judge-full, partial-zero, find-head, sweep-head, find-sweep_none,
}

-- The state after a part that is not the last.
unfoldable pub after_part : Time → Bytes → ℕ → List Bytes → ℕ → Pending → Pending
after_part now id message_id parts left rest =
    ((id, message_id), record { fragments = partial parts left; updated_at = now }) ∷ rest

module _ (now : Time) (id : Bytes) (message_id count : ℕ) where
  abbrev pub fragment : ℕ → Bytes → Fragment
  fragment index body = record {
    bridge_id = id;
    message_id = message_id;
    index = index;
    count = count;
    body = body;
  }

  -- The map holds the parts so far, and no more, for the datagram.
  abbrev pub IsReady : List Bytes → ℕ → Pending → Type 0
  IsReady parts left pending =
      (start_assembly (fragment 0 []) (sweep_assemblies now pending)).0 ≡ partial parts left

  others_of : Pending → Pending
  others_of pending = (start_assembly (fragment 0 []) (sweep_assemblies now pending)).1

  pub start :
      (pending : Pending) → find_assembly id message_id pending ≡ none → IsReady [] count pending
  unfolding start_assembly partial
  start pending h = rw (find-sweep_none now id message_id pending h, start_assembly) refl

  pub after_part-IsReady :
      (before : Time) (parts : List Bytes) (left : ℕ) (rest : Pending)
      → now - before ≤ 2_000_000_000
      → length parts + left ≡ count
      → IsReady parts left (after_part before id message_id parts left rest)
  unfolding after_part start_assembly
  after_part-IsReady before parts left rest soon h =
      rw
        (
          sweep-head now before (id, message_id) (partial parts left) rest soon,
          find-head id message_id _ (sweep_assemblies now rest),
          start_assembly,
        )
        (ground (arith, length-partial parts left))

  settle-waiting :
      (f : Fragment) (parts : List Bytes) (kept without : Pending)
      → judge 0 parts ≡ waiting
      → settle f parts kept without ≡ (none, kept)
  unfolding settle
  settle-waiting f parts kept without h = rw (h, settle) refl

  settle-complete :
      (f : Fragment) (parts : List Bytes) (kept without : Pending)
      → judge 0 parts ≡ complete
      → (settle f parts kept without).0 ≡ some (f.bridge_id, join parts)
  unfolding settle
  settle-complete f parts kept without h = rw (h, settle) refl

  -- The parts with one more.
  next_parts :
      (parts : List Bytes) (left : ℕ) (part : Bytes) (pending : Pending)
      → IsReady parts (suc left) pending
      → set_at (length parts) part (start_assembly (fragment 0 []) (sweep_assemblies now pending)).0
        ≡ partial (parts ++ part ∷ []) left
  next_parts parts left part pending r =
      ap (set_at (length parts) part) r ∙ set_at-partial parts left part

  total_of :
      (parts : List Bytes) (part : Bytes)
      → length (join (parts ++ part ∷ [])) ≡ length (join parts) + length part
  total_of parts part = ap length (join-append_one parts part) ∙ length-append (join parts) part

  add-waiting :
      (parts : List Bytes) (left : ℕ) (part : Bytes) (pending : Pending)
      → IsReady parts (suc (suc left)) pending
      → AllFilled parts
      → 0 < length part
      → length (join parts) + length part ≤ 65535
      → (rest : Pending) × (add_fragment now (fragment (length parts) part) pending
          ≡ (none, after_part now id message_id (parts ++ part ∷ []) (suc left) rest))
  unfolding add_fragment after_part others_of start_assembly
  add-waiting parts left part pending r a h b =
      let f = fragment (length parts) part in
      let without = drop_assembly id message_id (others_of pending) in
      let filled = AllFilled-append_one parts part a h in
      (
        without,
        ap
              (λ (l : List Bytes).
                settle f l
                  (((id, message_id), record { fragments = l; updated_at = now }) ∷ without)
                  without)
              (next_parts parts (suc left) part pending r)
            ∙ settle-waiting f (partial (parts ++ part ∷ []) (suc left)) _ without (
                judge-partial (parts ++ part ∷ []) 0 left filled
                  (omega (arith, total_of parts part))),
      )

  add_complete :
      (parts : List Bytes) (part : Bytes) (pending : Pending)
      → IsReady parts 1 pending
      → AllFilled parts
      → 0 < length part
      → length (join parts) + length part ≤ 65535
      → (add_fragment now (fragment (length parts) part) pending).0 ≡ some (id, join parts ++ part)
  unfolding add_fragment others_of start_assembly
  add_complete parts part pending r a h b =
      let f = fragment (length parts) part in
      let without = drop_assembly id message_id (others_of pending) in
      let filled = AllFilled-append_one parts part a h in
      ap
        (λ (l : List Bytes).
          (settle f l (((id, message_id), record { fragments = l; updated_at = now }) ∷ without)
            without).0)
        (next_parts parts 0 part pending r)
      ∙ settle-complete f (partial (parts ++ part ∷ []) 0) _ without
          (judge-full (parts ++ part ∷ []) 0 filled (omega (arith, total_of parts part)))
      ∙ ap (λ l. some (id, l))
          (ap join (partial-zero (parts ++ part ∷ [])) ∙ join-append_one parts part)

  -- The frames of a datagram are numbers that fit.
  abbrev pub FitsId : Type 0
  FitsId = (0 < length id) × (message_id < 2 ^ 32)

  pub decode-waiting :
      (parts : List Bytes) (left : ℕ) (part : Bytes) (pending : Pending)
      → FitsId
      → length id + length part ≤ 986
      → length parts + suc (suc left) ≡ count
      → count ≤ 128
      → IsReady parts (suc (suc left)) pending
      → AllFilled parts
      → 0 < length part
      → length (join parts) + length part ≤ 65535
      → (rest : Pending) × (decode_complete now pending
            (encode_fragment id message_id (length parts) count part)
          ≡ (none, after_part now id message_id (parts ++ part ∷ []) (suc left) rest))
  unfolding decode_complete
  decode-waiting parts left part pending fit small n m r a h b =
      let (rest, e) = add-waiting parts left part pending r a h b in
      let read =
        decode_fragment-encode_fragment id message_id (length parts) count part fit.0 small
          (omega (arith, n)) m fit.1 in
      (rest, rw (read, decode_complete) (ground (arith, e, n)))

  pub decode_complete_frame :
      (parts : List Bytes) (part : Bytes) (pending : Pending)
      → FitsId
      → length id + length part ≤ 986
      → length parts + 1 ≡ count
      → 0 < length parts
      → count ≤ 128
      → IsReady parts 1 pending
      → AllFilled parts
      → 0 < length part
      → length (join parts) + length part ≤ 65535
      → (decode_complete now pending (encode_fragment id message_id (length parts) count part)).0
        ≡ some (id, join parts ++ part)
  unfolding decode_complete
  decode_complete_frame parts part pending fit small n p m r a h b =
      let e = add_complete parts part pending r a h b in
      let read =
        decode_fragment-encode_fragment id message_id (length parts) count part fit.0 small
          (omega (arith, n)) m fit.1 in
      rw (read, decode_complete) (ground (arith, e, n))
