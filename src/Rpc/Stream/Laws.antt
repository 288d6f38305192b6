-- ===== src/Rpc/Stream/Laws.antt =====
-- Messages written to and read from the buffers of a connection.
use xuanqiong.Base.{
  ℕ, ◌+◌, ◌%◌, ◌^◌, ◌≤◌, ◌<◌, ◌≡◌, sym, ap, ◌∙◌, true, some, List, ◌++◌, append_assoc, length, take,
  drop, take-append, drop-append,
}
use xuanqiong.Base.Words.{read_u32, bytes_u32, read_u32-bytes_u32}
use xuanqiong.Util.Input.{
  InputBuffer, Copy, fetch_uint32, int32_max, push_limit, pop_limit, unread, available,
}
use xuanqiong.Util.Input.Fetch.{fetch_uint32_whole}
use xuanqiong.Util.Output.{OutputBuffer, unsent}
use xuanqiong.Util.Output.Inv.{IsValid}
use xuanqiong.Util.Output.Write.{append_lem}
use xuanqiong.Util.Input.Inv
use xuanqiong.Rpc.Codec.{Codec}
use xuanqiong.Rpc.Codec.Contract.{Contract, Parsed_lem, Parsed-begin, Written_lem}
use xuanqiong.Util.Block.{block_size}
use xuanqiong.Rpc.Stream.{fetched_value, read_message, send_message, send_frame, frame}

-- A length that lies in one block is read as it was sent.
pub fetch_sent :
    (b : InputBuffer) (stack : ℕ → ℕ) (n : ℕ) (rest : List ℕ)
    → Inv.IsValid b
    → 4 ≤ b.read_bytes
    → 4 ≤ available b
    → n < 2 ^ 32
    → unread b ≡ bytes_u32 n ++ rest
    → (copies : List Copy) × (b' : InputBuffer) × (fetch_uint32 b ≡ some (true, copies, b'))
      × (fetched_value stack copies ≡ n)
      × (unread b' ≡ rest)
      × Inv.IsValid b'
      × (b'.cur.begin ≡ (b.cur.begin + 4) % block_size)
unfolding fetched_value bytes_u32
fetch_sent b stack n rest v h k small u =
    let (copies, b', e, val, t, w, at) = fetch_uint32_whole b stack v h k in
    let four : take 4 (unread b) ≡ bytes_u32 n = ap (take 4) u ∙ take-append (bytes_u32 n) rest in
    (
      copies,
      b',
      e,
      ap read_u32 (val ∙ four) ∙ read_u32-bytes_u32 n small,
      sym (drop-append (bytes_u32 n) (unread b'))
          ∙ ap (λ z. drop 4 (z ++ unread b')) (sym four)
          ∙ ap (drop 4) (sym t ∙ u)
          ∙ drop-append (bytes_u32 n) rest,
      w,
      at,
    )

module _ (codec : Codec) (contract : Contract codec) where
  -- A length and a message sent stand behind the unsent bytes.
  send_message_lem :
      (b : OutputBuffer) (xs : List ℕ)
      → IsValid b
      → (b' : OutputBuffer) × (send_message codec b xs ≡ some b')
        × (unsent b' ≡ unsent b ++ bytes_u32 (length xs) ++ xs)
        × IsValid b'
  unfolding send_message
  send_message_lem b xs v =
      let (c, e, u, w) = append_lem b (bytes_u32 (length xs)) v in
      let (d, f, p) = contract.writes c xs w in
      let (t, w') = Written_lem p w in (d, rw e f, t ∙ ap (λ z. z ++ xs) u, w')

  -- For a protobuf runtime that keeps its contract with streams, and a valid write buffer:
  -- sending a header and a body, each behind its length, returns, and has put the bytes of both
  -- lengths and both messages behind the unsent ones in that order, and the buffer is valid.
  pub send_frame_lem :
      (b : OutputBuffer) (header body : List ℕ)
      → IsValid b
      → (b' : OutputBuffer) × (send_frame codec b header body ≡ some b')
        × (unsent b' ≡ unsent b ++ frame header body)
        × IsValid b'
  unfolding send_frame frame
  send_frame_lem b header body v =
      let (c, e, u, w) = send_message_lem b header v in
      let (d, f, t, w') = send_message_lem c body w in (d, rw e f, t ∙ rw u (simp append_assoc), w')

  -- For a protobuf runtime that keeps its contract with streams, and a valid read buffer whose
  -- unread bytes are a message's, fewer than INT32_MAX, followed by `rest`: reading a message of
  -- that length returns exactly its bytes, and after `pop_limit` exactly `rest` is unread in a
  -- valid buffer, and the index of the first unread byte in its block has moved on by the
  -- message's length, modulo the block size.
  pub read_message_lem :
      (b : InputBuffer) (xs rest : List ℕ)
      → Inv.IsValid b
      → length xs < int32_max
      → unread b ≡ xs ++ rest
      → (b' : InputBuffer) × (read_message codec b (length xs) ≡ some (xs, b'))
        × (unread (pop_limit b') ≡ rest)
        × Inv.IsValid (pop_limit b')
        × ((pop_limit b').cur.begin ≡ (b.cur.begin + length xs) % block_size)
  unfolding read_message push_limit pop_limit
  read_message_lem b xs rest v h u =
      let (ys, b', e, p) =
        contract.reads (push_limit b (length xs)) (Inv.IsValid-with_limit b (length xs) v) h in
      let (t, d, w) = Parsed_lem p (Inv.IsValid-with_limit b (length xs) v) h in
      (
        b',
        e ∙ ap (λ z. some (z, b')) (t ∙ ap (take (length xs)) u ∙ take-append xs rest),
        d ∙ ap (drop (length xs)) u ∙ drop-append xs rest,
        Inv.IsValid-with_limit b' int32_max w,
        Parsed-begin p (Inv.IsValid-with_limit b (length xs) v)
            ∙ ap (λ k. (b.cur.begin + k) % block_size)
                (ap length (t ∙ ap (take (length xs)) u ∙ take-append xs rest)),
      )
