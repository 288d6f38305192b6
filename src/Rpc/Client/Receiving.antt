-- ===== src/Rpc/Client/Receiving.antt =====
-- A round of the client's `recv_fn` at a response's bytes.
use xuanqiong.Base.{
  ℕ, ◌+◌, ◌^◌, ◌≤◌, ◌<◌, ◌≡◌, refl, ap, ◌∙◌, true, none, some, List, ◌++◌, length, length-append,
  append_assoc, ge→ltb, arith,
}
use xuanqiong.Base.Words.{bytes_u32}
use xuanqiong.Util.Input.{available, unread, int32_max, pop_limit}
use xuanqiong.Util.Input.Inv.{IsValid, read_bytes_count}
use xuanqiong.Net.Connection.{read_bytes}
use xuanqiong.Rpc.Codec.{Codec}
use xuanqiong.Rpc.Codec.Contract.{Contract}
use xuanqiong.Rpc.Stream.Laws.{fetch_sent, read_message_lem}
use xuanqiong.Rpc.Client.{
  Session, Channel, find, erase, Responses, goes, handles, header, header_len, response, recv_step,
  deliver, settle,
}
use xuanqiong.Rpc.Client.Sessions.{find-erase}

length-bytes_u32 : (n : ℕ) (xs : List ℕ) → length (bytes_u32 n ++ xs) ≡ 4 + length xs
unfolding bytes_u32
length-bytes_u32 n xs = omega arith

module _ (codec : Codec) (responses : Responses) (stack : ℕ → ℕ) (h : Channel) (rest : List ℕ)
    (v : IsValid h.conn.read_buf) (few : length (unread h.conn.read_buf) < 2 ^ 64) where
  -- Let the protobuf runtime keep its contract with streams. At the place where the client's
  -- `recv_fn` waits for a response: let the read buffer be valid, its unread bytes be fewer than
  -- 2 ^ 64 and be the response's, fewer than INT32_MAX, followed by `rest`; let the id have a
  -- session, and its message take the bytes. Then the round hands exactly those bytes to that
  -- session, exactly `rest` stays unread in a valid buffer with no limit set, the id has no
  -- session any more, and the write buffer is as it was.
  response_lem :
      (contract : Contract codec) (id : ℕ) (s : Session) (xs : List ℕ)
      → length xs < int32_max
      → find id h.sessions ≡ some s
      → responses.accepts s.response xs ≡ true
      → unread h.conn.read_buf ≡ xs ++ rest
      → (d : Channel) × (recv_step codec responses stack (response id (length xs)) h
          ≡ handles s xs d)
        × (unread d.conn.read_buf ≡ rest)
        × (d.conn.read_buf.limit ≡ int32_max)
        × IsValid d.conn.read_buf
        × (find id d.sessions ≡ none)
        × (d.conn.write_buf ≡ h.conn.write_buf)
  unfolding recv_step settle deliver pop_limit
  response_lem contract id s xs small f p u =
      let enough : length xs ≤ h.conn.read_buf.read_bytes =
        omega (arith, read_bytes_count h.conn.read_buf v few, ap length u, length-append xs rest) in
      let (b, e, t, w, at) = read_message_lem codec contract h.conn.read_buf xs rest v small u in
      (
        record h {
          conn = record h.conn { read_buf = pop_limit b };
          sessions = erase id h.sessions;
        },
        rw (ge→ltb (read_bytes h.conn) (length xs) enough, f, e, p),
        t,
        refl,
        w,
        find-erase id h.sessions,
        refl,
      )

  -- Let the client's read buffer be valid, its unread bytes be fewer than 2 ^ 64 and be a
  -- response's followed by `rest`, the first four of the response, which lie in the current
  -- block, being those of a number `n` below 2 ^ 32; and let the response's id have no session.
  -- Then the response is not consumed, and the next round takes its first four bytes for the
  -- length of a header, with the other ones and `rest` unread.
  pub stray_response_misread :
      (id n : ℕ) (xs : List ℕ)
      → n < 2 ^ 32
      → 4 ≤ available h.conn.read_buf
      → find id h.sessions ≡ none
      → unread h.conn.read_buf ≡ (bytes_u32 n ++ xs) ++ rest
      → (d : Channel) × (recv_step codec responses stack
            (response id (length (bytes_u32 n ++ xs)))
            h
          ≡ goes header_len h)
        × (recv_step codec responses stack header_len h ≡ goes (header n) d)
        × (unread d.conn.read_buf ≡ xs ++ rest)
  unfolding recv_step settle
  stray_response_misread id n xs small whole f u =
      let enough : length (bytes_u32 n ++ xs) ≤ h.conn.read_buf.read_bytes = omega (
        arith,
        read_bytes_count h.conn.read_buf v few,
        ap length u,
        length-append (bytes_u32 n ++ xs) rest,
      ) in
      let four : 4 ≤ h.conn.read_buf.read_bytes = omega (arith, enough, length-bytes_u32 n xs) in
      let (copies, b, e, val, t, w, at) =
        fetch_sent h.conn.read_buf stack n (xs ++ rest) v four whole small
          (u ∙ append_assoc (bytes_u32 n) xs rest) in
      (
        record h { conn = record h.conn { read_buf = b } },
        rw (ge→ltb (read_bytes h.conn) (length (bytes_u32 n ++ xs)) enough, f),
        rw (ge→ltb (read_bytes h.conn) 4 four, e, val),
        t,
      )
