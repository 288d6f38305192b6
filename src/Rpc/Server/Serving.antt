-- ===== src/Rpc/Server/Serving.antt =====
-- A round of the server's `recv_fn` at each place: what it consumes, and what it answers.
use xuanqiong.Base.{
  ℕ, ◌+◌, ◌%◌, ◌^◌, ◌≤◌, ◌<◌, ◌≡◌, refl, ap, some, List, ◌++◌, length, length-append, ge→ltb, arith,
}
use xuanqiong.Base.Words.{bytes_u32}
use xuanqiong.Util.Block.{block_size}
use xuanqiong.Util.Input.{available, unread, int32_max, pop_limit}
use xuanqiong.Util.Input.Inv.{read_bytes_count}
use xuanqiong.Util.Input.Inv
use xuanqiong.Util.Output.{unsent}
use xuanqiong.Util.Output.Inv.{IsValid}
use xuanqiong.Net.Connection.{Connection, read_bytes}
use xuanqiong.Rpc.Codec.{Codec, Services, Header, magic_num, version_num}
use xuanqiong.Rpc.Stream.{frame}
use xuanqiong.Rpc.Codec.Contract.{Contract}
use xuanqiong.Rpc.Stream.Laws.{fetch_sent, read_message_lem, send_frame_lem}
use xuanqiong.Rpc.Server.{
  header_len, header, request_len, request, goes, answers, response_header, check_header,
  find_target, dispatch, respond, recv_step,
}

module _ (codec : Codec) (services : Services) (stack : ℕ → ℕ) (c : Connection) (rest : List ℕ)
    (v : Inv.IsValid c.read_buf) (few : length (unread c.read_buf) < 2 ^ 64) where
  -- At the place where `recv_fn` waits for a header's length: let the read buffer be valid, its
  -- unread bytes be fewer than 2 ^ 64 and be those of a number `n` below 2 ^ 32 followed by
  -- `rest`, with four of them at least in the current block. Then the round goes on to a header
  -- of `n` bytes, whatever stood in the variable before: exactly `rest` stays unread in a valid
  -- buffer, and the write buffer and the socket are as they were.
  pub header_len_lem :
      (n : ℕ)
      → n < 2 ^ 32
      → 4 ≤ available c.read_buf
      → unread c.read_buf ≡ bytes_u32 n ++ rest
      → (d : Connection) × (recv_step codec services stack header_len c ≡ goes (header n) d)
        × (unread d.read_buf ≡ rest)
        × Inv.IsValid d.read_buf
        × (d.write_buf ≡ c.write_buf)
        × (d.socket ≡ c.socket)
        × (d.read_buf.cur.begin ≡ (c.read_buf.cur.begin + 4) % block_size)
  unfolding recv_step bytes_u32
  header_len_lem n small whole u =
      let four : 4 ≤ c.read_buf.read_bytes =
        omega (arith, read_bytes_count c.read_buf v few, ap length u) in
      let (copies, b, e, val, t, w, at) = fetch_sent c.read_buf stack n rest v four whole small u in
      (record c { read_buf = b }, rw (ge→ltb (read_bytes c) 4 four, e, val), t, w, refl, refl, at)

  -- Let the protobuf runtime keep its contract with streams. At the place where `recv_fn` waits
  -- for a header: let the read buffer be valid, its unread bytes be fewer than 2 ^ 64 and be the
  -- header's, fewer than INT32_MAX, followed by `rest`, and let them parse to a header with
  -- MAGIC_NUM and VERSION. Then the round goes on to that header's request length: exactly `rest`
  -- stays unread in a valid buffer with no limit set, and the write buffer and the socket are as
  -- they were.
  pub header_lem :
      (contract : Contract codec) (h : Header) (xs : List ℕ)
      → length xs < int32_max
      → codec.parse_header xs ≡ some h
      → h.magic ≡ magic_num
      → h.version ≡ version_num
      → unread c.read_buf ≡ xs ++ rest
      → (d : Connection) × (recv_step codec services stack (header (length xs)) c
          ≡ goes (request_len h) d)
        × (unread d.read_buf ≡ rest)
        × (d.read_buf.limit ≡ int32_max)
        × Inv.IsValid d.read_buf
        × (d.write_buf ≡ c.write_buf)
        × (d.socket ≡ c.socket)
        × (d.read_buf.cur.begin ≡ (c.read_buf.cur.begin + length xs) % block_size)
  unfolding recv_step check_header pop_limit
  header_lem contract h xs small p m n u =
      let enough : length xs ≤ c.read_buf.read_bytes =
        omega (arith, read_bytes_count c.read_buf v few, ap length u, length-append xs rest) in
      let (b, e, t, w, at) = read_message_lem codec contract c.read_buf xs rest v small u in
      (
        record c { read_buf = pop_limit b },
        rw (ge→ltb (read_bytes c) (length xs) enough, e, p, m, n),
        t,
        refl,
        w,
        refl,
        refl,
        at,
      )

  -- At the place where `recv_fn` waits for a request's length: let the read buffer be valid, its
  -- unread bytes be fewer than 2 ^ 64 and be those of a number `n` below 2 ^ 32 followed by
  -- `rest`, with four of them at least in the current block, and let the header's service and
  -- method be found. Then the round goes on to a request of `n` bytes for that method: exactly
  -- `rest` stays unread in a valid buffer, and the write buffer and the socket are as they were.
  pub request_len_lem :
      (h : Header) (m n : ℕ)
      → n < 2 ^ 32
      → 4 ≤ available c.read_buf
      → find_target codec services h ≡ some m
      → unread c.read_buf ≡ bytes_u32 n ++ rest
      → (d : Connection) × (recv_step codec services stack (request_len h) c
          ≡ goes (request h m n) d)
        × (unread d.read_buf ≡ rest)
        × Inv.IsValid d.read_buf
        × (d.write_buf ≡ c.write_buf)
        × (d.socket ≡ c.socket)
        × (d.read_buf.cur.begin ≡ (c.read_buf.cur.begin + 4) % block_size)
  unfolding recv_step bytes_u32 dispatch
  request_len_lem h m n small whole f u =
      let four : 4 ≤ c.read_buf.read_bytes =
        omega (arith, read_bytes_count c.read_buf v few, ap length u) in
      let (copies, b, e, val, t, w, at) = fetch_sent c.read_buf stack n rest v four whole small u in
      (
        record c { read_buf = b },
        rw (ge→ltb (read_bytes c) 4 four, e, val, f),
        t,
        w,
        refl,
        refl,
        at,
      )

  -- Let the protobuf runtime keep its contract with streams. At the place where `recv_fn` waits
  -- for a request of a found method: let the connection's buffers be valid, its unread bytes be
  -- fewer than 2 ^ 64 and be the request's, fewer than INT32_MAX, followed by `rest`, and let the
  -- method make `body` of the request. Then the round answers: exactly `rest` stays unread, with
  -- no limit set, and the write buffer gains one frame, whose header is a response's with the
  -- request's id and whose body is `body`. Both buffers stay valid, and the socket is as it was;
  -- the index of the first unread byte in its block moves on by the request's length, modulo the
  -- block size.
  pub request_lem :
      (contract : Contract codec) (h : Header) (m : ℕ) (xs body : List ℕ)
      → IsValid c.write_buf
      → length xs < int32_max
      → services.serve m xs ≡ some body
      → unread c.read_buf ≡ xs ++ rest
      → (d : Connection) × (recv_step codec services stack (request h m (length xs)) c ≡ answers d)
        × (unread d.read_buf ≡ rest)
        × (d.read_buf.limit ≡ int32_max)
        × Inv.IsValid d.read_buf
        × (unsent d.write_buf
            ≡ unsent c.write_buf ++ frame (codec.print_header (response_header h)) body)
        × IsValid d.write_buf
        × (d.socket ≡ c.socket)
        × (d.read_buf.cur.begin ≡ (c.read_buf.cur.begin + length xs) % block_size)
  unfolding recv_step respond pop_limit
  request_lem contract h m xs body vw small s u =
      let enough : length xs ≤ c.read_buf.read_bytes =
        omega (arith, read_bytes_count c.read_buf v few, ap length u, length-append xs rest) in
      let (b, e, t, w, at) = read_message_lem codec contract c.read_buf xs rest v small u in
      let (o, f, a, w') =
        send_frame_lem codec contract c.write_buf (codec.print_header (response_header h)) body
          vw in
      (
        record c { read_buf = pop_limit b; write_buf = o },
        rw (ge→ltb (read_bytes c) (length xs) enough, e, s, f),
        t,
        refl,
        w,
        a,
        w',
        refl,
        at,
      )
