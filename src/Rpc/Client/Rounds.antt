-- ===== src/Rpc/Client/Rounds.antt =====
-- Each round of the client's `recv_fn` over the frames of a list of responses.
use xuanqiong.Base.{
  ℕ, ◌+◌, ◌<◌, ◌≡◌, refl, sym, ap, inl, inr, subst, some, List, [], ◌∷◌, ◌++◌, length, lt→ltb,
  ge→ltb, arith,
}
use xuanqiong.Base.Words.{bytes_u32}
use xuanqiong.Util.Input.{InputBuffer, pop_limit}
use xuanqiong.Net.Connection.{read_bytes}
use xuanqiong.Rpc.Codec.{Codec}
use xuanqiong.Rpc.Codec.Contract.{Contract}
use xuanqiong.Rpc.Stream.Reading.{Reading-end, with_input, next_length, next_message}
use xuanqiong.Rpc.Client.{
  Session, Channel, Responses, with_conn, with_header, goes, header_len, header, response_len,
  response, recv_step, deliver, settle,
}
use xuanqiong.Rpc.Client.Replies.{
  Reply, frames, settled, deliveries, Spot, at_start, in_header, at_response, in_response, place,
  Going, Round, rests, moves, settles,
}

parsed :
    (codec : Codec) (d : Channel) (b : InputBuffer) (q : Reply)
    → codec.parse_header q.head_bytes ≡ some q.head
    → with_header codec d (some (q.head_bytes, b))
      ≡ goes (response_len q.head) (with_conn d (with_input d.conn (pop_limit b)))
parsed codec d b q e = rw (e, with_header) refl

module _ (codec : Codec) (responses : Responses) (stack : ℕ → ℕ) (contract : Contract codec)
    (h : Channel) (table : List (ℕ × Session)) (future : List ℕ) where
  start-Round :
      {p : ℕ} {d : Channel} (q : Reply) (qs : List Reply)
      → Going codec responses h table future at_start (q ∷ qs) p d
      → Round codec responses h table future at_start
          (q ∷ qs)
          d
          (recv_step codec responses stack header_len d)
  unfolding recv_step frames
  start-Round {p} {d} q qs g =
      let n = length q.head_bytes in
      let more = q.head_bytes ++ (bytes_u32 (length q.body) ++ (q.body ++ frames qs)) in
      let out = Round codec responses h table future at_start (q ∷ qs) d in
      elim (next_length n more stack (omega (arith, g.readable.0.head_short)) g.placed.0
        g.reading) [
          | inl (short, some_left) ↦
              subst out (sym (rw (lt→ltb (read_bytes d.conn) 4 short, g.reading.opened) refl))
                (rests (λ z. absurd (omega (arith, ap length z))))
          | inr (long, copies, b, e, val, r) ↦
              subst out (sym (rw (ge→ltb (read_bytes d.conn) 4 long, e, val) refl)) (
                moves (in_header q) qs (p + 4)
                  record {
                    reading = r;
                    placed = (g.placed.1, g.placed.2);
                    readable = g.readable;
                    pending = g.pending;
                    ends = g.ends;
                    next = g.next;
                    unwritten = g.unwritten;
                  }
                  (omega arith) refl)
        ]

  header-Round :
      {p : ℕ} {d : Channel} (q : Reply) (qs : List Reply)
      → Going codec responses h table future (in_header q) qs p d
      → Round codec responses h table future
          (in_header q)
          qs
          d
          (recv_step codec responses stack (header (length q.head_bytes)) d)
  unfolding recv_step
  header-Round {p} {d} q qs g =
      let n = length q.head_bytes in
      let more = bytes_u32 (length q.body) ++ (q.body ++ frames qs) in
      let out = Round codec responses h table future (in_header q) qs d in
      elim (next_message codec contract q.head_bytes more g.readable.0.head_short g.reading) [
        | inl (short, some_left) ↦
            subst out (sym (rw (lt→ltb (read_bytes d.conn) n short, g.reading.opened) refl))
              (rests (λ z. absurd (omega (arith, ap length z))))
        | inr (long, b, e, r) ↦
            subst out
              (sym (
                rw (ge→ltb (read_bytes d.conn) n long, e) (parsed codec d b q g.readable.0.parses)))
              (moves (at_response q) qs (p + n)
                record {
                  reading = r;
                  placed = g.placed;
                  readable = g.readable;
                  pending = g.pending;
                  ends = g.ends;
                  next = g.next;
                  unwritten = g.unwritten;
                }
                (omega arith) refl)
      ]

  response_len-Round :
      {p : ℕ} {d : Channel} (q : Reply) (qs : List Reply)
      → Going codec responses h table future (at_response q) qs p d
      → Round codec responses h table future
          (at_response q)
          qs
          d
          (recv_step codec responses stack (response_len q.head) d)
  unfolding recv_step
  response_len-Round {p} {d} q qs g =
      let n = length q.body in
      let more = q.body ++ frames qs in
      let out = Round codec responses h table future (at_response q) qs d in
      elim (next_length n more stack (omega (arith, g.readable.0.body_short)) g.placed.0
        g.reading) [
          | inl (short, some_left) ↦
              subst out (sym (rw (lt→ltb (read_bytes d.conn) 4 short, g.reading.opened) refl))
                (rests (λ z. absurd (omega (arith, ap length z))))
          | inr (long, copies, b, e, val, r) ↦
              subst out (sym (rw (ge→ltb (read_bytes d.conn) 4 long, e, val) refl)) (
                moves (in_response q) qs (p + 4)
                  record {
                    reading = r;
                    placed = g.placed.1;
                    readable = g.readable;
                    pending = g.pending;
                    ends = g.ends;
                    next = g.next;
                    unwritten = g.unwritten;
                  }
                  (omega arith) refl)
        ]

  response-Round :
      {p : ℕ} {d : Channel} (q : Reply) (qs : List Reply)
      → Going codec responses h table future (in_response q) qs p d
      → Round codec responses h table future
          (in_response q)
          qs
          d
          (recv_step codec responses stack (response q.head.request_id (length q.body)) d)
  unfolding recv_step settle deliver settled deliveries
  response-Round {p} {d} q qs g =
      let n = length q.body in
      let out = Round codec responses h table future (in_response q) qs d in
      elim (next_message codec contract q.body (frames qs) g.readable.0.body_short g.reading) [
        | inl (short, some_left) ↦
            subst out (sym (rw (lt→ltb (read_bytes d.conn) n short, g.reading.opened) refl))
              (rests (λ z. absurd (omega (arith, ap length z))))
        | inr (long, b, e, r) ↦
            subst out
              (sym
                (rw (ge→ltb (read_bytes d.conn) n long, g.pending.0, e, g.readable.0.accepts) refl))
              (settles q (p + n)
                record {
                  reading = r;
                  placed = g.placed;
                  readable = g.readable.1;
                  pending = g.pending.1;
                  ends = g.ends;
                  next = g.next;
                  unwritten = g.unwritten;
                }
                (omega arith) refl)
      ]

  -- With nothing more to come.
  end-Round :
      {p : ℕ} {d : Channel}
      → Going codec responses h table future at_start [] p d
      → Round codec responses h table future at_start [] d
          (recv_step codec responses stack header_len d)
  unfolding recv_step frames
  end-Round {p} {d} g =
      let (none_left, count) = Reading-end g.reading in
      let short : read_bytes d.conn < 4 = omega arith in
      subst (Round codec responses h table future at_start [] d)
        (sym (rw (lt→ltb (read_bytes d.conn) 4 short, g.reading.opened) refl))
        (rests (λ z. (refl, refl)))

  -- A round at any spot.
  pub round_lem :
      {p : ℕ} {d : Channel} (s : Spot) (qs : List Reply)
      → Going codec responses h table future s qs p d
      → Round codec responses h table future s qs d (recv_step codec responses stack (place s) d)
  round_lem at_start [] g = end-Round g
  round_lem at_start (q ∷ qs) g = start-Round q qs g
  round_lem (in_header q) qs g = header-Round q qs g
  round_lem (at_response q) qs g = response_len-Round q qs g
  round_lem (in_response q) qs g = response-Round q qs g
