-- ===== src/Rpc/Server/Rounds.antt =====
-- Each round of the server's `recv_fn` over the frames of a list of requests.
use xuanqiong.Base.{
  ℕ, ◌+◌, ◌<◌, ◌≡◌, refl, sym, ap, ◌∙◌, subst, List, [], ◌∷◌, ◌++◌, append_assoc, length,
  length-append, lt→ltb, dec_lt, arith,
}
use xuanqiong.Base.Words.{bytes_u32}
use xuanqiong.Util.Input.{unread}
use xuanqiong.Util.Input.Position.{four_available}
use xuanqiong.Util.Output.{unsent}
use xuanqiong.Util.Output.Inv.{IsValid}
use xuanqiong.Net.Connection.{Connection, read_bytes}
use xuanqiong.Rpc.Codec.{Codec, Services}
use xuanqiong.Rpc.Codec.Contract.{Contract}
use xuanqiong.Rpc.Server.{header_len, header, request_len, request, recv_step}
use xuanqiong.Rpc.Server.Serving.{header_len_lem, header_lem, request_len_lem, request_lem}
use xuanqiong.Rpc.Server.Requests.{
  Asked, requests, response_of, responses, Spot, at_start, in_header, at_request, in_request, place,
  owed,
}
use xuanqiong.Rpc.Stream.Reading.{split_front, nil_front, length-bytes_u32, counts}
use xuanqiong.Rpc.Server.Going.{Going, Round, rests, moves, replies}

module _ (codec : Codec) (services : Services) (stack : ℕ → ℕ) (contract : Contract codec)
    (future total : List ℕ) where
  start-Round :
      {p : ℕ} {c : Connection} (q : Asked) (qs : List Asked)
      → Going codec services future total at_start (q ∷ qs) p c
      → Round codec services future total at_start
          (q ∷ qs)
          c
          (recv_step codec services stack header_len c)
  unfolding recv_step requests responses bytes_u32
  start-Round {p} {c} q qs g =
      let (few, count, sum) = counts g.reading in
      let more = q.head_bytes ++ (bytes_u32 (length q.body) ++ (q.body ++ requests qs)) in
      let all : length (unread c.read_buf) + length future
          ≡ length (bytes_u32 (length q.head_bytes) ++ more) =
        sum in
      let l = length-bytes_u32 (length q.head_bytes) more in
      elim (dec_lt (read_bytes c) 4) [
        | yes short ↦
            subst (Round codec services future total at_start (q ∷ qs) c)
              (sym (rw (lt→ltb (read_bytes c) 4 short, g.reading.opened) refl))
              (rests (λ z. absurd (omega (arith, ap length z))))
        | no long ↦
            let (u, f) =
              split_front (unread c.read_buf) future (bytes_u32 (length q.head_bytes)) more
                g.reading.comes (omega arith) in
            let whole =
              four_available c.read_buf g.reading.readable.chain
                (omega (arith, g.reading.begins, g.placed.0)) (omega arith) in
            let (d, e, t, v, w, k, at) =
              header_len_lem codec services stack c _ g.reading.readable few (length q.head_bytes)
                (omega (arith, g.served.0.head_short)) whole u in
            subst (Round codec services future total at_start (q ∷ qs) c) (sym e) (
              moves (in_header q) qs (p + 4)
                record {
                  reading = record {
                    readable = v;
                    begins = at ∙ omega (arith, g.reading.begins);
                    comes = ap (λ z. z ++ future) t ∙ f;
                    small = omega (arith, g.reading.small);
                    opened = ap (λ z. z.closed) k ∙ g.reading.opened;
                  };
                  placed = (g.placed.1, g.placed.2);
                  served = g.served;
                  writable = subst IsValid (sym w) g.writable;
                  answered = ap (λ z. unsent z ++ owed codec (in_header q) qs) w ∙ g.answered;
                }
                (omega arith))
      ]

  header-Round :
      {p : ℕ} {c : Connection} (q : Asked) (qs : List Asked)
      → Going codec services future total (in_header q) qs p c
      → Round codec services future total
          (in_header q)
          qs
          c
          (recv_step codec services stack (header (length q.head_bytes)) c)
  unfolding recv_step bytes_u32
  header-Round {p} {c} q qs g =
      let (few, count, sum) = counts g.reading in
      let n = length q.head_bytes in
      let more = bytes_u32 (length q.body) ++ (q.body ++ requests qs) in
      let all : length (unread c.read_buf) + length future ≡ n + length more =
        sum ∙ length-append q.head_bytes more in
      elim (dec_lt (read_bytes c) n) [
        | yes short ↦
            subst (Round codec services future total (in_header q) qs c)
              (sym (rw (lt→ltb (read_bytes c) n short, g.reading.opened) refl))
              (rests (λ z. absurd (omega (arith, ap length z))))
        | no long ↦
            let (u, f) =
              split_front (unread c.read_buf) future q.head_bytes more g.reading.comes
                (omega arith) in
            let s = g.served.0 in
            let (d, e, t, l, v, w, k, at) =
              header_lem codec services stack c _ g.reading.readable few contract q.head
                q.head_bytes s.head_short s.parses s.magic s.version u in
            subst (Round codec services future total (in_header q) qs c) (sym e) (
              moves (at_request q) qs (p + n)
                record {
                  reading = record {
                    readable = v;
                    begins = at ∙ omega (arith, g.reading.begins);
                    comes = ap (λ z. z ++ future) t ∙ f;
                    small = omega (arith, g.reading.small, length-append q.head_bytes more);
                    opened = ap (λ z. z.closed) k ∙ g.reading.opened;
                  };
                  placed = g.placed;
                  served = g.served;
                  writable = subst IsValid (sym w) g.writable;
                  answered = ap (λ z. unsent z ++ owed codec (at_request q) qs) w ∙ g.answered;
                }
                (omega arith))
      ]

  request_len-Round :
      {p : ℕ} {c : Connection} (q : Asked) (qs : List Asked)
      → Going codec services future total (at_request q) qs p c
      → Round codec services future total
          (at_request q)
          qs
          c
          (recv_step codec services stack (request_len q.head) c)
  unfolding recv_step bytes_u32
  request_len-Round {p} {c} q qs g =
      let (few, count, sum) = counts g.reading in
      let more = q.body ++ requests qs in
      let all : length (unread c.read_buf) + length future
          ≡ length (bytes_u32 (length q.body) ++ more) =
        sum in
      let l = length-bytes_u32 (length q.body) more in
      elim (dec_lt (read_bytes c) 4) [
        | yes short ↦
            subst (Round codec services future total (at_request q) qs c)
              (sym (rw (lt→ltb (read_bytes c) 4 short, g.reading.opened) refl))
              (rests (λ z. absurd (omega (arith, ap length z))))
        | no long ↦
            let (u, f) =
              split_front (unread c.read_buf) future (bytes_u32 (length q.body)) more
                g.reading.comes (omega arith) in
            let whole =
              four_available c.read_buf g.reading.readable.chain
                (omega (arith, g.reading.begins, g.placed.0)) (omega arith) in
            let (d, e, t, v, w, k, at) =
              request_len_lem codec services stack c _ g.reading.readable few q.head q.method
                (length q.body) (omega (arith, g.served.0.body_short)) whole g.served.0.found u in
            subst (Round codec services future total (at_request q) qs c) (sym e) (
              moves (in_request q) qs (p + 4)
                record {
                  reading = record {
                    readable = v;
                    begins = at ∙ omega (arith, g.reading.begins);
                    comes = ap (λ z. z ++ future) t ∙ f;
                    small = omega (arith, g.reading.small);
                    opened = ap (λ z. z.closed) k ∙ g.reading.opened;
                  };
                  placed = g.placed.1;
                  served = g.served;
                  writable = subst IsValid (sym w) g.writable;
                  answered = ap (λ z. unsent z ++ owed codec (in_request q) qs) w ∙ g.answered;
                }
                (omega arith))
      ]

  request-Round :
      {p : ℕ} {c : Connection} (q : Asked) (qs : List Asked)
      → Going codec services future total (in_request q) qs p c
      → Round codec services future total
          (in_request q)
          qs
          c
          (recv_step codec services stack (request q.head q.method (length q.body)) c)
  unfolding recv_step
  request-Round {p} {c} q qs g =
      let (few, count, sum) = counts g.reading in
      let n = length q.body in
      let all : length (unread c.read_buf) + length future ≡ n + length (requests qs) =
        sum ∙ length-append q.body (requests qs) in
      elim (dec_lt (read_bytes c) n) [
        | yes short ↦
            subst (Round codec services future total (in_request q) qs c)
              (sym (rw (lt→ltb (read_bytes c) n short) refl))
              (rests (λ z. absurd (omega (arith, ap length z))))
        | no long ↦
            let (u, f) =
              split_front (unread c.read_buf) future q.body (requests qs) g.reading.comes
                (omega arith) in
            let s = g.served.0 in
            let (d, e, t, l, v, a, w, k, at) =
              request_lem codec services stack c _ g.reading.readable few contract q.head q.method
                q.body q.reply g.writable s.body_short s.serves u in
            subst (Round codec services future total (in_request q) qs c) (sym e) (
              replies (p + n)
                record {
                  reading = record {
                    readable = v;
                    begins = at ∙ omega (arith, g.reading.begins);
                    comes = ap (λ z. z ++ future) t ∙ f;
                    small = omega (arith, g.reading.small, length-append q.body (requests qs));
                    opened = ap (λ z. z.closed) k ∙ g.reading.opened;
                  };
                  placed = g.placed;
                  served = g.served.1;
                  writable = w;
                  answered =
                      ap (λ z. z ++ responses codec qs) a
                      ∙ append_assoc (unsent c.write_buf) (response_of codec q) (responses codec qs)
                      ∙ g.answered;
                }
                (omega arith))
      ]

  -- With nothing more to come.
  end-Round :
      {p : ℕ} {c : Connection}
      → Going codec services future total at_start [] p c
      → Round codec services future total at_start [] c
          (recv_step codec services stack header_len c)
  unfolding recv_step requests
  end-Round {p} {c} g =
      let (few, count, sum) = counts g.reading in
      let none = nil_front (unread c.read_buf) future g.reading.comes in
      let short : read_bytes c < 4 = omega (arith, count, ap length none) in
      subst (Round codec services future total at_start [] c)
        (sym (rw (lt→ltb (read_bytes c) 4 short, g.reading.opened) refl))
        (rests (λ z. (refl, refl, none)))

  -- A round at any spot.
  pub round_lem :
      {p : ℕ} {c : Connection} (s : Spot) (qs : List Asked)
      → Going codec services future total s qs p c
      → Round codec services future total s qs c (recv_step codec services stack (place s) c)
  round_lem at_start [] g = end-Round g
  round_lem at_start (q ∷ qs) g = start-Round q qs g
  round_lem (in_header q) qs g = header-Round q qs g
  round_lem (at_request q) qs g = request_len-Round q qs g
  round_lem (in_request q) qs g = request-Round q qs g
