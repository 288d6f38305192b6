-- ===== src/Rpc/Server/Session.antt =====
-- The server's `recv_fn` from one request to the next, however their bytes arrive.
use xuanqiong.Base.{
  ℕ, ◌*◌, ◌^◌, ◌≤◌, ◌<◌, ◌≡◌, refl, sym, ap, ◌∙◌, subst, false, Option, some, List, [], ◌∷◌, ◌++◌,
  append-nil, length, length-drop, take, drop, min, arith,
}
use xuanqiong.Util.Input.{unread, get_buffer}
use xuanqiong.Util.Input.Inv
use xuanqiong.Util.Output.{unsent}
use xuanqiong.Util.Output.Inv.{IsValid}
use xuanqiong.Net.Connection.{Connection, closed}
use xuanqiong.Net.Poll.{Awaiter, async_read}
use xuanqiong.Rpc.Codec.{Codec, Services}
use xuanqiong.Rpc.Codec.Contract.{Contract}
use xuanqiong.Rpc.Server.{header_len}
use xuanqiong.Rpc.Server.Requests.{
  Asked, AllServed, requests, responses, Aligned, Spot, at_start, place, owed, rounds_left,
}
use xuanqiong.Rpc.Server.Going.{Going}
use xuanqiong.Rpc.Server.Loop.{Halt, paused, recv_fn}
use xuanqiong.Net.Poll.Kernel.{offered, Positive}
use xuanqiong.Rpc.Stream.Reading.{async_read-Reading}
use xuanqiong.Rpc.Server.Stop.{IsWriter, Stop, Stops, loop_lem}

module _ (codec : Codec) (services : Services) (write : Connection → Connection × List ℕ)
    (stack : ℕ → ℕ) (contract : Contract codec) (writer : IsWriter write) where
  -- A call of `async_read` that the kernel answers with some of the bytes to come.
  read_lem :
      {future total : List ℕ} {s : Spot} {qs : List Asked} {p : ℕ} {c : Connection} (n : ℕ)
      → Going codec services future total s qs p c
      → let k = min n (get_buffer c.read_buf).1 in
        (a : Awaiter) × (async_read c (offered (take k future)) ≡ some a)
        × Going codec services (drop k future) total s qs p a.conn
        × (a.resumed_write ≡ false)
  read_lem {future} {total} {s} {qs} n g =
      let (a, e, r, w, quiet) = async_read-Reading n g.reading in
      (
        a,
        e,
        record {
          reading = r;
          placed = g.placed;
          served = g.served;
          writable = subst IsValid (sym w) g.writable;
          answered = ap (λ z. unsent z ++ owed codec s qs) w ∙ g.answered;
        },
        quiet,
      )

  -- Every request is answered.
  Finished : Option Halt → List ℕ → Type 0
  Finished r total =
      (d : Connection) × (out : List ℕ) × (r ≡ some (paused header_len d out))
      × (out ++ unsent d.write_buf ≡ total)
      × (unread d.read_buf ≡ [])
      × Inv.IsValid d.read_buf
      × IsValid d.write_buf
      × (closed d ≡ false)

  Stop-Finished :
      {out total : List ℕ} {l : ℕ} {r : Option Halt}
      → Stop codec services write stack contract writer [] out total l r
      → Finished r (out ++ total)
  unfolding Finished responses
  Stop-Finished {out} {total} {l} {r} s =
      let (e, f, u) = s.over refl in
      let g : Going codec services [] s.to_send at_start [] s.at s.conn =
        subst (λ qs. Going codec services [] s.to_send at_start qs s.at s.conn) f
          (subst (λ t. Going codec services [] s.to_send t s.rest s.at s.conn) e s.going) in
      (
        s.conn,
        s.sent,
        s.stopped ∙ ap (λ t. some (paused (place t) s.conn s.sent)) e,
        ap (λ z. s.sent ++ z) (sym (append-nil (unsent s.conn.write_buf)) ∙ g.answered) ∙ s.account,
        u,
        g.reading.readable,
        g.writable,
        g.reading.opened,
      )

  run_lem :
      (fuel : ℕ) (ns input : List ℕ) (s : Spot) (qs : List Asked) (p : ℕ) (c : Connection)
      (total out : List ℕ)
      → Going codec services input total s qs p c
      → rounds_left s qs < fuel
      → Positive ns
      → length input ≤ length ns
      → Finished (recv_fn codec services write stack fuel ns input (place s) c out) (out ++ total)
  unfolding recv_fn Finished Stops
  run_lem fuel [] [] s qs p c total out g l h m =
      Stop-Finished
        (loop_lem codec services write stack contract writer [] fuel s qs p c total out g l)
  run_lem fuel [] (x ∷ xs) s qs p c total out g l h m = absurd (omega arith)
  run_lem fuel (n ∷ ns) input s qs p c total out g l h m =
      let st =
        loop_lem codec services write stack contract writer input fuel s qs p c total out g l in
      let (a, e, g', quiet) = read_lem n st.going in
      let room = st.going.reading.readable.chain.room in
      let k = min n (get_buffer st.conn.read_buf).1 in
      let size : length (drop k input) ≤ length ns = omega (arith, length-drop k input, h.0) in
      let f =
        run_lem fuel ns (drop k input) st.spot st.rest st.at a.conn st.to_send st.sent g'
          (let w = st.fewer in omega arith) h.1 size in
      rw (st.stopped, e, quiet)
        (subst
          (Finished (
            recv_fn codec services write stack fuel ns (drop k input) (place st.spot) a.conn
              st.sent))
          st.account f)

  -- Let the protobuf runtime keep its contract with streams, and let the writing coroutine, when
  -- it is resumed, only give bytes off the front of the write buffer to the kernel. Take an open
  -- connection with valid buffers, at the place where `recv_fn` waits for a header's length; let
  -- its unread bytes, followed by those that the kernel holds or that are to arrive, be the
  -- frames of a list of requests that the server serves, fewer than 2 ^ 64 bytes, of which no
  -- length reaches from one block into the next. However the bytes arrive, if one at least is
  -- there at each `async_read` until all were read, then with four rounds for each request and
  -- one more `recv_fn` returns to that place, in an open connection: no byte is unread, both
  -- buffers are valid, and the bytes given to the kernel followed by the unsent ones are those
  -- that were unsent before followed by one response frame for each request, in order.
  pub requests_answered :
      (fuel : ℕ) (ns input : List ℕ) (qs : List Asked) (c : Connection)
      → Inv.IsValid c.read_buf
      → IsValid c.write_buf
      → closed c ≡ false
      → AllServed codec services qs
      → Aligned c.read_buf.cur.begin qs
      → unread c.read_buf ++ input ≡ requests qs
      → length (requests qs) < 2 ^ 64
      → Positive ns
      → length input ≤ length ns
      → 4 * length qs < fuel
      → (d : Connection) × (out : List ℕ) × (recv_fn codec services write stack fuel ns input
            header_len c []
          ≡ some (paused header_len d out))
        × (out ++ unsent d.write_buf ≡ unsent c.write_buf ++ responses codec qs)
        × (unread d.read_buf ≡ [])
        × Inv.IsValid d.read_buf
        × IsValid d.write_buf
        × (closed d ≡ false)
  unfolding Finished
  requests_answered fuel ns input qs c v w o a al u sm h m l =
      let g : Going codec services input (unsent c.write_buf ++ responses codec qs) at_start qs
          c.read_buf.cur.begin c =
        record {
          reading = record {
            readable = v;
            begins = let b = v.chain.partly in omega arith;
            comes = u;
            small = sm;
            opened = o;
          };
          placed = al;
          served = a;
          writable = w;
          answered = refl;
        } in
      run_lem fuel ns input at_start qs c.read_buf.cur.begin c
        (unsent c.write_buf ++ responses codec qs) [] g l h m
