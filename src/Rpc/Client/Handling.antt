-- ===== src/Rpc/Client/Handling.antt =====
-- The client's `recv_fn` from one response to the next, however their bytes arrive.
use xuanqiong.Base.{
  ℕ, zero, suc, ◌*◌, ◌^◌, ◌≤◌, ◌<◌, ◌≡◌, refl, sym, ap, ◌∙◌, subst, false, Option, some, List, [],
  ◌∷◌, ◌++◌, append-nil, append_assoc, length, length-drop, take, drop, min, arith,
}
use xuanqiong.Util.Input.{unread, get_buffer}
use xuanqiong.Util.Input.Inv.{IsValid}
use xuanqiong.Net.Connection.{closed}
use xuanqiong.Net.Poll.{Awaiter, async_read}
use xuanqiong.Net.Poll.Kernel.{offered, Positive}
use xuanqiong.Rpc.Codec.{Codec}
use xuanqiong.Rpc.Codec.Contract.{Contract}
use xuanqiong.Rpc.Stream.Reading.{Reading-end, async_read-Reading}
use xuanqiong.Rpc.Client.{Session, Channel, Responses, with_conn, header_len, Outcome}
use xuanqiong.Rpc.Client.Replies.{
  Reply, AllReplies, Pending, settled, frames, deliveries, Aligned, open_replies, Spot, at_start,
  place, rounds_left, Going, Round, rests, moves, settles,
}
use xuanqiong.Rpc.Client.Loop.{Halt, paused, after_round, recv_loop, recv_fn}
use xuanqiong.Rpc.Client.Rounds.{round_lem}

module _ (codec : Codec) (responses : Responses) (stack : ℕ → ℕ) (contract : Contract codec)
    (h : Channel) (table : List (ℕ × Session)) where
  -- The sessions handled so far and those to be handled are `all`.
  record Stop (future : List ℕ) (all : List (Session × List ℕ)) (left : ℕ) (r : Option Halt)
      : Type 0 where
    spot : Spot
    rest : List Reply
    at : ℕ
    channel : Channel
    handled : List (Session × List ℕ)
    stopped : r ≡ some (paused (place spot) channel handled)
    going : Going codec responses h table future spot rest at channel
    account : handled ++ deliveries (open_replies spot rest) ≡ all
    fewer : rounds_left spot rest ≤ left
    over : future ≡ [] → (spot ≡ at_start) × (rest ≡ [])

  Stop-weaken :
      {future : List ℕ} {all all' : List (Session × List ℕ)} {l m : ℕ} {r : Option Halt}
      → Stop future all l r
      → l ≤ m
      → all ≡ all'
      → Stop future all' m r
  Stop-weaken s k e = record {
    spot = s.spot;
    rest = s.rest;
    at = s.at;
    channel = s.channel;
    handled = s.handled;
    stopped = s.stopped;
    going = s.going;
    account = s.account ∙ e;
    fewer = (let f = s.fewer in omega arith);
    over = s.over;
  }

  -- The loop stops from any spot, if it has `fuel` rounds.
  Stops : ℕ → List ℕ → Type 0
  Stops fuel future =
      (s : Spot) (qs : List Reply) (p : ℕ) (d : Channel) (out : List (Session × List ℕ))
      → Going codec responses h table future s qs p d
      → rounds_left s qs < fuel
      → Stop future (out ++ deliveries (open_replies s qs)) (rounds_left s qs)
          (recv_loop codec responses stack fuel (place s) d out)

  after_lem :
      {future : List ℕ} (fuel : ℕ) (s : Spot) (qs : List Reply) (p : ℕ) (d : Channel)
      (out : List (Session × List ℕ)) {o : Outcome}
      → Stops fuel future
      → Going codec responses h table future s qs p d
      → rounds_left s qs < suc fuel
      → Round codec responses h table future s qs d o
      → Stop future (out ++ deliveries (open_replies s qs)) (rounds_left s qs) (
          after_round codec responses stack
            (recv_loop codec responses stack fuel)
            (place s)
            d
            out
            o)
  unfolding Stops
  after_lem fuel s qs p d out ih g l (rests o) = record {
    spot = s;
    rest = qs;
    at = p;
    channel = d;
    handled = out;
    stopped = refl;
    going = g;
    account = refl;
    fewer = omega arith;
    over = o;
  }
  after_lem fuel s qs p d out ih g l (moves {e} t rs p' g' f same) =
      Stop-weaken (ih t rs p' e out g' (omega arith)) (omega arith) (ap (λ z. out ++ z) same)
  after_lem fuel s qs p d out ih g l (settles {e} q p' g' f first) =
      Stop-weaken (ih at_start qs p' e (out ++ (q.session, q.body) ∷ []) g' (omega arith))
        (omega arith)
        (append_assoc out ((q.session, q.body) ∷ []) (deliveries qs)
          ∙ ap (λ z. out ++ z) (sym first))

  loop_lem : (future : List ℕ) (fuel : ℕ) → Stops fuel future
  unfolding recv_loop Stops
  loop_lem future zero s qs p d out g l = absurd (omega arith)
  loop_lem future (suc fuel) s qs p d out g l =
      after_lem fuel s qs p d out (loop_lem future fuel) g l
        (round_lem codec responses stack contract h table future s qs g)

  read_lem :
      {future : List ℕ} {s : Spot} {qs : List Reply} {p : ℕ} {d : Channel} (n : ℕ)
      → Going codec responses h table future s qs p d
      → let k = min n (get_buffer d.conn.read_buf).1 in
        (a : Awaiter) × (async_read d.conn (offered (take k future)) ≡ some a)
        × Going codec responses h table (drop k future) s qs p (with_conn d a.conn)
  read_lem n g =
      let (a, e, r, w, _) = async_read-Reading n g.reading in
      (
        a,
        e,
        record {
          reading = r;
          placed = g.placed;
          readable = g.readable;
          pending = g.pending;
          ends = g.ends;
          next = g.next;
          unwritten = w ∙ g.unwritten;
        },
      )

  -- Every response is handled.
  Finished : Option Halt → List (Session × List ℕ) → Type 0
  Finished r all =
      (d : Channel) × (r ≡ some (paused header_len d all))
      × (d.sessions ≡ table)
      × (d.next_id ≡ h.next_id)
      × (unread d.conn.read_buf ≡ [])
      × IsValid d.conn.read_buf
      × (d.conn.write_buf ≡ h.conn.write_buf)
      × (closed d.conn ≡ false)

  Stop-Finished :
      {all : List (Session × List ℕ)} {l : ℕ} {r : Option Halt} → Stop [] all l r → Finished r all
  unfolding Finished frames deliveries settled
  Stop-Finished {all} s =
      let (e, f) = s.over refl in
      let g : Going codec responses h table [] at_start [] s.at s.channel =
        subst (λ qs. Going codec responses h table [] at_start qs s.at s.channel) f
          (subst (λ t. Going codec responses h table [] t s.rest s.at s.channel) e s.going) in
      let none_left : deliveries (open_replies s.spot s.rest) ≡ [] =
        ap (λ t. deliveries (open_replies t s.rest)) e ∙ ap deliveries f in
      let done : s.handled ≡ all =
        sym (append-nil s.handled) ∙ ap (λ z. s.handled ++ z) (sym none_left) ∙ s.account in
      (
        s.channel,
        s.stopped
            ∙ ap (λ t. some (paused (place t) s.channel s.handled)) e
            ∙ ap (λ z. some (paused header_len s.channel z)) done,
        g.ends,
        g.next,
        (Reading-end g.reading).0,
        g.reading.readable,
        g.unwritten,
        g.reading.opened,
      )

  run_lem :
      (fuel : ℕ) (ns input : List ℕ) (s : Spot) (qs : List Reply) (p : ℕ) (d : Channel)
      (out : List (Session × List ℕ))
      → Going codec responses h table input s qs p d
      → rounds_left s qs < fuel
      → Positive ns
      → length input ≤ length ns
      → Finished
          (recv_fn codec responses stack fuel ns input (place s) d out)
          (out ++ deliveries (open_replies s qs))
  unfolding recv_fn Finished Stops
  run_lem fuel [] [] s qs p d out g l o m = Stop-Finished (loop_lem [] fuel s qs p d out g l)
  run_lem fuel [] (x ∷ xs) s qs p d out g l o m = absurd (omega arith)
  run_lem fuel (n ∷ ns) input s qs p d out g l o m =
      let st = loop_lem input fuel s qs p d out g l in
      let (a, e, g') = read_lem n st.going in
      let room = st.going.reading.readable.chain.room in
      let k = min n (get_buffer st.channel.conn.read_buf).1 in
      let size : length (drop k input) ≤ length ns = omega (arith, length-drop k input, o.0) in
      let f =
        run_lem fuel ns (drop k input) st.spot st.rest st.at (with_conn st.channel a.conn)
          st.handled g' (let w = st.fewer in omega arith) o.1 size in
      rw (st.stopped, e)
        (subst
          (Finished (
            recv_fn codec responses stack fuel ns (drop k input) (place st.spot)
              (with_conn st.channel a.conn) st.handled))
          st.account f)

module _ (codec : Codec) (responses : Responses) (stack : ℕ → ℕ) (contract : Contract codec) where
  -- Let the protobuf runtime keep its contract with streams. Take an open channel with a valid
  -- read buffer, at the place where `recv_fn` waits for a header's length; let its unread bytes,
  -- followed by those that are to arrive, be the frames of a list of responses that can be read,
  -- fewer than 2 ^ 64 bytes, of which no length reaches from one block into the next, and let
  -- each find its session in the table once those before it were taken out. However the bytes
  -- arrive, if one at least is there at each `async_read` until all were read, then with four
  -- rounds for each response and one more `recv_fn` returns to that place on an open channel:
  -- each response's bytes were handed to its session, in order, the ids of the responses were
  -- taken out of the table, no byte is unread, the read buffer is valid, and the next id and the
  -- write buffer are as they were.
  pub responses_handled :
      (fuel : ℕ) (ns input : List ℕ) (qs : List Reply) (h : Channel)
      → IsValid h.conn.read_buf
      → closed h.conn ≡ false
      → AllReplies codec responses qs
      → Pending qs h.sessions
      → Aligned h.conn.read_buf.cur.begin qs
      → unread h.conn.read_buf ++ input ≡ frames qs
      → length (frames qs) < 2 ^ 64
      → Positive ns
      → length input ≤ length ns
      → 4 * length qs < fuel
      → (d : Channel) × (recv_fn codec responses stack fuel ns input header_len h []
          ≡ some (paused header_len d (deliveries qs)))
        × (d.sessions ≡ settled qs h.sessions)
        × (d.next_id ≡ h.next_id)
        × (unread d.conn.read_buf ≡ [])
        × IsValid d.conn.read_buf
        × (d.conn.write_buf ≡ h.conn.write_buf)
        × (closed d.conn ≡ false)
  unfolding Finished
  responses_handled fuel ns input qs h v o a pe al u sm po m l =
      let g : Going codec responses h (settled qs h.sessions) input at_start qs
          h.conn.read_buf.cur.begin h =
        record {
          reading = record {
            readable = v;
            begins = let b = v.chain.partly in omega arith;
            comes = u;
            small = sm;
            opened = o;
          };
          placed = al;
          readable = a;
          pending = pe;
          ends = refl;
          next = refl;
          unwritten = refl;
        } in
      run_lem codec responses stack contract h (settled qs h.sessions) fuel ns input at_start qs
        h.conn.read_buf.cur.begin h [] g l po m
