-- ===== src/Rpc/Sending/Room.antt =====
-- server/rpc_server.cc, client/client_channel.cc, scheduler/awaitable.cc and
-- scheduler/epoll_exector.cc: `send_fn` and the epoll executor together, where the kernel takes the
-- bytes in pieces.
use xuanqiong.Base.{
  if_true, if_false, ℕ, ◌≤◌, ◌<◌, ◌≡◌, sym, ap, ◌∙◌, Bool, true, false, Option, none, some, List,
  [], ◌∷◌, ◌++◌, append_assoc, length, take, length-drop, take-append-drop, take-all, drop-all, min,
  ltb, lt→ltb, ge→ltb, dec_lt, if◌then◌else◌, arith,
}
use xuanqiong.Util.Output.{unsent}
use xuanqiong.Util.Output.Inv.{IsValid}
use xuanqiong.Net.Connection.{Connection, closed, set_write_handle}
use xuanqiong.Net.Poll.{wrote, again}
use xuanqiong.Net.Poll.Write.{IsSendable}
use xuanqiong.Net.Poll.Kernel.{Positive}
use xuanqiong.Scheduler.Event.{EventItem}
use xuanqiong.Scheduler.Awaiter.{await_write}
use xuanqiong.Scheduler.Epoll.{
  Interest, absent, reads, both, add_event, Ready, Side, reader, writer, Handled, handle_event,
}
use xuanqiong.Rpc.Sending.{Sent, waits_bytes, waits_room, ended, send_fn, send_fn_kept}

-- Events as the executor adds them, every call of epoll_ctl succeeding.
abbrev add_all : List EventItem → Interest → Interest
unfolding add_event
add_all [] i = i
add_all (e ∷ es) i = add_all es (add_event true e.type i).1

-- epoll reports room for output where it is to watch for it, and nothing else.
abbrev watches_output : Interest → Bool
watches_output absent = false
watches_output reads = false
watches_output both = true

abbrev room : Interest → Ready
room i = record { hup = false; rdhup = false; out = watches_output i; inp = false }

abbrev has_writer : List Side → Bool
has_writer [] = false
has_writer (writer ∷ ss) = true
has_writer (reader ∷ ss) = has_writer ss

-- Where output is watched for, the writing coroutine is resumed, and it no longer is.
room_lem :
    (c : Connection)
    → c.is_dummy ≡ false
    → handle_event true c both (room both)
      ≡ record { conn = c; interest = reads; resumed = writer ∷ []; cleared = false }
unfolding handle_event
room_lem c n = if_false c.is_dummy _ _ n

module _ (iov_max address handle : ℕ) where
  -- Where the coroutine waits for room, its awaiter's events are added, and it goes on if the
  -- executor then resumes it; the interest and the connection are the executor's.
  unfoldable until_room :
      (Connection → Interest → List ℕ → Option (Sent × Interest))
      → Interest
      → Option Sent
      → Option (Sent × Interest)
  unfolding add_all handle_event await_write
  until_room go i none = none
  until_room go i (some (waits_bytes d out)) = some (waits_bytes d out, i)
  until_room go i (some (ended d out)) = some (ended d out, i)
  until_room go i (some (waits_room d out)) =
      let w = await_write address handle d true in
      let j = add_all w.events i in
      let h = handle_event true w.conn j (room j) in
      let next = go h.conn h.interest out in if has_writer h.resumed then next else none

  -- At each `async_write` the kernel takes so many bytes, or all that there are, and then would
  -- block. `none`: it is not resumed, or there are more calls than numbers.
  unfoldable pub send_pieces : List ℕ → Connection → Interest → List ℕ → Option (Sent × Interest)
  unfolding send_fn until_room
  send_pieces [] c i out = none
  send_pieces (n ∷ ns) c i out =
      let k = min n (length (unsent c.write_buf)) in
      until_room (send_pieces ns) i (send_fn iov_max handle ((wrote k ∷ again ∷ []) ∷ []) c out)

  resumed_lem :
      (go : Connection → Interest → List ℕ → Option (Sent × Interest)) (d : Connection)
      (out : List ℕ)
      → d.is_dummy ≡ false
      → d.write_handle ≡ some handle
      → until_room go reads (some (waits_room d out)) ≡ go d reads out
  unfolding until_room await_write set_write_handle add_all add_event handle_event
  resumed_lem go d out n h =
      let q : set_write_handle d handle ≡ d =
        ap {A = Option ℕ} (λ t. record d { write_handle = t }) (sym h) in
      ap {A = Handled} (λ e. if has_writer e.resumed then go e.conn e.interest out else none)
        (room_lem (set_write_handle d handle) n)
      ∙ ap (λ t. go t reads out) q

  -- The calls of `async_write` give everything, in order.
  Drained : Connection → List ℕ → Option (Sent × Interest) → Type 0
  Drained c all r =
      (d : Connection) × (r ≡ some (waits_bytes d all, reads))
      × (unsent d.write_buf ≡ [])
      × IsValid d.write_buf
      × (d ≡ record c { write_buf = d.write_buf; write_handle = some handle })

  Drained-later :
      {all all' : List ℕ} {r' : Option (Sent × Interest)} (c d : Connection)
      (r : Option (Sent × Interest))
      → d ≡ record c { write_buf = d.write_buf; write_handle = some handle }
      → r' ≡ r
      → all ≡ all'
      → Drained d all r
      → Drained c all' r'
  unfolding Drained
  Drained-later c d r same f e (x, run, none_left, v, kept) = (
    x,
    f ∙ run ∙ ap (λ z. some (waits_bytes x z, reads)) e,
    none_left,
    v,
    kept
        ∙ ap {A = Connection}
            (λ t. record t { write_buf = x.write_buf; write_handle = some handle }) same,
  )

  -- Take an open poll connection that is not the executor's own, with a valid write buffer of 1
  -- to 2 ^ 31 - 1 unsent bytes in no more blocks than IOV_MAX, which epoll watches for input. Let
  -- ::writev take a positive number of bytes, or all that there are, and then block, each time;
  -- let every call of epoll_ctl succeed; and let epoll report room for output whenever it watches
  -- for it. If this goes on for as many times as there are unsent bytes, the writing coroutine,
  -- suspended with its awaiter's event added and resumed by the executor each time, gives the
  -- kernel exactly the unsent bytes, in order and once each. It then waits for bytes, on a valid
  -- buffer with nothing unsent, and epoll watches for input alone; nothing of the connection but
  -- its write buffer and the handle of the coroutine has changed.
  pub buffer_drained :
      (ns : List ℕ) (c : Connection) (out : List ℕ)
      → c.is_dummy ≡ false
      → closed c ≡ false
      → IsSendable iov_max c.write_buf
      → 0 < length (unsent c.write_buf)
      → Positive ns
      → length (unsent c.write_buf) ≤ length ns
      → (d : Connection) × (send_pieces ns c reads out
          ≡ some (waits_bytes d (out ++ unsent c.write_buf), reads))
        × (unsent d.write_buf ≡ [])
        × IsValid d.write_buf
        × (d ≡ record c { write_buf = d.write_buf; write_handle = some handle })
  unfolding send_pieces Drained until_room
  buffer_drained [] c out n o s p pos l = absurd (omega arith)
  buffer_drained (k ∷ ks) c out n o s p pos l =
      let u = unsent c.write_buf in
      let m = min k (length u) in
      let (d, run, left, can, same) = send_fn_kept iov_max handle m [] c out o s p (omega arith) in
      let go = send_pieces ks in
      elim (dec_lt m (length u)) [
        | yes more ↦
            let e = ap some (if_true (ltb m (length u)) _ _ (lt→ltb m (length u) more)) in
            let r =
              ap (until_room go reads) (run ∙ e)
              ∙ resumed_lem go d (out ++ take m u) (ap (λ t. t.is_dummy) same ∙ n)
                  (ap (λ t. t.write_handle) same) in
            let parts =
              append_assoc out (take m u) (unsent d.write_buf)
              ∙ ap (λ z. out ++ (take m u ++ z)) left
              ∙ ap (λ z. out ++ z) (take-append-drop m u) in
            let few = length-drop m u in
            Drained-later c d _ same r parts (
              buffer_drained ks d (out ++ take m u) (ap (λ t. t.is_dummy) same ∙ n)
                (ap closed same ∙ o) can (omega (arith, ap length left)) pos.1
                (let q = pos.0 in omega (arith, ap length left)))
        | no all ↦
            let e = ap some (if_false (ltb m (length u)) _ _ (ge→ltb m (length u) (omega arith))) in
            (
              d,
              ap (until_room go reads) (run ∙ e)
                  ∙ ap (λ z. some (waits_bytes d (out ++ z), reads)) (take-all m u (omega arith)),
              left ∙ drop-all m u (omega arith),
              can.valid,
              same,
            )
      ]
