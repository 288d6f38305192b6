-- ===== src/Examples/Net.antt =====
-- Sockets and connections at concrete inputs.
use mathlib.Core.List.{flatten}
use xuanqiong.Base.{◌≡◌, refl, true, false, not, ◌&&◌, some, List, [], ◌∷◌, inr, arith}
use xuanqiong.Base.Int.{pos}
use xuanqiong.Util.Input.{get_buffer, unread}
use xuanqiong.Util.Input.Inv
use xuanqiong.Util.Output
use xuanqiong.Util.Output.{append, unsent}
use xuanqiong.Util.Output.Inv.{IsValid}
use xuanqiong.Net.Connection.{closed}
use xuanqiong.Net.Poll.{ReadResult, got, eof, Awaiter, wrote, again, async_read, async_write}
use xuanqiong.Net.Poll.Read.{delivered, ends, async_read_lem}
use xuanqiong.Net.Poll.Write.{IsSendable, async_write_repeats}
use xuanqiong.Net.Uring.{UringConnection, get_sqe, submit, prep_writev, uring_send_add}
use xuanqiong.Scheduler.Event.{user_data, write}
use xuanqiong.Net.Uring
use xuanqiong.Net.Uring.Flow.{retry, complete-submit, short_completion_stalls}
use xuanqiong.Examples.Data.{two_read-IsValid, three_unsent, three_unsent-IsValid, connected}
use xuanqiong.Rpc.Sending.{send_fn, waits_bytes, send_fn_lem}
use xuanqiong.Net.Connection.{Connection}
use xuanqiong.Net.Accepter.{
  reuse_address, send_buffer, receive_buffer, keep_alive, no_delay, socket, set_option, bind,
  listen, accept, set_flags, close, Kernel, ready, open_accepter, accept_fd,
}
use xuanqiong.Net.Accepter.Closing.{Opened, open_accepter-Opened, accept_returns_closed}

-- Two bytes arrive, and the stream ends.
abbrev arrivals : List ReadResult
arrivals = got (7 ∷ 8 ∷ []) ∷ eof ∷ []

async_read_lem_example :
    (a : Awaiter) × (async_read connected arrivals ≡ some a)
    × (unread a.conn.read_buf ≡ 3 ∷ 4 ∷ 5 ∷ 6 ∷ 7 ∷ 8 ∷ [])
    × Inv.IsValid a.conn.read_buf
    × (a.conn.write_buf ≡ three_unsent)
    × (closed a.conn ≡ true)
    × (a.resumed_write ≡ closed a.conn)
    × (a.should_suspend ≡ (not (closed a.conn) && false))
    × (a.conn.read_buf.cur.begin ≡ 2)
unfolding delivered ends get_buffer
async_read_lem_example =
    async_read_lem connected arrivals two_read-IsValid (inr (omega arith, omega arith, record {}))

three_unsent-IsSendable : IsSendable 1024 three_unsent
three_unsent-IsSendable = record {
  valid = three_unsent-IsValid;
  small = omega arith;
  few_blocks = omega arith;
}

async_write_repeats_example :
    (a : Awaiter) × (async_write 1024 connected (wrote 1 ∷ wrote 2 ∷ again ∷ [])
      ≡ some (a, 2 ∷ 2 ∷ 3 ∷ []))
    × (unsent a.conn.write_buf ≡ [])
async_write_repeats_example =
    async_write_repeats 1024 connected 1 2 [] three_unsent-IsSendable (omega arith) (omega arith)

abbrev ring : UringConnection
ring = record { conn = connected; address = 4096; back_left = 0; ioves = [] }

-- Three bytes are on their way.
abbrev sending : UringConnection
sending = record ring { back_left = 3; ioves = (2 ∷ 3 ∷ 4 ∷ []) ∷ [] }

complete-submit_example :
    let started = Uring.async_write true 1024 ring in
    let s = started.conn in
    (w : Output.OutputBuffer) × (d : UringConnection) × (started.calls
      ≡ get_sqe ∷ submit ∷ get_sqe ∷ prep_writev 7 s.ioves (user_data write 4096) ∷ [])
    × (started.should_suspend ≡ true)
    × (flatten s.ioves ≡ unsent three_unsent)
    × (s.back_left ≡ 3)
    × (append s.conn.write_buf (7 ∷ 8 ∷ []) ≡ some w)
    × (uring_send_add 4 (record s { conn = record s.conn { write_buf = w } }) (pos 3) ≡ some d)
    × (d.back_left ≡ 0)
    × (unsent d.conn.write_buf ≡ 7 ∷ 8 ∷ [])
    × IsValid d.conn.write_buf
complete-submit_example =
    complete-submit true 1024 ring (7 ∷ 8 ∷ []) three_unsent-IsValid refl (omega arith)
      (omega arith) (omega arith)

short_completion_stalls_example :
    (d : UringConnection) × (uring_send_add 2 sending (pos 1) ≡ some d)
    × (unsent d.conn.write_buf ≡ 3 ∷ 4 ∷ [])
    × (retry (false ∷ true ∷ []) 1024 d ≡ [] ∷ [] ∷ [])
short_completion_stalls_example =
    short_completion_stalls 2 sending 1 1024 (false ∷ true ∷ []) three_unsent-IsValid (omega arith)
      (omega arith) (omega arith) (omega arith)

-- A kernel that sets nothing.
abbrev rigid : Kernel
rigid calls (set_flags fd) = false
rigid calls (set_option fd o) = false
rigid calls c = true

open_accepter-Opened_example : Opened 4 8888 128 (
    ready 4 ((socket ∷ set_option 4 (reuse_address 1) ∷ close 4 ∷ bind 4 8888 ∷ listen 4 128 ∷ [])))
unfolding open_accepter
open_accepter-Opened_example = open_accepter-Opened rigid 4 8888 128

accept_returns_closed_example : accept_fd rigid 4 1 (some 9) [] ≡ (
  some 9,
  accept 4
      ∷ set_flags 9
      ∷ close 9
      ∷ set_option 9 (send_buffer 524288)
      ∷ close 9
      ∷ set_option 9 (receive_buffer 524288)
      ∷ close 9
      ∷ set_option 9 (keep_alive 1)
      ∷ close 9
      ∷ set_option 9 (no_delay 1)
      ∷ close 9
      ∷ [],
)
accept_returns_closed_example = accept_returns_closed rigid 4 1 9 [] refl (λ cs o. refl)

send_fn_lem_example :
    (d : Connection) × (send_fn 1024 64 ((wrote 3 ∷ again ∷ []) ∷ []) connected []
      ≡ some (waits_bytes d (2 ∷ 3 ∷ 4 ∷ [])))
    × (unsent d.write_buf ≡ [])
    × IsValid d.write_buf
    × (d.read_buf ≡ connected.read_buf)
    × (closed d ≡ false)
    × (d.write_handle ≡ some 64)
send_fn_lem_example =
    send_fn_lem 1024 64 3 [] connected [] refl three_unsent-IsSendable (omega arith) (omega arith)
