-- ===== src/Scheduler/Uring/Completion.antt =====
-- Completions of reads.
use xuanqiong.Base.{ℕ, ◌≤◌, ◌≡◌, refl, Bool, false, some, List, [], ◌∷◌, ◌++◌, length}
use xuanqiong.Base.Int.{pos, negsuc}
use xuanqiong.Util.Input.{get_buffer, fill, unread}
use xuanqiong.Util.Input.Inv.{IsValid}
use xuanqiong.Util.Input.Recv.{recv_add-fill}
use xuanqiong.Net.Connection.{recv_add, closed}
use xuanqiong.Net.Uring.{UringConnection, Started}
use xuanqiong.Net.Uring
use xuanqiong.Scheduler.Event.{read}
use xuanqiong.Scheduler.Epoll.{reader}
use xuanqiong.Scheduler.Uring.{Completed, handle_cqe}

-- The kernel's write of `xs` to the place that a read was submitted for.
abbrev pub read_into : UringConnection → List ℕ → UringConnection
read_into c xs = record c {
  conn = record c.conn { read_buf = fill c.conn.read_buf (get_buffer c.conn.read_buf).0 xs };
}

-- For a connection that is not the executor's own, with a valid read buffer: a read that
-- completes with one byte at least and no more than there was room for makes them unread behind
-- what was unread before, in a valid buffer; the write buffer, the bytes on their way and the
-- closing are as they were, and the reading coroutine alone is resumed.
pub handle_cqe_read :
    (fuel : ℕ) (c : UringConnection) (x : ℕ) (xs : List ℕ)
    → c.conn.is_dummy ≡ false
    → IsValid c.conn.read_buf
    → length (x ∷ xs) ≤ (get_buffer c.conn.read_buf).1
    → (e : Completed) × (handle_cqe fuel (read_into c (x ∷ xs)) read (pos (length (x ∷ xs)))
        ≡ some e)
      × (unread e.conn.conn.read_buf ≡ unread c.conn.read_buf ++ x ∷ xs)
      × IsValid e.conn.conn.read_buf
      × (e.conn.conn.write_buf ≡ c.conn.write_buf)
      × (e.conn.back_left ≡ c.back_left)
      × (closed e.conn.conn ≡ closed c.conn)
      × (e.resumed ≡ reader ∷ [])
unfolding handle_cqe recv_add
handle_cqe_read fuel c x xs d v h =
    let (t, w) = recv_add-fill c.conn.read_buf (x ∷ xs) v h in
    (
      record {
        conn = record c { conn = recv_add (read_into c (x ∷ xs)).conn (pos (length (x ∷ xs))) };
        resumed = reader ∷ [];
        cleared = false;
      },
      rw (d) refl,
      t,
      w,
      refl,
      refl,
      refl,
      refl,
    )

-- For a connection that is not the executor's own: a read that completes with an error has the
-- reading coroutine resumed on a connection that is closed only if it was before, and whose next
-- `async_read` makes the same calls on the ring.
pub failed_read_repeats :
    (fuel : ℕ) (c : UringConnection) (n : ℕ) (full : Bool)
    → c.conn.is_dummy ≡ false
    → (e : Completed) × (handle_cqe fuel c read (negsuc n) ≡ some e)
      × (e.resumed ≡ reader ∷ [])
      × (closed e.conn.conn ≡ closed c.conn)
      × ((Uring.async_read full e.conn).calls ≡ (Uring.async_read full c).calls)
unfolding handle_cqe recv_add
failed_read_repeats fuel c n full d =
    (record { conn = c; resumed = reader ∷ []; cleared = false }, rw (d) refl, refl, refl, refl)
