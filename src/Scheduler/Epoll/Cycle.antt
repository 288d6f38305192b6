-- ===== src/Scheduler/Epoll/Cycle.antt =====
-- An event handled, and the way of a coroutine through its wait: awaiter, executor, event.
use xuanqiong.Base.{
  ℕ, ◌≡◌, refl, Bool, true, false, not, ◌&&◌, ◌||◌, List, [], ◌∷◌, ◌++◌, length, ◌==◌, some,
  if◌then◌else◌, arith,
}
use xuanqiong.Util.Input.{get_buffer}
use xuanqiong.Util.Input.Inv.{IsValid}
use xuanqiong.Net.Connection.{Connection, closed}
use xuanqiong.Net.Poll.{ReadResult, Awaiter, async_read}
use xuanqiong.Net.Poll.Read.{Answers, delivered, ends, async_read_lem}
use xuanqiong.Scheduler.Event.{delete}
use xuanqiong.Scheduler.Awaiter.{await_read}
use xuanqiong.Scheduler.Epoll.{Interest, Ready, Side, reader, writer, handle_event}

abbrev resumes : Bool → Side → List Side
resumes b s = if b then s ∷ [] else []

-- An event of a connection that is not the executor's own leaves both buffers and the flag of the
-- notification alone. The connection is closed if it was or if the peer hung up, and after a
-- hang-up nobody is resumed. Else the writing coroutine is resumed if there is room for output
-- and epoll_ctl succeeds, and after it the reading one if there is input, unless there is room
-- for output and epoll_ctl fails.
pub handle_event_lem :
    (ok : Bool) (c : Connection) (i : Interest) (r : Ready)
    → c.is_dummy ≡ false
    → let e = handle_event ok c i r in
      let hung = r.hup || r.rdhup in
      (closed e.conn ≡ (closed c || hung))
      × (e.resumed
          ≡ resumes (not hung && r.out && ok) writer
            ++ resumes (not hung && r.inp && (not r.out || ok)) reader)
      × (e.conn.read_buf ≡ c.read_buf)
      × (e.conn.write_buf ≡ c.write_buf)
      × (e.cleared ≡ false)
unfolding handle_event
handle_event_lem ok c i r d = ground arith

and-twice : (a b : Bool) → (a && (a && b)) ≡ (a && b)
and-twice true b = refl
and-twice false b = refl

-- For a valid read buffer and results of ::read such as it may give, lasting to the end of the
-- loop: a `co_await` of `async_read` suspends the reading coroutine exactly if the connection was
-- open, the stream did not end or fail, and nothing was delivered; and it has the connection
-- removed from the executor exactly if it was closed or the stream ended or failed.
pub await_read-async_read :
    (address : ℕ) (c : Connection) (rs : List ReadResult)
    → IsValid c.read_buf
    → Answers (get_buffer c.read_buf).1 rs
    → let room = (get_buffer c.read_buf).1 in
      let gone = closed c || ends room rs in
      (a : Awaiter) × (async_read c rs ≡ some a)
      × ((await_read address a.conn a.should_suspend).suspended
          ≡ (not gone && length (delivered room rs) == 0))
      × ((await_read address a.conn a.should_suspend).events
          ≡ (if gone then record { type = delete; conn = address } ∷ [] else []))
unfolding await_read
await_read-async_read address c rs v h =
    let (a, e, t, w, o, p, q, s, at) = async_read_lem c rs v h in
    (
      a,
      e,
      rw (s, p) (and-twice (not (closed c || ends (get_buffer c.read_buf).1 rs)) _),
      rw (p) refl,
    )
