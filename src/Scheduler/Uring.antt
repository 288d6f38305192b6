-- ===== src/Scheduler/Uring.antt =====
-- scheduler/uring_executor.h and scheduler/uring_exector.cc: how the executor's thread handles a
-- completion of the ring.
pub mod Completion
pub mod Outcome
pub mod Thread
use xuanqiong.Base.{
  not, ℕ, zero, suc, Bool, true, false, Option, none, some, List, [], ◌∷◌, ◌++◌, ◌==◌,
  if◌then◌else◌,
}
use xuanqiong.Base.Int.{ℤ, pos, negsuc}
use xuanqiong.Net.Connection.{fd, recv_add}
use xuanqiong.Net.Connection
use xuanqiong.Net.Uring.{UringConnection, uring_send_add}
use xuanqiong.Scheduler.Event.{EventType, read, write, delete, unknown, user_data}
use xuanqiong.Scheduler.Epoll.{Side, reader, writer}

-- What the handling of a completion does: the connection before the coroutines that it resumes, in
-- order, and whether it clears `should_notify_`.
pub record Completed : Type 0 where
  pub conn : UringConnection
  pub resumed : List Side
  pub cleared : Bool

abbrev after_write : Option UringConnection → Option Completed
after_write none = none
after_write (some d) = some (record { conn = d; resumed = writer ∷ []; cleared = false })

abbrev received : UringConnection → ℤ → Option Completed
received c n = some (record {
  conn = record c { conn = recv_add c.conn n };
  resumed = reader ∷ [];
  cleared = false;
})

-- A completion of an event type with a result, for a connection that is not the executor's own.
-- `none`: the loop of the write buffer's `send_add` ran out of fuel.
unfoldable pub complete : ℕ → UringConnection → EventType → ℤ → Option Completed
unfolding Connection.close recv_add uring_send_add
complete fuel c read (pos zero) = some (record {
  conn = record c { conn = Connection.close c.conn };
  resumed = (if c.back_left == 0 then writer ∷ [] else []) ++ reader ∷ [];
  cleared = false;
})
complete fuel c read (pos (suc n)) = received c (pos (suc n))
complete fuel c read (negsuc n) = received c (negsuc n)
complete fuel c write n = after_write (uring_send_add fuel c n)
complete fuel c delete n = some (record { conn = c; resumed = []; cleared = false })
complete fuel c unknown n = some (record { conn = c; resumed = []; cleared = false })

-- A completion.
unfoldable pub handle_cqe : ℕ → UringConnection → EventType → ℤ → Option Completed
unfolding complete
handle_cqe fuel c t n =
    if c.conn.is_dummy
    then some (record { conn = c; resumed = []; cleared = true })
    else complete fuel c t n

-- What `spawn` does: its result, `should_notify_` after it, and the calls on the ring. A wake-up
-- writes to the eventfd, as a write of the executor's own connection.
pub data WakeCall : Type 0 where
  get_sqe submit : WakeCall
  -- io_uring_prep_write of the eventfd, with `user_data`
  prep_write : ℕ → ℕ → WakeCall

pub record UringSpawned : Type 0 where
  pub result : Bool
  pub should_notify : Bool
  pub calls : List WakeCall

-- `spawn`, where the queue took the task (`pushed`) or not, at a value of `should_notify_`, and where
-- the first request for an entry finds none free (`full`) or one. `dummy` is the executor's own
-- connection.
unfoldable pub uring_spawn : Bool → Bool → Bool → UringConnection → UringSpawned
unfolding user_data
uring_spawn pushed flag full dummy =
    if not pushed
    then record { result = false; should_notify = flag; calls = [] }
    else if flag
    then record {
      result = true;
      should_notify = false;
      calls =
          (if full then get_sqe ∷ submit ∷ get_sqe ∷ [] else get_sqe ∷ [])
          ++ prep_write (fd dummy.conn) (user_data write dummy.address) ∷ submit ∷ [];
    }
    else record { result = true; should_notify = flag; calls = [] }
