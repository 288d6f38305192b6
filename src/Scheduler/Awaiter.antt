-- ===== src/Scheduler/Awaiter.antt =====
-- scheduler/awaitable.h and scheduler/awaitable.cc: what `co_await` does at each awaiter. The
-- connection is a value; the events handed to its executor's `add_event` are a list. A suspension
-- is the `bool` that `await_suspend` returns, or true where it returns nothing.
use xuanqiong.Base.{ℕ, Bool, true, false, not, ◌&&◌, ◌||◌, List, [], ◌∷◌, ltb, if◌then◌else◌}
use xuanqiong.Net.Connection.{Connection, closed, write_bytes, set_read_handle, set_write_handle}
use xuanqiong.Scheduler.Event.{EventItem, read, write, delete}

-- What a `co_await` did: the connection after it, the events added, and whether the coroutine is
-- suspended now.
pub record Awaited : Type 0 where
  pub conn : Connection
  pub events : List EventItem
  pub suspended : Bool

-- `RegisterReadAwaiter`: never ready, and never suspended.
unfoldable pub register_read : ℕ → ℕ → Connection → Awaited
unfolding set_read_handle
register_read address handle c = record {
  conn = set_read_handle c handle;
  events = record { type = read; conn = address } ∷ [];
  suspended = false;
}

-- `ReadAwaiter`, with its `should_suspend`.
unfoldable pub await_read : ℕ → Connection → Bool → Awaited
await_read address c should_suspend = record {
  conn = c;
  events = if closed c then record { type = delete; conn = address } ∷ [] else [];
  suspended = not (closed c) && should_suspend;
}

-- `WriteAwaiter`, with its `should_suspend`.
unfoldable pub await_write : ℕ → ℕ → Connection → Bool → Awaited
unfolding set_write_handle
await_write address handle c should_suspend =
    if not should_suspend then record { conn = c; events = []; suspended = false } else record {
      conn = set_write_handle c handle;
      events = record { type = write; conn = address } ∷ [];
      suspended = true;
    }

-- `WaitWriteAwaiter::await_ready`, and the whole of it.
unfoldable pub wait_write_ready : Connection → Bool
wait_write_ready c = closed c || ltb 0 (write_bytes c)

unfoldable pub wait_write : ℕ → Connection → Awaited
unfolding wait_write_ready set_write_handle
wait_write handle c =
    if wait_write_ready c
    then record { conn = c; events = []; suspended = false }
    else record { conn = set_write_handle c handle; events = []; suspended = true }
