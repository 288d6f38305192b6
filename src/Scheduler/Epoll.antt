-- ===== src/Scheduler/Epoll.antt =====
-- scheduler/epoll_executor.h and scheduler/epoll_exector.cc: what the executor asks epoll to watch,
-- and how its thread handles an event of a connection. (Tasks and wake-ups: Scheduler/Wakeup.)
-- Whether a call of ::epoll_ctl succeeds is an argument; one that fails changes nothing.
pub mod Cycle
pub mod Thread
use xuanqiong.Base.{ℕ, Bool, true, false, ◌||◌, List, [], ◌∷◌, ◌++◌, if◌then◌else◌}
use xuanqiong.Net.Connection.{Connection}
use xuanqiong.Net.Connection
use xuanqiong.Scheduler.Event.{EventType, read, write, delete, unknown}

-- What epoll watches a descriptor for, always edge-triggered: not at all, EPOLLIN, or EPOLLIN and
-- EPOLLOUT.
pub data Interest : Type 0 where
  absent reads both : Interest

-- `add_event`: its result, and the interest after it.
unfoldable pub add_event : Bool → EventType → Interest → Bool × Interest
add_event ok read i = if ok then (true, reads) else (false, i)
add_event ok write i = if ok then (true, both) else (false, i)
add_event ok delete i = if ok then (true, absent) else (false, i)
add_event ok unknown i = (true, i)

-- The events of a connection that one entry of epoll_wait's result reports.
pub record Ready : Type 0 where
  pub hup : Bool
  pub rdhup : Bool
  pub out : Bool
  pub inp : Bool

-- A coroutine of a connection.
pub data Side : Type 0 where
  reader writer : Side

-- What the handling of an entry does: the connection and the interest before the coroutines that it
-- resumes, in order, and whether it clears `should_notify_`.
pub record Handled : Type 0 where
  pub conn : Connection
  pub interest : Interest
  pub resumed : List Side
  pub cleared : Bool

abbrev read_part : Bool → List Side
read_part b = if b then reader ∷ [] else []

-- The body of the loop over the events.
unfoldable pub handle_event : Bool → Connection → Interest → Ready → Handled
unfolding Connection.close
handle_event ok c i r =
    if c.is_dummy
    then record { conn = c; interest = i; resumed = []; cleared = true }
    else if r.hup || r.rdhup
    then record {
      conn = Connection.close c;
      interest = if ok then absent else i;
      resumed = [];
      cleared = false;
    }
    else if r.out
    then (if ok
        then record {
          conn = c;
          interest = reads;
          resumed = writer ∷ read_part r.inp;
          cleared = false;
        }
        else record { conn = c; interest = i; resumed = []; cleared = false })
    else record { conn = c; interest = i; resumed = read_part r.inp; cleared = false }
