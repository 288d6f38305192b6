-- ===== src/Scheduler/Kqueue.antt =====
-- scheduler/kqueue_executor.h and scheduler/kqueue_executor.cc: what the executor asks of kqueue,
-- and how its thread handles an event. What a call of ::kevent returns is an argument, and the
-- changes that it is given are a list.
pub mod Thread
pub mod Wakeup
use xuanqiong.Base.{Bool, true, false, not, ◌&&◌, ◌||◌, ◌≡◌, List, [], ◌∷◌, if◌then◌else◌, arith}
use xuanqiong.Net.Connection.{Connection, closed}
use xuanqiong.Net.Connection
use xuanqiong.Scheduler.Event.{EventType, read, write, delete, unknown}
use xuanqiong.Scheduler.Epoll.{Side, reader, writer}

-- A change: a filter of a descriptor added (edge-triggered) or deleted, or the executor's own event
-- triggered.
pub data Change : Type 0 where
  add_read add_write delete_read delete_write trigger : Change

-- `add_event`: its result, and the changes.
unfoldable pub add_filter : Bool → EventType → Bool × List Change
add_filter ok read = (ok, add_read ∷ [])
add_filter ok write = (ok, add_write ∷ [])
add_filter ok delete = (true, delete_read ∷ delete_write ∷ [])
add_filter ok unknown = (false, [])

-- What `spawn` does: its result, `should_notify_` after it, and the changes.
pub record Spawned : Type 0 where
  pub result : Bool
  pub should_notify : Bool
  pub changes : List Change

-- `spawn`, where the queue took the task (`pushed`) or not, at a value of `should_notify_`.
unfoldable pub spawn : Bool → Bool → Bool → Spawned
spawn pushed flag ok =
    if not pushed
    then record { result = false; should_notify = flag; changes = [] }
    else if flag
    then record { result = ok; should_notify = not ok; changes = trigger ∷ [] }
    else record { result = true; should_notify = flag; changes = [] }

-- `stop`: `stop_` after it, and the changes, where the queue is open or not.
unfoldable pub stop : Bool → Bool × List Change
stop open_queue = (true, if open_queue then trigger ∷ [] else [])

-- The filter of an event.
pub data Filter : Type 0 where
  user_filter read_filter write_filter other_filter : Filter

-- What the handling of an event does: the connection and the changes before the coroutines that it
-- resumes, and whether it clears `should_notify_`.
pub record Served : Type 0 where
  pub conn : Connection
  pub changes : List Change
  pub resumed : List Side
  pub cleared : Bool

-- An event that is not the executor's own and no end of the stream.
abbrev serve_filter : Connection → Filter → Served
serve_filter c write_filter = record {
  conn = c;
  changes = delete_write ∷ [];
  resumed = writer ∷ [];
  cleared = false;
}
serve_filter c read_filter = record {
  conn = c;
  changes = [];
  resumed = reader ∷ [];
  cleared = false;
}
serve_filter c user_filter = record { conn = c; changes = []; resumed = []; cleared = false }
serve_filter c other_filter = record { conn = c; changes = []; resumed = []; cleared = false }

abbrev pub is_user : Filter → Bool
is_user user_filter = true
is_user read_filter = false
is_user write_filter = false
is_user other_filter = false

-- The body of the loop over the events, for an event with the flag EV_EOF or not.
unfoldable pub serve_event : Connection → Filter → Bool → Served
unfolding Connection.close
serve_event c f eof =
    if is_user f
    then record { conn = c; changes = []; resumed = []; cleared = true }
    else if eof
    then record {
      conn = Connection.close c;
      changes = delete_read ∷ delete_write ∷ [];
      resumed = [];
      cleared = false;
    }
    else serve_filter c f

-- A spawning thread that finds the flag set clears it only with a notification that was made; one
-- that finds it clear makes none. A task that was queued is refused only where its notification failed.
spawn_lem :
    (flag ok : Bool)
    → let s = spawn true flag ok in
      (s.should_notify ≡ (flag && not ok))
      × (s.changes ≡ (if flag then trigger ∷ [] else []))
      × (s.result ≡ (not flag || ok))
unfolding spawn
spawn_lem flag ok = ground arith
