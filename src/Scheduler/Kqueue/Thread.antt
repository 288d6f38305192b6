-- ===== src/Scheduler/Kqueue/Thread.antt =====
-- scheduler/kqueue_executor.cc: an event that ::kevent reports, with the coroutines that it resumes.
-- What a coroutine does, when it is resumed, with its connection is an argument.
use xuanqiong.Base.{ℕ, ◌+◌, ◌*◌, ◌/◌, ◌%◌, ◌<◌, ◌≡◌, Bool, Option, none, some, List, arith}
use xuanqiong.Base.Int.{ℤ, pos, negsuc}
use xuanqiong.Net.Connection.{Connection}
use xuanqiong.Scheduler.Epoll.{Side}
use xuanqiong.Scheduler.Epoll.Thread.{resume_all}
use xuanqiong.Scheduler.Kqueue.{Filter, is_user, serve_event}
use xuanqiong.Scheduler.Batch.{Turn, thread}

-- An event: its filter, and whether its flags have EV_EOF.
unfoldable pub kqueue_handle :
    (Side → Connection → Connection) → Filter × Bool → Connection → Connection × Bool
unfolding serve_event resume_all
kqueue_handle resume (f, eof) c =
    let s = serve_event c f eof in (resume_all resume s.resumed s.conn, s.cleared)

-- The thread; the executor's own event has no connection.
unfoldable pub kqueue_thread :
    (Side → Connection → Connection)
    → List (Turn Connection (Filter × Bool))
    → (ℕ → Connection) × Bool
    → (ℕ → Connection) × Bool
unfolding kqueue_handle thread
kqueue_thread resume = thread (kqueue_handle resume) (λ e. is_user e.0)

-- The `timespec` of a wait, seconds and nanoseconds, for a timeout in milliseconds; none where it is
-- negative, and the wait is without end.
unfoldable pub wait_time : ℤ → Option (ℕ × ℕ)
wait_time (pos t) = some (t / 1000, t % 1000 * 1000000)
wait_time (negsuc t) = none

-- The nanoseconds are fewer than a second, and both together are the timeout.
wait_time_lem :
    (t s n : ℕ)
    → wait_time (pos t) ≡ some (s, n)
    → (n < 1000000000) × (s * 1000000000 + n ≡ t * 1000000)
unfolding wait_time
wait_time_lem t s n e = ground (arith, e)
