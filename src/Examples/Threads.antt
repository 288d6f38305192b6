-- ===== src/Examples/Threads.antt =====
-- The executors' threads and the server's start at concrete inputs.
use Prim.Native.String.{String}
use xuanqiong.Base.{
  ◌&&◌, ◌<◌, ◌≢◌, ◌⊎◌, ℕ, ◌≡◌, refl, true, false, Option, none, some, List, map, [], ◌∷◌, ◌==◌,
  arith,
}
use xuanqiong.Base.Int.{pos}
use xuanqiong.Net.Socket.{open_socket}
use xuanqiong.Net.Connection.{Connection, set_read_handle, set_write_handle}
use xuanqiong.Net.Connection
use xuanqiong.Net.Uring.{UringConnection}
use xuanqiong.Scheduler.Event.{read, write}
use xuanqiong.Scheduler.Epoll.{reads, Side, reader, writer}
use xuanqiong.Scheduler.Epoll.Thread.{Watched, epoll_thread}
use xuanqiong.Scheduler.Kqueue.Thread.{kqueue_thread}
use xuanqiong.Scheduler.Backends.{
  notified, is_ready, Pass, epoll_turn, kqueue_turn, Same, AllPasses,
}
use xuanqiong.Scheduler.Backends.Threads.{threads_agree}
use xuanqiong.Scheduler.Batch.{handle_all}
use xuanqiong.Scheduler.Uring.Thread.{Operation, uring_handle, entries, batch_completion}
use xuanqiong.Scheduler.Uring.Outcome.{IsPlausible, Completes}
use xuanqiong.Scheduler.Epoll.Thread.{resume_all}
use xuanqiong.Scheduler.Wakeup.{Shared, waiting}
use xuanqiong.Scheduler.Wakeup
use xuanqiong.Scheduler.Kqueue.Wakeup.{
  push, test_flag, trigger_event, trigger_fails, pop, arm, run, init, wakeups_sound,
}
use xuanqiong.Scheduler.Policy.{uring_policy, linux, make_executor, cast_class}
use xuanqiong.Util.Output.{unsent}
use xuanqiong.Util.Output.Inv.{IsValid}
use xuanqiong.Net.Poll.Write.{IsSendable}
use xuanqiong.Rpc.Sending.Room.{send_pieces, buffer_drained}
use xuanqiong.Rpc.Sending.{waits_bytes, send_fn}
use xuanqiong.Rpc.Server.Start.{
  Accepted, interrupted, accepted, start, connections, both_tasks, start_lem,
}
use xuanqiong.Examples.Data.{connected, three_unsent-IsValid}

-- A coroutine that is resumed is suspended again at another place.
abbrev resume : Side → Connection → Connection
resume reader c = set_read_handle c 5
resume writer c = set_write_handle c 6

abbrev resume_watched : Side → Watched → Watched
resume_watched s (c, i) = (resume s c, i)

resume_agree : (s : Side) (w : Watched) → (resume_watched s w).0 ≡ resume s w.0
resume_agree s w = refl

resume_keeps : (s : Side) (c : Connection) → (resume s c).is_dummy ≡ c.is_dummy
unfolding set_read_handle set_write_handle
resume_keeps reader c = refl
resume_keeps writer c = refl

-- The executor's own connection has the address 0.
abbrev conns : ℕ → Connection
conns j = record connected { is_dummy = j == 0 }

abbrev watched : ℕ → Watched
watched j = (conns j, reads)

abbrev passes : List Pass
passes =
    record {
      stops = false;
      tasks = (λ m. m, λ n. n) ∷ [];
      found = some (
          notified
          ∷ is_ready 1 (record { hup = false; rdhup = false; out = true; inp = true })
          ∷ is_ready 2 (record { hup = false; rdhup = true; out = false; inp = true })
          ∷ []);
    }
    ∷ record { stops = true; tasks = []; found = none }
    ∷ []

passes-AllPasses : AllPasses 0 passes
passes-AllPasses = (
  ((λ m n s. s), record {}),
  (λ e. absurd (omega (arith, e)), (λ e. absurd (omega (arith, e)), record {})),
  ((record {}, record {}, record {})),
)

watched-Same : Same 0 watched conns
watched-Same j = (refl, refl)

threads_agree_example :
    let e = epoll_thread resume_watched (map (epoll_turn 0) passes) (watched, false) in
    let k = kqueue_thread resume (map kqueue_turn passes) (conns, false) in
    ((j : ℕ) → (e.0 j).0 ≡ k.0 j) × (e.1 ≡ k.1)
threads_agree_example =
    threads_agree 0 resume_watched resume resume_agree resume_keeps passes watched conns false
      passes-AllPasses watched-Same

abbrev ring : ℕ → Option UringConnection
ring j = some (record { conn = connected; address = j; back_left = 3; ioves = [] })

abbrev stay : Side → UringConnection → UringConnection
stay s c = c

abbrev ending : Operation
ending = record { type = read; conn = 8192; result = pos 0 }

abbrev sending : UringConnection
sending = record { conn = connected; address = 4096; back_left = 3; ioves = [] }

abbrev writing : Operation
writing = record { type = write; conn = 4096; result = pos 3 }

three_sent-IsPlausible : IsPlausible sending write (pos 3)
three_sent-IsPlausible = record {
  unsent_yet = omega arith;
  submitted = omega arith;
  in_range = omega arith;
}

batch_completion_example :
    let r =
      handle_all
        (uring_handle 9 stay)
        (λ _. false)
        (entries 9 stay (ending ∷ writing ∷ ending ∷ []))
        (ring, true) in
    (d : UringConnection) × (r.0 4096 ≡ some (resume_all stay (writer ∷ []) d))
    × Completes sending write (pos 3) d
    × ((false && r.1) ≡ false)
batch_completion_example =
    batch_completion 9 stay (ending ∷ []) (ending ∷ []) writing ring true sending
      (omega arith, omega arith, (omega arith, omega arith, (omega arith, omega arith, record {})))
      ((λ e. absurd (omega (arith, e))), record {}) ((λ e. absurd (omega (arith, e))), record {})
      refl three_unsent-IsValid three_sent-IsPlausible (omega arith)

abbrev here : String × ℕ
here = ("127.0.0.1", 8888)

abbrev peer : String × ℕ
peer = ("127.0.0.1", 40000)

abbrev incoming : List Accepted
incoming = interrupted ∷ accepted 7 here peer ∷ []

start_lem_example :
    ((start linux uring_policy incoming).0
      ≡ both_tasks (cast_class (make_executor linux uring_policy)) (connections incoming))
    × (let c = Connection.init (open_socket 7 here peer) false in
        send_fn 1024 12 [] c [] ≡ some (waits_bytes (set_write_handle c 12) []))
start_lem_example = start_lem linux uring_policy incoming 1024 12 7 here peer

-- Two tasks, the first of which could not be notified.
abbrev triggered : Shared
triggered = record {
  queue = 6 ∷ [];
  spawned = 5 ∷ 6 ∷ [];
  executed = 5 ∷ [];
  should_notify = false;
  written = 1;
  between = 0;
  notifying = 0;
  place = waiting;
}

wakeups_sound_example :
    (5 ∷ 6 ∷ [] ≡ triggered.spawned)
    × ((triggered.place ≢ waiting) ⊎ (triggered.should_notify ≡ true) ⊎ (0 < 1))
unfolding run init Wakeup.init
wakeups_sound_example =
    wakeups_sound
      (push 5
        ∷ test_flag
        ∷ trigger_fails
        ∷ pop
        ∷ pop
        ∷ arm
        ∷ push 6
        ∷ test_flag
        ∷ trigger_event
        ∷ [])
      triggered refl

three_unsent-IsSendable : IsSendable 1024 connected.write_buf
three_unsent-IsSendable = record {
  valid = three_unsent-IsValid;
  small = omega arith;
  few_blocks = omega arith;
}

-- The kernel takes the three bytes in two pieces.
buffer_drained_example :
    (d : Connection) × (send_pieces 1024 4096 512 (2 ∷ 5 ∷ 1 ∷ []) connected reads (1 ∷ [])
      ≡ some (waits_bytes d (1 ∷ 2 ∷ 3 ∷ 4 ∷ []), reads))
    × (unsent d.write_buf ≡ [])
    × IsValid d.write_buf
    × (d ≡ record connected { write_buf = d.write_buf; write_handle = some 512 })
buffer_drained_example =
    buffer_drained 1024 4096 512 (2 ∷ 5 ∷ 1 ∷ []) connected (1 ∷ []) refl refl
      three_unsent-IsSendable (omega arith) (omega arith, (omega arith, (omega arith, record {})))
      (omega arith)
