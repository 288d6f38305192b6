-- ===== src/Examples/Scheduler.antt =====
-- The executors' parts at concrete inputs.
use xuanqiong.Base.{◌+◌, ◌<◌, ◌≡◌, refl, ◌≢◌, ◌⊎◌, inr, true, false, none, some, [], ◌∷◌, arith}
use xuanqiong.Base.Int.{pos}
use xuanqiong.Util.Input.{get_buffer, unread}
use xuanqiong.Util.Input.Inv.{IsValid}
use xuanqiong.Net.Connection.{closed}
use xuanqiong.Net.Poll.{Awaiter, got, eof, async_read}
use xuanqiong.Net.Poll.Read.{delivered, ends}
use xuanqiong.Net.Uring.{UringConnection}
use xuanqiong.Scheduler.Awaiter.{await_read}
use xuanqiong.Scheduler.Epoll.{both, reader, writer, handle_event}
use xuanqiong.Scheduler.Epoll.Cycle.{handle_event_lem, await_read-async_read}
use xuanqiong.Scheduler.Uring.{Completed, handle_cqe}
use xuanqiong.Scheduler.Uring.Completion.{read_into, handle_cqe_read}
use xuanqiong.Examples.Data.{two_read, two_read-IsValid, three_unsent, connected}
use xuanqiong.Scheduler.Event.{read, delete}
use xuanqiong.Scheduler.Wakeup.{
  arming, waiting, Shared, push, test_flag, write_event, pop, arm, wake, init, step, run,
}
use xuanqiong.Scheduler.Wakeup.Safety.{run_sound, lost_wakeup}

-- A task was run, the thread sleeps, and another is pushed and its notification written.
abbrev notified : Shared
notified = record {
  queue = 6 ∷ [];
  spawned = 5 ∷ 6 ∷ [];
  executed = 5 ∷ [];
  should_notify = false;
  written = 1;
  between = 0;
  notifying = 0;
  place = waiting;
}

run_sound_example :
    (5 ∷ 6 ∷ [] ≡ notified.spawned)
    × ((notified.place ≢ waiting) ⊎ (notified.should_notify ≡ true) ⊎ (0 < 1))
unfolding run init
run_sound_example =
    run_sound (push 5 ∷ test_flag ∷ pop ∷ pop ∷ arm ∷ push 6 ∷ test_flag ∷ write_event ∷ [])
      notified refl

abbrev about_to_arm : Shared
about_to_arm = record notified { queue = []; executed = 5 ∷ 6 ∷ []; written = 0; place = arming }

lost_wakeup_example :
    (t : Shared) × (run (push 7 ∷ test_flag ∷ arm ∷ []) about_to_arm ≡ some t)
    × (t.place ≡ waiting)
    × (t.queue ≡ 7 ∷ [])
    × (t.between + t.notifying + t.written ≡ 0)
    × (step t wake ≡ none)
lost_wakeup_example = lost_wakeup about_to_arm 7 refl refl refl refl refl refl

handle_event_lem_example :
    let e =
      handle_event true connected both
        (record { hup = false; rdhup = false; out = true; inp = true }) in
    (closed e.conn ≡ false)
    × (e.resumed ≡ writer ∷ reader ∷ [])
    × (e.conn.read_buf ≡ two_read)
    × (e.conn.write_buf ≡ three_unsent)
    × (e.cleared ≡ false)
handle_event_lem_example =
    handle_event_lem true connected both
      (record { hup = false; rdhup = false; out = true; inp = true }) refl

await_read-async_read_example :
    (a : Awaiter) × (async_read connected (got (7 ∷ 8 ∷ []) ∷ eof ∷ []) ≡ some a)
    × ((await_read 4096 a.conn a.should_suspend).suspended ≡ false)
    × ((await_read 4096 a.conn a.should_suspend).events
        ≡ record { type = delete; conn = 4096 } ∷ [])
unfolding get_buffer delivered ends
await_read-async_read_example =
    await_read-async_read 4096 connected (got (7 ∷ 8 ∷ []) ∷ eof ∷ []) two_read-IsValid
      (inr (omega arith, omega arith, record {}))

abbrev ring : UringConnection
ring = record { conn = connected; address = 4096; back_left = 0; ioves = [] }

handle_cqe_read_example :
    (e : Completed) × (handle_cqe 9 (read_into ring (7 ∷ 8 ∷ [])) read (pos 2) ≡ some e)
    × (unread e.conn.conn.read_buf ≡ 3 ∷ 4 ∷ 5 ∷ 6 ∷ 7 ∷ 8 ∷ [])
    × IsValid e.conn.conn.read_buf
    × (e.conn.conn.write_buf ≡ three_unsent)
    × (e.conn.back_left ≡ 0)
    × (closed e.conn.conn ≡ false)
    × (e.resumed ≡ reader ∷ [])
unfolding get_buffer
handle_cqe_read_example = handle_cqe_read 9 ring 7 (8 ∷ []) refl two_read-IsValid (omega arith)
