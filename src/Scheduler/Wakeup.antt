-- ===== src/Scheduler/Wakeup.antt =====
-- scheduler/epoll_exector.cc: how `spawn` hands a task to the executor's thread and wakes it.
-- A step is one access to what the threads share: the task queue, `should_notify_`, or the eventfd.
-- The steps of the executor's thread and of any number of spawning threads come in any order, which
-- the list of actions gives. The queue is the multi-producer queue's abstract view, a list.
pub mod Safety
use xuanqiong.Base.{
  ℕ, zero, suc, ◌+◌, Bool, true, false, List, [], ◌∷◌, ◌++◌, Option, none, some, if◌then◌else◌,
}

-- Where the executor's thread is: taking tasks, past the empty queue but before it sets
-- `should_notify_`, in epoll_wait, woken by the eventfd, or past its reading and before it clears the
-- flag.
pub data Place : Type 0 where
  draining arming waiting woken emptied : Place

-- `spawned`, `executed`: the tasks pushed and run so far, in order. `between` counts the spawning
-- threads past their push and before the test of the flag, `notifying` those that won it and have
-- not yet written; `written` is the eventfd's counter.
pub record Shared : Type 0 where
  pub queue : List ℕ
  pub spawned : List ℕ
  pub executed : List ℕ
  pub should_notify : Bool
  pub written : ℕ
  pub between : ℕ
  pub notifying : ℕ
  pub place : Place

unfoldable pub init : Shared
init = record {
  queue = [];
  spawned = [];
  executed = [];
  should_notify = false;
  written = 0;
  between = 0;
  notifying = 0;
  place = draining;
}

pub data Action : Type 0 where
  -- `task_queue_.push`, `compare_exchange_strong`, and the write, in `spawn`
  push : ℕ → Action
  test_flag write_event : Action
  -- `pop` with what follows it, the store of true, a return of epoll_wait for the eventfd or for
  -- another cause (a timeout or a connection), the reading of the eventfd, and the store of false
  pop arm wake other_return read_event handle : Action

abbrev pub pop_at : Shared → List ℕ → Shared
pop_at s [] = record s { place = arming }
pop_at s (x ∷ xs) = record s { queue = xs; executed = s.executed ++ x ∷ [] }

abbrev pub spawn_test : Shared → ℕ → Bool → Option Shared
spawn_test s zero flag = none
spawn_test s (suc k) true =
    some (record s { between = k; should_notify = false; notifying = suc s.notifying })
spawn_test s (suc k) false = some (record s { between = k })

abbrev pub spawn_write : Shared → ℕ → Option Shared
spawn_write s zero = none
spawn_write s (suc k) = some (record s { notifying = k; written = suc s.written })

abbrev wake_at : Shared → ℕ → Option Shared
wake_at s zero = none
wake_at s (suc k) = some (record s { place = woken })

-- The thread of the executor does what its place allows. `none`: the action is not possible.
abbrev thread_step : Shared → Action → Place → Option Shared
thread_step s pop draining = some (pop_at s s.queue)
thread_step s arm arming = some (record s { should_notify = true; place = waiting })
thread_step s wake waiting = wake_at s s.written
thread_step s other_return waiting = some (record s { place = draining })
thread_step s read_event woken = some (record s { written = 0; place = emptied })
thread_step s handle emptied = some (record s { should_notify = false; place = draining })
thread_step s a p = none

unfoldable pub step : Shared → Action → Option Shared
step s (push x) =
    some (record s {
      queue = s.queue ++ x ∷ [];
      spawned = s.spawned ++ x ∷ [];
      between = suc s.between;
    })
step s test_flag = spawn_test s s.between s.should_notify
step s write_event = spawn_write s s.notifying
step s pop = thread_step s pop s.place
step s arm = thread_step s arm s.place
step s wake = thread_step s wake s.place
step s other_return = thread_step s other_return s.place
step s read_event = thread_step s read_event s.place
step s handle = thread_step s handle s.place

abbrev pub then_run : (Shared → Option Shared) → Option Shared → Option Shared
then_run f none = none
then_run f (some s) = f s

-- The actions in order; `none` if one was not possible.
unfoldable pub run : List Action → Shared → Option Shared
unfolding step
run [] s = some s
run (a ∷ acts) s = then_run (run acts) (step s a)
