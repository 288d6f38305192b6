-- ===== src/Scheduler/Kqueue/Wakeup.antt =====
-- scheduler/kqueue_executor.cc: how `spawn` hands a task to the executor's thread and wakes it, a step
-- for each access to what the threads share, as in Scheduler/Wakeup. Here the flag is set at first, a
-- trigger can fail, and the executor's own event is cleared as it is reported.
use xuanqiong.Base.{
  ◌⊎◌, Bool-cases, ◌≢◌, ℕ, zero, suc, ◌+◌, ◌<◌, ◌≡◌, refl, true, false, List, [], ◌∷◌, ◌++◌,
  append_assoc, Option, none, some, arith,
}
use xuanqiong.Scheduler.Wakeup.{
  Place, draining, arming, waiting, woken, Shared, pop_at, spawn_test, spawn_write,
}
use xuanqiong.Scheduler.Wakeup
use xuanqiong.Scheduler.Wakeup.Safety.{waiting_cases}

-- `written` counts the triggers since the event was last reported.
unfoldable pub init : Shared
unfolding Wakeup.init
init = record Wakeup.init { should_notify = true }

pub data Action : Type 0 where
  -- `task_queue_.push`, `compare_exchange_strong`, and ::kevent, which triggers the event or fails,
  -- and then `should_notify_` is set again, in `spawn`
  push : ℕ → Action
  test_flag trigger_event trigger_fails : Action
  -- `pop` with what follows it, the store of true, a return of ::kevent with the executor's own event
  -- or without, and the store of false
  pop arm wake other_return handle : Action

abbrev spawn_fails : Shared → ℕ → Option Shared
spawn_fails s zero = none
spawn_fails s (suc k) = some (record s { notifying = k; should_notify = true })

abbrev wake_at : Shared → ℕ → Option Shared
wake_at s zero = none
wake_at s (suc k) = some (record s { place = woken; written = 0 })

-- The thread of the executor does what its place allows. `none`: the action is not possible.
abbrev thread_step : Shared → Action → Place → Option Shared
thread_step s pop draining = some (pop_at s s.queue)
thread_step s arm arming = some (record s { should_notify = true; place = waiting })
thread_step s wake waiting = wake_at s s.written
thread_step s other_return waiting = some (record s { place = draining })
thread_step s handle woken = some (record s { should_notify = false; place = draining })
thread_step s a p = none

unfoldable pub step : Shared → Action → Option Shared
step s (push x) =
    some (record s {
      queue = s.queue ++ x ∷ [];
      spawned = s.spawned ++ x ∷ [];
      between = suc s.between;
    })
step s test_flag = spawn_test s s.between s.should_notify
step s trigger_event = spawn_write s s.notifying
step s trigger_fails = spawn_fails s s.notifying
step s pop = thread_step s pop s.place
step s arm = thread_step s arm s.place
step s wake = thread_step s wake s.place
step s other_return = thread_step s other_return s.place
step s handle = thread_step s handle s.place

abbrev then_run : (Shared → Option Shared) → Option Shared → Option Shared
then_run f none = none
then_run f (some s) = f s

unfoldable pub run : List Action → Shared → Option Shared
unfolding step
run [] s = some s
run (a ∷ acts) s = then_run (run acts) (step s a)

record IsSound (s : Shared) : Type 0 where
  order : s.executed ++ s.queue ≡ s.spawned
  coming : s.place ≡ waiting → s.should_notify ≡ false → 0 < s.written + s.notifying

pop-IsSound :
    (s : Shared) (q : List ℕ) (t : Shared)
    → s.queue ≡ q
    → IsSound s
    → step s pop ≡ some t
    → IsSound t
unfolding step
pop-IsSound s [] t g v e = ground arith
pop-IsSound s (x ∷ xs) t g v e = ground (arith, append_assoc s.executed (x ∷ []) xs)

step-IsSound : (s : Shared) (a : Action) (t : Shared) → IsSound s → step s a ≡ some t → IsSound t
unfolding step
step-IsSound s (push x) t v e = ground (arith, append_assoc s.executed s.queue (x ∷ []))
step-IsSound s test_flag t v e = ground arith
step-IsSound s trigger_event t v e = ground arith
step-IsSound s trigger_fails t v e = ground arith
step-IsSound s pop t v e = pop-IsSound s s.queue t refl v e
step-IsSound s arm t v e = ground arith
step-IsSound s wake t v e = ground arith
step-IsSound s other_return t v e = ground arith
step-IsSound s handle t v e = ground arith

run-IsSound : (acts : List Action) (s t : Shared) → IsSound s → run acts s ≡ some t → IsSound t
unfolding run
run-IsSound [] s t v e = ground arith
run-IsSound (a ∷ acts) s t v e = go (run-IsSound acts) (step s a) refl e
  where
    go :
        ((u w : Shared) → IsSound u → run acts u ≡ some w → IsSound w)
        → (r : Option Shared) → step s a ≡ r
        → then_run (run acts) r ≡ some t
        → IsSound t
    go ih none f e' = cc
    go ih (some u) f e' = ih u t (step-IsSound s a u v f) e'

init-IsSound : IsSound init
unfolding init Wakeup.init
init-IsSound = record { order = refl; coming = λ p f. cc }

-- After any actions of the kqueue executor's thread and the spawning threads that lead from the
-- initial state to `s`, in any order, triggers that fail included: the tasks run, followed by
-- those queued, are the tasks spawned, in the order of their pushes; and if the executor's thread
-- waits with the flag cleared, the event is triggered, or a thread is about to trigger it or to
-- set the flag again.
pub wakeups_sound :
    (acts : List Action) (s : Shared)
    → run acts init ≡ some s
    → (s.executed ++ s.queue ≡ s.spawned)
      × ((s.place ≢ waiting) ⊎ (s.should_notify ≡ true) ⊎ (0 < s.written + s.notifying))
wakeups_sound acts s e =
    let v = run-IsSound acts init s init-IsSound e in
    (v.order, grind (arith, waiting_cases s.place, Bool-cases s.should_notify, v.coming))
