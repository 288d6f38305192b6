-- ===== src/Scheduler/Wakeup/Safety.antt =====
-- Whatever the interleaving: tasks run once and in order, and a notification that was won arrives.
use xuanqiong.Base.{
  ◌⊎◌, inl, inr, Bool-cases, ◌≢◌, ℕ, ◌+◌, ◌<◌, ◌≡◌, refl, true, false, List, [], ◌∷◌, ◌++◌,
  append_assoc, Option, none, some, arith,
}
use xuanqiong.Scheduler.Wakeup.{
  Place, draining, arming, waiting, woken, emptied, Shared, Action, push, test_flag, write_event,
  pop, arm, wake, other_return, read_event, handle, init, step, run, then_run,
}

pub record IsSound (s : Shared) : Type 0 where
  pub order : s.executed ++ s.queue ≡ s.spawned
  pub coming : s.place ≡ waiting → s.should_notify ≡ false → 0 < s.written + s.notifying

pop-IsSound :
    (s : Shared) (q : List ℕ) (t : Shared)
    → s.queue ≡ q
    → IsSound s
    → step s pop ≡ some t
    → IsSound t
unfolding step
pop-IsSound s [] t g v e = ground arith
pop-IsSound s (x ∷ xs) t g v e = ground (arith, append_assoc s.executed (x ∷ []) xs)

step-IsSound : (s : Shared) (a : Action) (t : Shared) → IsSound s → step s a ≡ some t → IsSound t
unfolding step
step-IsSound s (push x) t v e = ground (arith, append_assoc s.executed s.queue (x ∷ []))
step-IsSound s test_flag t v e = ground arith
step-IsSound s write_event t v e = ground arith
step-IsSound s pop t v e = pop-IsSound s s.queue t refl v e
step-IsSound s arm t v e = ground arith
step-IsSound s wake t v e = ground arith
step-IsSound s other_return t v e = ground arith
step-IsSound s read_event t v e = ground arith
step-IsSound s handle t v e = ground arith

run-IsSound : (acts : List Action) (s t : Shared) → IsSound s → run acts s ≡ some t → IsSound t
unfolding run
run-IsSound [] s t v e = ground arith
run-IsSound (a ∷ acts) s t v e = go (run-IsSound acts) (step s a) refl e
  where
    go :
        ((u w : Shared) → IsSound u → run acts u ≡ some w → IsSound w)
        → (r : Option Shared) → step s a ≡ r
        → then_run (run acts) r ≡ some t
        → IsSound t
    go ih none f e' = cc
    go ih (some u) f e' = ih u t (step-IsSound s a u v f) e'

init-IsSound : IsSound init
unfolding init
init-IsSound = record { order = refl; coming = λ p f. cc }

pub waiting_cases : (p : Place) → (p ≡ waiting) ⊎ (p ≢ waiting)
waiting_cases draining = inr (λ e. cc)
waiting_cases arming = inr (λ e. cc)
waiting_cases waiting = inl refl
waiting_cases woken = inr (λ e. cc)
waiting_cases emptied = inr (λ e. cc)

-- After any actions of the executor's thread and the spawning threads that lead from the initial
-- state to `s`, in any order: the tasks run, followed by those queued, are the tasks spawned, in
-- the order of their pushes; and if the executor's thread waits with the flag cleared, a write to
-- the eventfd is made or about to be.
pub run_sound :
    (acts : List Action) (s : Shared)
    → run acts init ≡ some s
    → (s.executed ++ s.queue ≡ s.spawned)
      × ((s.place ≢ waiting) ⊎ (s.should_notify ≡ true) ⊎ (0 < s.written + s.notifying))
run_sound acts s e =
    let v = run-IsSound acts init s init-IsSound e in
    (v.order, grind (arith, waiting_cases s.place, Bool-cases s.should_notify, v.coming))

-- From any state in which the executor's thread has found the queue empty and not yet set the
-- flag, the flag is clear, and no spawning thread is between its push and its notification or has
-- written: a task can be pushed, its thread find the flag clear, and the executor's thread set
-- the flag and wait, with the task queued, no write made or to come, so that no wake-up by the
-- eventfd is possible.
pub lost_wakeup :
    (s : Shared) (x : ℕ)
    → s.place ≡ arming
    → s.should_notify ≡ false
    → s.queue ≡ []
    → s.between ≡ 0
    → s.notifying ≡ 0
    → s.written ≡ 0
    → (t : Shared) × (run (push x ∷ test_flag ∷ arm ∷ []) s ≡ some t)
      × (t.place ≡ waiting)
      × (t.queue ≡ x ∷ [])
      × (t.between + t.notifying + t.written ≡ 0)
      × (step t wake ≡ none)
unfolding run step
lost_wakeup s x p f q b n w = (
  record s {
    queue = s.queue ++ x ∷ [];
    spawned = s.spawned ++ x ∷ [];
    between = s.between;
    should_notify = true;
    place = waiting;
  },
  rw (f, p) refl,
  refl,
  rw q,
  omega arith,
  rw w,
)
