-- ===== src/Scheduler/Backends/Threads.antt =====
-- The loops of the epoll executor's and of the kqueue executor's thread.
use mathlib.Core.Option
use xuanqiong.Base.{
  ℕ, ◌≡◌, refl, sym, ap, ◌∙◌, Bool, true, false, Option, none, some, List, map, [], ◌∷◌,
  if◌then◌else◌,
}
use xuanqiong.Net.Connection.{Connection}
use xuanqiong.Scheduler.Epoll.{Side}
use xuanqiong.Scheduler.Epoll.Thread.{Watched, epoll_handle, epoll_thread}
use xuanqiong.Scheduler.Kqueue.{is_user}
use xuanqiong.Scheduler.Kqueue.Thread.{kqueue_handle, kqueue_thread}
use xuanqiong.Scheduler.Batch.{handle_all, own, handle_all-own, run_tasks, thread}
use xuanqiong.Scheduler.Backends.{
  Report, epoll_entries, kqueue_entries, Foreign, Pass, Tasks, epoll_turn, kqueue_turn, Same,
  AllAlike, Finds, AllPasses,
}
use xuanqiong.Scheduler.Batch.{after_wait}
use xuanqiong.Scheduler.Backends.Own.{own_agree, own_keeps}
use xuanqiong.Scheduler.Backends.Flag.{Dummies, epoll_flag, kqueue_flag}

module _ (dummy : ℕ) (resume_e : Side → Watched → Watched)
    (resume_k : Side → Connection → Connection)
    (agree : (s : Side) (w : Watched) → (resume_e s w).0 ≡ resume_k s w.0)
    (keeps : (s : Side) (c : Connection) → (resume_k s c).is_dummy ≡ c.is_dummy) where
  handle_all-agree :
      (rs : List Report) (m : ℕ → Watched) (n : ℕ → Connection) (flag : Bool)
      → Foreign dummy rs
      → Same dummy m n
      → let e =
          handle_all (epoll_handle resume_e) (λ _. false) (epoll_entries dummy rs) (m, flag) in
        let k =
          handle_all (kqueue_handle resume_k) (λ e. is_user e.0) (kqueue_entries rs) (n, flag) in
        Same dummy e.0 k.0 × (e.1 ≡ k.1)
  unfolding Dummies
  handle_all-agree rs m n flag f s = (
    (λ j.
        let e =
          handle_all-own (epoll_handle resume_e) (λ _. false) (epoll_entries dummy rs) m flag j in
        let k =
          handle_all-own (kqueue_handle resume_k) (λ e. is_user e.0) (kqueue_entries rs) n flag j in
        (
          ap (λ w. w.0) e
              ∙ own_agree dummy resume_e resume_k agree keeps rs j (m j) f (s j).1
              ∙ ap (own (kqueue_handle resume_k) (λ e. is_user e.0) j (kqueue_entries rs)) (s j).0
              ∙ sym k,
          ap (λ w. w.0.is_dummy) e
              ∙ own_keeps dummy resume_e resume_k agree keeps rs j (m j)
              ∙ (s j).1,
        )),
    epoll_flag dummy resume_e resume_k agree keeps rs m flag f (λ j. (s j).1)
        ∙ sym (kqueue_flag dummy resume_e resume_k agree keeps rs n flag),
  )

  run_tasks-Same :
      (ts : Tasks) (m : ℕ → Watched) (n : ℕ → Connection)
      → AllAlike dummy ts
      → Same dummy m n
      → Same dummy (run_tasks (map (λ t. t.0) ts) m) (run_tasks (map (λ t. t.1) ts) n)
  unfolding run_tasks
  run_tasks-Same [] m n a s = s
  run_tasks-Same (t ∷ ts) m n a s = run_tasks-Same ts (t.0 m) (t.1 n) a.1 (a.0 m n s)

  after_wait-agree :
      (found : Option (List Report)) (m : ℕ → Watched) (n : ℕ → Connection)
      → Finds dummy found
      → Same dummy m n
      → let e =
          after_wait
            (epoll_handle resume_e)
            (λ _. false)
            m
            (Option.map (epoll_entries dummy) found) in
        let k =
          after_wait
            (kqueue_handle resume_k)
            (λ e. is_user e.0)
            n
            (Option.map kqueue_entries found) in
        Same dummy e.0 k.0 × (e.1 ≡ k.1)
  after_wait-agree none m n f s = (s, refl)
  after_wait-agree (some rs) m n f s = handle_all-agree rs m n true f s

  -- So do the flags.
  Agree : (ℕ → Watched) × Bool → (ℕ → Connection) × Bool → Type 0
  Agree e k = Same dummy e.0 k.0 × (e.1 ≡ k.1)

  Agree-choice :
      (b : Bool) (e e' : (ℕ → Watched) × Bool) (k k' : (ℕ → Connection) × Bool)
      → Agree e k
      → Agree e' k'
      → Agree (if b then e else e') (if b then k else k')
  Agree-choice true e e' k k' a a' = a
  Agree-choice false e e' k k' a a' = a'

  loops-Agree :
      (ps : List Pass) (e : (ℕ → Watched) × Bool) (k : (ℕ → Connection) × Bool)
      → AllPasses dummy ps
      → Agree e k
      → Agree
          (epoll_thread resume_e (map (epoll_turn dummy) ps) e)
          (kqueue_thread resume_k (map kqueue_turn ps) k)
  unfolding epoll_thread kqueue_thread thread Agree
  loops-Agree [] e k a s = s
  loops-Agree (p ∷ ps) e k a s =
      let m = run_tasks (map (λ t. t.0) p.tasks) e.0 in
      let n = run_tasks (map (λ t. t.1) p.tasks) k.0 in
      let now = after_wait-agree p.found m n a.1 (run_tasks-Same p.tasks e.0 k.0 a.0 s.0) in
      let e' =
        after_wait (epoll_handle resume_e) (λ _. false) m
          (Option.map (epoll_entries dummy) p.found) in
      let k' =
        after_wait (kqueue_handle resume_k) (λ e. is_user e.0) n
          (Option.map kqueue_entries p.found) in
      Agree-choice p.stops e (epoll_thread resume_e (map (epoll_turn dummy) ps) e') k
        (kqueue_thread resume_k (map kqueue_turn ps) k') s (loops-Agree ps e' k' a.2 now)

  -- Let a coroutine, resumed by either executor, do the same to its connection and not make it
  -- the executor's own or another's. Let the loops of the epoll executor's and of the kqueue
  -- executor's thread go through the same passes over the same connections, of which that at
  -- `dummy` alone is the executor's own: in each pass `stop_` is set for both or for neither, the
  -- tasks do the same, and the wait fails for both or finds the same: that a task was notified,
  -- or that a connection which is not the executor's own is ready, which epoll reports as one
  -- entry, with every call of epoll_ctl succeeding, and kqueue as one event at the end of the
  -- stream and else as one for each filter, output first. Then both threads leave the same
  -- connections and the same value of `should_notify_`.
  pub threads_agree :
      (ps : List Pass) (m : ℕ → Watched) (n : ℕ → Connection) (flag : Bool)
      → AllPasses dummy ps
      → Same dummy m n
      → let e = epoll_thread resume_e (map (epoll_turn dummy) ps) (m, flag) in
        let k = kqueue_thread resume_k (map kqueue_turn ps) (n, flag) in
        ((j : ℕ) → (e.0 j).0 ≡ k.0 j) × (e.1 ≡ k.1)
  unfolding Agree
  threads_agree ps m n flag a s =
      let r = loops-Agree ps (m, flag) (n, flag) a (s, refl) in (λ j. (r.0 j).0, r.1)
