-- ===== src/Scheduler/Backends.antt =====
-- scheduler/epoll_exector.cc and scheduler/kqueue_executor.cc side by side: the same readiness of the
-- same connections, as epoll and as kqueue report it.
pub mod Own
pub mod Flag
pub mod Threads
use mathlib.Core.Option
use xuanqiong.Base.{
  ℕ, zero, suc, ◌≡◌, ◌≢◌, refl, sym, ap, ◌∙◌, Bool, Bool-cases, inl, inr, true, false, not, ◌&&◌,
  ◌||◌, Option, none, some, List, map, [], ◌∷◌, ◌++◌, ◌==◌, if◌then◌else◌, arith,
}
use xuanqiong.Net.Connection.{Connection}
use xuanqiong.Net.Connection
use xuanqiong.Scheduler.Epoll.{Interest, Ready, Side, reader, writer, handle_event}
use xuanqiong.Scheduler.Epoll.Thread.{resume_all, Watched, epoll_handle, epoll_thread}
use xuanqiong.Scheduler.Kqueue.{
  Filter, user_filter, read_filter, write_filter, other_filter, is_user, serve_event,
}
use xuanqiong.Scheduler.Kqueue.Thread.{kqueue_handle, kqueue_thread}
use xuanqiong.Scheduler.Batch.{Turn, update, update-own, handle_all, run_tasks, thread}

-- What a wait finds: a task was notified, or a connection is ready.
pub data Report : Type 0 where
  notified : Report
  is_ready : ℕ → Ready → Report

-- As epoll reports it, where the calls of epoll_ctl succeed; `dummy` is the executor's own connection.
abbrev pub epoll_entry : ℕ → Report → Option ℕ × (Bool × Ready)
epoll_entry dummy notified =
    (some dummy, (true, record { hup = false; rdhup = false; out = false; inp = true }))
epoll_entry dummy (is_ready i r) = (some i, (true, r))

unfoldable pub epoll_entries : ℕ → List Report → List (Option ℕ × (Bool × Ready))
epoll_entries dummy [] = []
epoll_entries dummy (r ∷ rs) = epoll_entry dummy r ∷ epoll_entries dummy rs

-- As kqueue does: an event for the end of the stream, or one for each filter.
abbrev pub filters : Ready → List (Filter × Bool)
filters r =
    if r.hup || r.rdhup
    then (read_filter, true) ∷ []
    else if r.out
    then (write_filter, false) ∷ (if r.inp then (read_filter, false) ∷ [] else [])
    else if r.inp
    then (read_filter, false) ∷ []
    else []

unfoldable pub at :
    ℕ → List (Filter × Bool) → List (Option ℕ × (Filter × Bool)) → List (Option ℕ × (Filter × Bool))
at i [] es = es
at i (f ∷ fs) es = (some i, f) ∷ at i fs es

unfoldable pub kqueue_entries : List Report → List (Option ℕ × (Filter × Bool))
unfolding at
kqueue_entries [] = []
kqueue_entries (notified ∷ rs) = (none, (user_filter, false)) ∷ kqueue_entries rs
kqueue_entries (is_ready i r ∷ rs) = at i (filters r) (kqueue_entries rs)

-- Whether a task was notified.
unfoldable pub any_notified : List Report → Bool
any_notified [] = false
any_notified (notified ∷ rs) = true
any_notified (is_ready i r ∷ rs) = any_notified rs

-- The connections that are ready are not the executor's own.
abbrev pub Foreign : ℕ → List Report → Type 0
Foreign dummy [] = Unit {0}
Foreign dummy (notified ∷ rs) = Foreign dummy rs
Foreign dummy (is_ready i r ∷ rs) = (i ≢ dummy) × Foreign dummy rs

-- A pass of the loops of two threads: whether `stop_` is set, the tasks in order, each as it acts on
-- the connections of either thread, and what the wait finds, if it does not fail.
abbrev pub Tasks : Type 0
Tasks = List (((ℕ → Watched) → ℕ → Watched) × ((ℕ → Connection) → ℕ → Connection))

pub record Pass : Type 0 where
  pub stops : Bool
  pub tasks : Tasks
  pub found : Option (List Report)

abbrev pub epoll_turn : ℕ → Pass → Turn Watched (Bool × Ready)
epoll_turn dummy p = record {
  stops = p.stops;
  tasks = map (λ t. t.0) p.tasks;
  waited = Option.map (epoll_entries dummy) p.found;
}

abbrev pub kqueue_turn : Pass → Turn Connection (Filter × Bool)
kqueue_turn p = record {
  stops = p.stops;
  tasks = map (λ t. t.1) p.tasks;
  waited = Option.map kqueue_entries p.found;
}

-- Both threads have the same connections, and of them the one at `dummy` is the executor's own.
abbrev pub Same : ℕ → (ℕ → Watched) → (ℕ → Connection) → Type 0
Same dummy m n = (j : ℕ) → ((m j).0 ≡ n j) × ((m j).0.is_dummy ≡ (j == dummy))

-- The tasks do the same, and no connection that is ready is the executor's own.
abbrev pub AllAlike : ℕ → Tasks → Type 0
AllAlike dummy [] = Unit {0}
AllAlike dummy (t ∷ ts) =
    ((m : ℕ → Watched) (n : ℕ → Connection) → Same dummy m n → Same dummy (t.0 m) (t.1 n))
    × AllAlike dummy ts

abbrev pub Finds : ℕ → Option (List Report) → Type 0
Finds dummy none = Unit {0}
Finds dummy (some rs) = Foreign dummy rs

abbrev pub AllPasses : ℕ → List Pass → Type 0
AllPasses dummy [] = Unit {0}
AllPasses dummy (p ∷ ps) = AllAlike dummy p.tasks × Finds dummy p.found × AllPasses dummy ps
