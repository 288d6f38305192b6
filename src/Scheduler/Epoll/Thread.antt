-- ===== src/Scheduler/Epoll/Thread.antt =====
-- scheduler/epoll_exector.cc: an entry of epoll_wait's result, with the coroutines that it resumes.
-- What a coroutine does, when it is resumed, with its connection and with what epoll watches it for is
-- an argument.
use xuanqiong.Base.{ℕ, Bool, false, List, [], ◌∷◌}
use xuanqiong.Net.Connection.{Connection}
use xuanqiong.Scheduler.Epoll.{Interest, Ready, Side, handle_event}
use xuanqiong.Scheduler.Batch.{Turn, thread}

unfoldable pub resume_all : {A : Type 0} → (Side → A → A) → List Side → A → A
resume_all resume [] a = a
resume_all resume (s ∷ ss) a = resume_all resume ss (resume s a)

abbrev pub Watched : Type 0
Watched = Connection × Interest

-- An entry: whether a call of epoll_ctl succeeds, and the events.
unfoldable pub epoll_handle : (Side → Watched → Watched) → Bool × Ready → Watched → Watched × Bool
unfolding handle_event resume_all
epoll_handle resume (ok, r) (c, i) =
    let h = handle_event ok c i r in (resume_all resume h.resumed (h.conn, h.interest), h.cleared)

-- The thread.
unfoldable pub epoll_thread :
    (Side → Watched → Watched)
    → List (Turn Watched (Bool × Ready))
    → (ℕ → Watched) × Bool
    → (ℕ → Watched) × Bool
unfolding epoll_handle thread
epoll_thread resume = thread (epoll_handle resume) (λ _. false)
