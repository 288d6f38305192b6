-- ===== src/Util/Queue/Solo.antt =====
-- Runs of the queue in which one thread makes many moves while another stands still.
use xuanqiong.Base.{ℕ, ◌<◌, ◌≡◌, refl, true}
use xuanqiong.Util.Queue.{Memory, Pc, set, Move, touches, alive, System, act, Reach, later}

-- Moves of one thread, one after another, each at a chunk that is not deleted.
pub data Solo (m : Memory) (p : Pc) : Memory → Pc → Type 0 where
  here : Solo m p m p
  next_move :
      {m' m'' : Memory} {p' p'' : Pc}
      → Solo m p m' p'
      → alive m' (touches p') ≡ true
      → Move m' p' m'' p''
      → Solo m p m'' p''

-- A state reached, with thread 0 and thread 1 at given places.
pub record Stage (n : ℕ) (m : Memory) (p q : Pc) : Type 0 where
  pub state : System
  pub reached : Reach n state
  pub memory : state.mem ≡ m
  pub zeroth : state.pc 0 ≡ p
  pub first : state.pc 1 ≡ q

step_at :
    {n : ℕ} {m : Memory} {p : Pc} (i : ℕ) (s : System)
    → i < n
    → Reach n s
    → (a : Memory) (b : Pc) → s.mem ≡ a
    → s.pc i ≡ b
    → alive a (touches b) ≡ true
    → Move a b m p
    → Reach n (record { mem = m; pc = set s.pc i p })
step_at {n} {m} {p} i s l r a b e f al mv = later r (act i l (rw (e, f) al) (rw (e, f) mv))

-- Thread 0 runs alone.
pub Solo-Stage :
    {n : ℕ} {m : Memory} {p q : Pc} {m' : Memory} {p' : Pc}
    → 0 < n
    → Stage n m p q
    → Solo m p m' p'
    → Stage n m' p' q
Solo-Stage l st here = st
Solo-Stage {n} l st (next_move {m'} {m''} {p'} {p''} so al mv) =
    let u = Solo-Stage l st so in
    record {
      state = record { mem = m''; pc = set u.state.pc 0 p'' };
      reached = step_at 0 u.state l u.reached m' p' u.memory u.zeroth al mv;
      memory = refl;
      zeroth = refl;
      first = u.first;
    }

-- Thread 1 makes a move.
pub first-Stage :
    {n : ℕ} {m m' : Memory} {p q q' : Pc}
    → 1 < n
    → Stage n m p q
    → alive m (touches q) ≡ true
    → Move m q m' q'
    → Stage n m' p q'
first-Stage {n} {m} {m'} {p} {q} {q'} l st al mv = record {
  state = record { mem = m'; pc = set st.state.pc 1 q' };
  reached = step_at 1 st.state l st.reached m q st.memory st.first al mv;
  memory = refl;
  zeroth = st.zeroth;
  first = refl;
}
