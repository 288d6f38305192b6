-- ===== src/Util/Queue/Inv.antt =====
-- What holds of the queue and of every thread's local variables, between any two accesses.
pub mod Own
pub mod Others
pub mod Fields
pub mod Shared
pub mod Reachable
use xuanqiong.Base.{
  ℕ, suc, ◌+◌, ◌-◌, ◌*◌, ◌≤◌, ◌<◌, ◌≡◌, ◌≢◌, Bool, true, false, Option, none, some,
}
use xuanqiong.Util.Queue.{
  Memory, chunk_size, Pc, idle, push_load, push_index, push_claim, push_test, push_extend,
  push_link, push_seek, push_follow, push_write, push_publish, pop_load, pop_index, pop_test,
  pop_count, pop_refs, pop_next, pop_retire, pop_delete, pop_acquire, pop_claim, pop_seek,
  pop_follow, pop_leave, pop_wait, pop_take, pop_read, pop_release, popped, empty, fault,
}
use xuanqiong.Util.Queue.Family.{tally}

-- An index that a push has taken and whose slot it has not yet marked as ready.
abbrev pub writes : Pc → Option ℕ
writes (push_test v c t) = some t
writes (push_extend v c t) = some t
writes (push_link v c t) = some t
writes (push_seek v w t) = some t
writes (push_follow v w t) = some t
writes (push_write v w t) = some t
writes (push_publish v w t) = some t
writes p = none

-- An index that a pop has taken and has not yet counted as read.
abbrev pub reads : Pc → Option ℕ
reads (pop_seek c r h) = some h
reads (pop_follow c r h) = some h
reads (pop_leave c r h) = some h
reads (pop_wait c r h) = some h
reads (pop_take c r h) = some h
reads (pop_read c r h v) = some h
reads p = none

-- A push of `v` that has taken index `t`, at chunk `w`.
abbrev pub Pushing : Memory → ℕ → ℕ → ℕ → Type 0
Pushing m v w t = (chunk_size * w ≤ t) × (t < m.tail_index) × (m.pushed t ≡ v)

-- A pop at chunk `c` that has read the index `h`, which was not the end.
abbrev pub Trying : Memory → ℕ → ℕ → Type 0
Trying m c h = (chunk_size * c ≤ h) × (h ≤ m.head_index) × (h < m.tail_index)

-- A pop that has taken the index `h`, at chunk `r`.
abbrev pub Popping : Memory → ℕ → ℕ → Type 0
Popping m r h = (chunk_size * r ≤ h) × (h < m.head_index)

abbrev pub Within : ℕ → ℕ → Type 0
Within w t = t < chunk_size * w + chunk_size

abbrev pub Beyond : ℕ → ℕ → Type 0
Beyond w t = chunk_size * w + chunk_size ≤ t

-- What a thread's local variables say of the queue.
abbrev pub IsFresh : Memory → Pc → Type 0
IsFresh m (push_index v c) = chunk_size * c ≤ m.tail_index
IsFresh m (push_claim v c t) = (chunk_size * c ≤ t) × (t ≤ m.tail_index)
IsFresh m (push_test v c t) = Pushing m v c t
IsFresh m (push_extend v c t) = Pushing m v c t × Beyond c t
IsFresh m (push_link v c t) = Pushing m v c t × Beyond c t
IsFresh m (push_seek v w t) = Pushing m v w t
IsFresh m (push_follow v w t) = Pushing m v w t × Beyond w t
IsFresh m (push_write v w t) = Pushing m v w t × Within w t
IsFresh m (push_publish v w t) = Pushing m v w t × Within w t × (m.value w (t - chunk_size * w) ≡ v)
IsFresh m (pop_index c) = chunk_size * c ≤ m.head_index
IsFresh m (pop_test c h) = (chunk_size * c ≤ h) × (h ≤ m.head_index)
IsFresh m (pop_count c h) = Trying m c h
IsFresh m (pop_refs c h) = Trying m c h × Beyond c m.head_index
IsFresh m (pop_next c h) = Beyond c m.head_index
IsFresh m (pop_retire c) = Beyond c m.head_index
IsFresh m (pop_delete c) = Beyond c m.head_index
IsFresh m (pop_acquire c h) = Trying m c h
IsFresh m (pop_claim c h) = Trying m c h
IsFresh m (pop_seek c r h) = Popping m r h
IsFresh m (pop_follow c r h) = Popping m r h × Beyond r h
IsFresh m (pop_leave c r h) = Popping m r h × Within r h
IsFresh m (pop_wait c r h) = Popping m r h × Within r h
IsFresh m (pop_take c r h) = Popping m r h × Within r h × (m.ready r (h - chunk_size * r) ≡ true)
IsFresh m (pop_read c r h v) = Popping m r h × Within r h × (v ≡ m.pushed h)
IsFresh m (pop_release c h v) = (h < m.head_index) × (v ≡ m.pushed h)
IsFresh m (popped h v) = (h < m.head_index) × (v ≡ m.pushed h)
IsFresh m p = Unit {0}

-- A slot that is ready holds the task of the push that took its index.
abbrev pub IsSound : Memory → ℕ → ℕ → Type 0
IsSound m k o = (m.value k o ≡ m.pushed (chunk_size * k + o)) × (chunk_size * k + o < m.tail_index)

pub record Inv (m : Memory) (pc : ℕ → Pc) : Type 0 where
  pub order : m.head_index ≤ m.tail_index
  pub tail_low : chunk_size * m.tail_chunk ≤ m.tail_index
  pub head_low : chunk_size * m.head_chunk ≤ m.head_index
  pub sound : (k o : ℕ) → m.ready k o ≡ true → IsSound m k o
  pub unready : (i t k o : ℕ) → writes (pc i) ≡ some t → m.ready k o ≡ true → chunk_size * k + o ≢ t
  pub one_writer : (i j t : ℕ) → writes (pc i) ≡ some t → writes (pc j) ≡ some t → i ≡ j
  pub one_reader : (i j h : ℕ) → reads (pc i) ≡ some h → reads (pc j) ≡ some h → i ≡ j
  pub tallied : (k : ℕ) → m.read_count k ≡ tally m.counted (chunk_size * k) chunk_size
  pub counted_below : (h : ℕ) → m.counted h ≡ true → h < m.head_index
  pub uncounted : (i h : ℕ) → reads (pc i) ≡ some h → m.counted h ≡ false
  pub fresh : (i : ℕ) → IsFresh m (pc i)
