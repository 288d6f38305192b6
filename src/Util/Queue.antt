-- ===== src/Util/Queue.antt =====
-- util/mpmc_queue.h and util/mpmc_queue.inl.h: the queue of tasks that many threads push to and pop
-- from. A chunk is named by its number, which is its `begin_index` over CHUNK_SIZE; a chunk made by
-- a push that loses its race is deleted before another thread can see it, and has no number. The
-- addresses of deleted chunks are taken not to be used again, the indices to stay below 2 ^ 64, and
-- the atomic accesses to be sequentially consistent.
pub mod Family
pub mod Inv
pub mod Fifo
pub mod Slots
pub mod Refs
pub mod Solo
pub mod Deleted
use xuanqiong.Base.{
  ℕ, zero, suc, ◌+◌, ◌-◌, ◌*◌, ◌≤◌, ◌<◌, ◌≡◌, ◌≢◌, Bool, true, false, ◌&&◌, Option, none, some,
  ◌==◌, if◌then◌else◌,
}

-- CHUNK_SIZE
abbrev pub chunk_size : ℕ
chunk_size = 4096

-- The members of `MPMCQueue`, and those of its chunks by a chunk's number: whether `next` is set (to
-- the chunk numbered one more), and by an offset too, the slots. A task is a number.
-- Three fields are no memory: which chunks were deleted, the task of the push that took an index,
-- and the indices whose pops have counted themselves in `read_count`; and one more, how often a pop
-- of a chunk lost its race after `fetch_add`.
pub record Memory : Type 0 where
  pub head_chunk : ℕ
  pub head_index : ℕ
  pub tail_chunk : ℕ
  pub tail_index : ℕ
  pub next : ℕ → Bool
  pub read_count : ℕ → ℕ
  pub ref_count : ℕ → ℕ
  pub ready : ℕ → ℕ → Bool
  pub value : ℕ → ℕ → ℕ
  pub freed : ℕ → Bool
  pub pushed : ℕ → ℕ
  pub counted : ℕ → Bool
  pub lost : ℕ → ℕ

-- The constructor.
abbrev pub init : Memory
init = record {
  head_chunk = 0;
  head_index = 0;
  tail_chunk = 0;
  tail_index = 0;
  next = λ _. false;
  read_count = λ _. 0;
  ref_count = λ _. 0;
  ready = λ _ _. false;
  value = λ _ _. 0;
  freed = λ _. false;
  pushed = λ _. 0;
  counted = λ _. false;
  lost = λ _. 0;
}

-- Where a thread stands, before its next access, with the local variables that are live there:
-- `v` is the task, `c` is `tail_chunk` or `head_chunk`, `t` or `h` the index, `w` or `r` is
-- `write_chunk` or `read_chunk`.
pub data Pc : Type 0 where
  idle : Pc
  -- push: the loads, the exchange of `tail_index_`, the test for a full chunk, the exchange of
  -- `tail_chunk_`, the store of `next`, the loop over the chunks, and the slot
  push_load : (v : ℕ) → Pc
  push_index : (v c : ℕ) → Pc
  push_claim : (v c t : ℕ) → Pc
  push_test : (v c t : ℕ) → Pc
  push_extend : (v c t : ℕ) → Pc
  push_link : (v c t : ℕ) → Pc
  push_seek : (v w t : ℕ) → Pc
  push_follow : (v w t : ℕ) → Pc
  push_write : (v w t : ℕ) → Pc
  push_publish : (v w t : ℕ) → Pc
  -- pop: the loads, the test for an empty queue, the three tests of a chunk that was read, its
  -- exchange and its deletion
  pop_load : Pc
  pop_index : (c : ℕ) → Pc
  pop_test : (c h : ℕ) → Pc
  pop_count : (c h : ℕ) → Pc
  pop_refs : (c h : ℕ) → Pc
  pop_next : (c h : ℕ) → Pc
  pop_retire : (c : ℕ) → Pc
  pop_delete : (c : ℕ) → Pc
  -- the reference, the exchange of `head_index_`, the loop over the chunks, the slot, the counts
  pop_acquire : (c h : ℕ) → Pc
  pop_claim : (c h : ℕ) → Pc
  pop_seek : (c r h : ℕ) → Pc
  pop_follow : (c r h : ℕ) → Pc
  pop_leave : (c r h : ℕ) → Pc
  pop_wait : (c r h : ℕ) → Pc
  pop_take : (c r h : ℕ) → Pc
  pop_read : (c r h v : ℕ) → Pc
  pop_release : (c h v : ℕ) → Pc
  -- returned: the task of index `h`, or false; or a deleted chunk was touched
  popped : (h v : ℕ) → Pc
  empty : Pc
  fault : Pc

abbrev pub set {ℓ} : {A : Type ℓ} → (ℕ → A) → ℕ → A → ℕ → A
set f i a j = if i == j then a else f j

abbrev pub set_slot {ℓ} : {A : Type ℓ} → (ℕ → ℕ → A) → ℕ → ℕ → A → ℕ → ℕ → A
set_slot f k o a l p = if k == l && o == p then a else f l p

-- One access of a thread. An exchange that may fail without cause has no premise where it fails.
pub data Move (m : Memory) : Pc → Memory → Pc → Type 0 where
  call_push : {v : ℕ} → Move m idle m (push_load v)
  load_tail : {v : ℕ} → Move m (push_load v) m (push_index v m.tail_chunk)
  load_tail_index : {v c : ℕ} → Move m (push_index v c) m (push_claim v c m.tail_index)
  push_win :
      {v c t : ℕ}
      → m.tail_index ≡ t
      → Move m
          (push_claim v c t)
          (record m { tail_index = suc t; pushed = set m.pushed t v })
          (push_test v c t)
  push_lose : {v c t : ℕ} → Move m (push_claim v c t) m (push_load v)
  fits :
      {v c t : ℕ} → t < chunk_size * c + chunk_size → Move m (push_test v c t) m (push_write v c t)
  full :
      {v c t : ℕ} → chunk_size * c + chunk_size ≤ t → Move m (push_test v c t) m (push_extend v c t)
  extend_win :
      {v c t : ℕ}
      → m.tail_chunk ≡ c
      → Move m (push_extend v c t) (record m { tail_chunk = suc c }) (push_link v c t)
  extend_lose : {v c t : ℕ} → m.tail_chunk ≢ c → Move m (push_extend v c t) m (push_seek v c t)
  store_next :
      {v c t : ℕ}
      → Move m (push_link v c t) (record m { next = set m.next c true }) (push_seek v c t)
  push_here :
      {v w t : ℕ} → t < chunk_size * w + chunk_size → Move m (push_seek v w t) m (push_write v w t)
  push_beyond :
      {v w t : ℕ} → chunk_size * w + chunk_size ≤ t → Move m (push_seek v w t) m (push_follow v w t)
  push_spin : {v w t : ℕ} → m.next w ≡ false → Move m (push_follow v w t) m (push_follow v w t)
  push_next : {v w t : ℕ} → m.next w ≡ true → Move m (push_follow v w t) m (push_seek v (suc w) t)
  write_value :
      {v w t : ℕ}
      → Move m
          (push_write v w t)
          (record m { value = set_slot m.value w (t - chunk_size * w) v })
          (push_publish v w t)
  store_ready :
      {v w t : ℕ}
      → Move m
          (push_publish v w t)
          (record m { ready = set_slot m.ready w (t - chunk_size * w) true })
          idle
  call_pop : Move m idle m pop_load
  load_head : Move m pop_load m (pop_index m.head_chunk)
  load_head_index : {c : ℕ} → Move m (pop_index c) m (pop_test c m.head_index)
  none_left : {c h : ℕ} → m.tail_index ≡ h → Move m (pop_test c h) m empty
  some_left : {c h : ℕ} → m.tail_index ≢ h → Move m (pop_test c h) m (pop_count c h)
  all_read : {c h : ℕ} → m.read_count c ≡ chunk_size → Move m (pop_count c h) m (pop_refs c h)
  not_read : {c h : ℕ} → m.read_count c ≢ chunk_size → Move m (pop_count c h) m (pop_acquire c h)
  no_refs : {c h : ℕ} → m.ref_count c ≡ 0 → Move m (pop_refs c h) m (pop_next c h)
  has_refs : {c h : ℕ} → m.ref_count c ≢ 0 → Move m (pop_refs c h) m (pop_acquire c h)
  no_next : {c h : ℕ} → m.next c ≡ false → Move m (pop_next c h) m pop_load
  has_next : {c h : ℕ} → m.next c ≡ true → Move m (pop_next c h) m (pop_retire c)
  retire_win :
      {c : ℕ}
      → m.head_chunk ≡ c
      → Move m (pop_retire c) (record m { head_chunk = suc c }) (pop_delete c)
  retire_lose : {c : ℕ} → Move m (pop_retire c) m pop_load
  delete_chunk : {c : ℕ} → Move m (pop_delete c) (record m { freed = set m.freed c true }) pop_load
  add_ref :
      {c h : ℕ}
      → Move m
          (pop_acquire c h)
          (record m { ref_count = set m.ref_count c (suc (m.ref_count c)) })
          (pop_claim c h)
  pop_win :
      {c h : ℕ}
      → m.head_index ≡ h
      → Move m (pop_claim c h) (record m { head_index = suc h }) (pop_seek c c h)
  pop_lose :
      {c h : ℕ}
      → Move m (pop_claim c h) (record m { lost = set m.lost c (suc (m.lost c)) }) pop_load
  pop_here_first :
      {c r h : ℕ}
      → h < chunk_size * r + chunk_size
      → r ≡ c
      → Move m (pop_seek c r h) m (pop_wait c r h)
  pop_here :
      {c r h : ℕ}
      → h < chunk_size * r + chunk_size
      → r ≢ c
      → Move m (pop_seek c r h) m (pop_leave c r h)
  pop_beyond :
      {c r h : ℕ} → chunk_size * r + chunk_size ≤ h → Move m (pop_seek c r h) m (pop_follow c r h)
  pop_spin : {c r h : ℕ} → m.next r ≡ false → Move m (pop_follow c r h) m (pop_follow c r h)
  pop_go : {c r h : ℕ} → m.next r ≡ true → Move m (pop_follow c r h) m (pop_seek c (suc r) h)
  drop_ref :
      {c r h : ℕ}
      → Move m
          (pop_leave c r h)
          (record m { ref_count = set m.ref_count c (m.ref_count c - 1) })
          (pop_wait c r h)
  not_ready :
      {c r h : ℕ}
      → m.ready r (h - chunk_size * r) ≡ false
      → Move m (pop_wait c r h) m (pop_wait c r h)
  is_ready :
      {c r h : ℕ}
      → m.ready r (h - chunk_size * r) ≡ true
      → Move m (pop_wait c r h) m (pop_take c r h)
  load_value :
      {c r h : ℕ} → Move m (pop_take c r h) m (pop_read c r h (m.value r (h - chunk_size * r)))
  add_read :
      {c r h v : ℕ}
      → r ≢ c
      → Move m
          (pop_read c r h v)
          (record m {
            read_count = set m.read_count r (suc (m.read_count r));
            counted = set m.counted h true;
          })
          (popped h v)
  add_read_first :
      {c r h v : ℕ}
      → r ≡ c
      → Move m
          (pop_read c r h v)
          (record m {
            read_count = set m.read_count r (suc (m.read_count r));
            counted = set m.counted h true;
          })
          (pop_release c h v)
  drop_ref_last :
      {c h v : ℕ}
      → Move m
          (pop_release c h v)
          (record m { ref_count = set m.ref_count c (m.ref_count c - 1) })
          (popped h v)
  return_task : {h v : ℕ} → Move m (popped h v) m idle
  return_false : Move m empty m idle

-- The chunk that the next access of a thread touches.
abbrev pub touches : Pc → Option ℕ
touches (push_test v c t) = some c
touches (push_extend v c t) = some c
touches (push_link v c t) = some c
touches (push_seek v w t) = some w
touches (push_follow v w t) = some w
touches (push_write v w t) = some w
touches (push_publish v w t) = some w
touches (pop_count c h) = some c
touches (pop_refs c h) = some c
touches (pop_next c h) = some c
touches (pop_retire c) = some c
touches (pop_delete c) = some c
touches (pop_acquire c h) = some c
touches (pop_seek c r h) = some r
touches (pop_follow c r h) = some r
touches (pop_leave c r h) = some c
touches (pop_wait c r h) = some r
touches (pop_take c r h) = some r
touches (pop_read c r h v) = some r
touches (pop_release c h v) = some c
touches p = none

abbrev pub alive : Memory → Option ℕ → Bool
alive m none = true
alive m (some c) = if m.freed c then false else true

-- `n` threads over one queue, in any order.
pub record System : Type 0 where
  pub mem : Memory
  pub pc : ℕ → Pc

pub data Step (n : ℕ) (s : System) : System → Type 0 where
  act :
      (i : ℕ) {m : Memory} {p : Pc}
      → i < n
      → alive s.mem (touches (s.pc i)) ≡ true
      → Move s.mem (s.pc i) m p
      → Step n s (record { mem = m; pc = set s.pc i p })
  crash :
      (i : ℕ)
      → i < n
      → alive s.mem (touches (s.pc i)) ≡ false
      → Step n s (record { mem = s.mem; pc = set s.pc i fault })

pub data Reach (n : ℕ) : System → Type 0 where
  start : Reach n (record { mem = init; pc = λ _. idle })
  later : {s t : System} → Reach n s → Step n s t → Reach n t
