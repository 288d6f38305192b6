-- ===== src/Util/Queue/Deleted.antt =====
-- A pop can touch a chunk that another thread has deleted.
use xuanqiong.Base.{
  ℕ, zero, suc, ◌+◌, ◌-◌, ◌*◌, ◌≤◌, ◌<◌, ◌≡◌, refl, ap, ◌∙◌, subst, Bool, true, false, some, arith,
}
use xuanqiong.Util.Queue.{
  Memory, chunk_size, init, Pc, idle, pop_index, pop_delete, set, set_slot, call_push, load_tail,
  load_tail_index, push_win, fits, full, extend_win, store_next, push_here, push_beyond, push_next,
  write_value, store_ready, call_pop, load_head, load_head_index, some_left, all_read, not_read,
  no_refs, has_next, retire_win, delete_chunk, add_ref, pop_win, pop_here_first, is_ready,
  load_value, add_read_first, drop_ref_last, return_task, touches, alive, System, Reach, start,
}
use xuanqiong.Util.Queue.Solo.{Solo, here, next_move, Stage, Solo-Stage, first-Stage}

-- Between calls: `k` tasks were pushed and popped, in the first chunk.
record Quiet (k : ℕ) (m : Memory) : Type 0 where
  heads : m.head_index ≡ k
  tails : m.tail_index ≡ k
  head_first : m.head_chunk ≡ 0
  tail_first : m.tail_chunk ≡ 0
  read : m.read_count 0 ≡ k
  refs : m.ref_count 0 ≡ 0
  kept : (c : ℕ) → m.freed c ≡ false

kept-alive : (m : Memory) → ((c : ℕ) → m.freed c ≡ false) → (c : ℕ) → alive m (some c) ≡ true
kept-alive m h c = rw (h c) refl

set_here : {A : Type 0} (f : ℕ → A) (i : ℕ) (a : A) (j : ℕ) → i ≡ j → set f i a j ≡ a
set_here f i a j e = ground arith

slot_here : (f : ℕ → ℕ → Bool) (k l o p : ℕ) → k ≡ l → o ≡ p → set_slot f k o true l p ≡ true
slot_here f k l o p d e = ground arith

-- A push and a pop in the first chunk.
round :
    (k : ℕ) (m : Memory)
    → k < chunk_size
    → Quiet k m
    → (m' : Memory) × Solo m idle m' idle × Quiet (suc k) m'
round k m l q =
    let al = kept-alive m q.kept in
    let hc = q.head_first in
    let tc = q.tail_first in
    let hi = q.heads in
    let ti = q.tails in
    let rd = q.read in
    let ready_slot =
      slot_here m.ready m.tail_chunk m.head_chunk (m.tail_index - chunk_size * m.tail_chunk)
        (m.head_index - chunk_size * m.head_chunk) (omega arith) (omega arith) in
    let one_read : set m.read_count m.head_chunk (suc (m.read_count m.head_chunk)) 0 ≡ suc k =
      ap (λ j. set m.read_count j (suc (m.read_count j)) 0) hc ∙ ap suc rd in
    let no_ref : set (set m.ref_count m.head_chunk (suc (m.ref_count m.head_chunk))) m.head_chunk
          (set m.ref_count m.head_chunk (suc (m.ref_count m.head_chunk)) m.head_chunk - 1) 0
        ≡ 0 =
      ap
        (λ j.
          set (set m.ref_count j (suc (m.ref_count j))) j
            (set m.ref_count j (suc (m.ref_count j)) j - 1) 0)
        hc
      ∙ omega arith in
    let s1 =
      next_move (next_move (next_move here refl (call_push {v = 0})) refl load_tail) refl
        load_tail_index in
    let s2 = next_move (next_move s1 refl (push_win refl)) (al m.tail_chunk) (fits (omega arith)) in
    let s3 = next_move (next_move s2 (al m.tail_chunk) write_value) (al m.tail_chunk) store_ready in
    let s4 =
      next_move (next_move (next_move s3 refl call_pop) refl load_head) refl load_head_index in
    let s5 = next_move s4 refl (some_left (omega arith)) in
    let s6 =
      next_move s5 (al m.head_chunk) (not_read (λ e. omega (arith, e, ap m.read_count hc))) in
    let s7 = next_move (next_move s6 (al m.head_chunk) add_ref) refl (pop_win refl) in
    let s8 = next_move s7 (al m.head_chunk) (pop_here_first (omega arith) refl) in
    let s9 = next_move s8 (al m.head_chunk) (is_ready ready_slot) in
    let s10 =
      next_move (next_move s9 (al m.head_chunk) load_value) (al m.head_chunk)
        (add_read_first refl) in
    let s11 = next_move (next_move s10 (al m.head_chunk) drop_ref_last) refl return_task in
    (
      _,
      s11,
      record {
        heads = ap suc hi;
        tails = ap suc ti;
        head_first = hc;
        tail_first = tc;
        read = one_read;
        refs = no_ref;
        kept = q.kept;
      },
    )

-- So often as there are slots in a chunk.
rounds :
    {n : ℕ} {q : Pc} (d k : ℕ) (m : Memory)
    → 0 < n
    → d + k ≤ chunk_size
    → Quiet k m
    → Stage n m idle q
    → (m' : Memory) × Quiet (d + k) m' × Stage n m' idle q
rounds zero k m l b u st = (m, subst (λ j. Quiet j m) (omega arith) u, st)
rounds (suc d) k m l b u st =
    let (m', so, u') = round k m (omega arith) u in
    let (m'', u'', st'') = rounds d (suc k) m' l (omega arith) u' (Solo-Stage l st so) in
    (m'', subst (λ j. Quiet j m'') (omega arith) u'', st'')

-- With every slot of the first chunk read: a push makes the second chunk, and a pop is about to
-- delete the first.
retire :
    (m : Memory)
    → Quiet chunk_size m
    → (m' : Memory) × Solo m idle m' (pop_delete m.head_chunk)
      × (m'.head_index ≡ chunk_size)
      × (m'.tail_index ≡ suc chunk_size)
      × (m'.freed ≡ m.freed)
retire m q =
    let al = kept-alive m q.kept in
    let hc = q.head_first in
    let tc = q.tail_first in
    let hi = q.heads in
    let ti = q.tails in
    let rd = q.read in
    let rf = q.refs in
    let same : m.tail_chunk ≡ m.head_chunk = omega arith in
    let s1 =
      next_move (next_move (next_move here refl (call_push {v = 0})) refl load_tail) refl
        load_tail_index in
    let s2 = next_move (next_move s1 refl (push_win refl)) (al m.tail_chunk) (full (omega arith)) in
    let s3 =
      next_move (next_move s2 (al m.tail_chunk) (extend_win refl)) (al m.tail_chunk) store_next in
    let s4 = next_move s3 (al m.tail_chunk) (push_beyond (omega arith)) in
    let s5 =
      next_move s4 (al m.tail_chunk)
        (push_next (set_here m.next m.tail_chunk true m.tail_chunk refl)) in
    let s6 = next_move s5 (al (suc m.tail_chunk)) (push_here (omega arith)) in
    let s7 =
      next_move (next_move s6 (al (suc m.tail_chunk)) write_value) (al (suc m.tail_chunk))
        store_ready in
    let s8 =
      next_move (next_move (next_move s7 refl call_pop) refl load_head) refl load_head_index in
    let s9 = next_move s8 refl (some_left (omega arith)) in
    let s10 = next_move s9 (al m.head_chunk) (all_read (ap m.read_count hc ∙ rd)) in
    let s11 = next_move s10 (al m.head_chunk) (no_refs (ap m.ref_count hc ∙ rf)) in
    let s12 =
      next_move s11 (al m.head_chunk)
        (has_next (set_here m.next m.tail_chunk true m.head_chunk same)) in
    let s13 = next_move s12 (al m.head_chunk) (retire_win refl) in (_, s13, hi, ap suc ti, refl)

-- Thread 1 has started a pop, and has loaded `head_chunk_`.
started : (n : ℕ) → 1 < n → Stage n init idle (pop_index 0)
started n l =
    let st : Stage n init idle idle = record {
      state = record { mem = init; pc = λ _. idle };
      reached = start;
      memory = refl;
      zeroth = refl;
      first = refl;
    } in
    first-Stage l (first-Stage l st refl call_pop) refl load_head

init-Quiet : Quiet 0 init
init-Quiet = record {
  heads = refl;
  tails = refl;
  head_first = refl;
  tail_first = refl;
  read = refl;
  refs = refl;
  kept = λ c. refl;
}

-- Thread 1 has loaded `head_chunk_`, and thread 0 is about to delete that chunk.
about_to_delete :
    (n : ℕ)
    → 1 < n
    → (m : Memory) × Stage n m (pop_delete 0) (pop_index 0)
      × (m.head_index ≡ chunk_size)
      × (m.tail_index ≡ suc chunk_size)
      × (m.freed 0 ≡ false)
about_to_delete n l =
    let (m, q, st) = rounds 4096 0 init (omega arith) (omega arith) init-Quiet (started n l) in
    let (m', so, h, t, f) = retire m q in
    let st' = Solo-Stage (omega arith) st so in
    (
      m',
      subst (λ c. Stage n m' (pop_delete c) (pop_index 0)) q.head_first st',
      h,
      t,
      ap (λ g. g 0) f ∙ q.kept 0,
    )

-- A chunk can be read to its end, and a pop of it come so far.
pub pop_delete_reached : (n : ℕ) → 1 < n → (s : System) × Reach n s × (s.pc 0 ≡ pop_delete 0)
pop_delete_reached n l =
    let (m, st, h, t, f) = about_to_delete n l in (st.state, st.reached, st.zeroth)

-- With two threads at least, the accesses can lead to a state where chunk 0 was deleted and the
-- next access of thread 1 is to chunk 0: it loaded `head_chunk_` before, and counts no reference
-- until it has read the chunk.
pub deleted_chunk_touched :
    (n : ℕ)
    → 1 < n
    → (s : System) × Reach n s × (touches (s.pc 1) ≡ some 0) × (s.mem.freed 0 ≡ true)
deleted_chunk_touched n l =
    let (m, st, h, t, f) = about_to_delete n l in
    let st' = Solo-Stage (omega arith) st (next_move here (rw f refl) delete_chunk) in
    let a = first-Stage l st' refl load_head_index in
    let b = first-Stage l a refl (some_left (omega arith)) in
    (b.state, b.reached, rw (b.first) refl, rw (b.memory) refl)
