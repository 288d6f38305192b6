-- ===== src/Util/Queue/Inv/Others.antt =====
-- A move of one thread leaves what the local variables of another say true.
use xuanqiong.Base.{ℕ, ◌-◌, ◌*◌, ◌≤◌, ◌<◌, ◌≡◌, ◌≢◌, refl, sym, ◌∙◌, true, some, arith}
use xuanqiong.Util.Queue.{
  Memory, chunk_size, Pc, idle, push_load, push_index, push_claim, push_test, push_extend,
  push_link, push_seek, push_follow, push_write, push_publish, pop_load, pop_index, pop_test,
  pop_count, pop_refs, pop_next, pop_retire, pop_delete, pop_acquire, pop_claim, pop_seek,
  pop_follow, pop_leave, pop_wait, pop_take, pop_read, pop_release, popped, empty, fault, Move,
  call_push,
}
use xuanqiong.Util.Queue.Inv.{writes, Pushing, Trying, Popping, Within, IsFresh}
use xuanqiong.Util.Queue.Inv.Own.{guard}

-- What any move keeps: no index goes back, no task of an index taken changes, no slot is unready
-- again, and the slot of another thread's index is not written.
pub record Grows (m m' : Memory) : Type 0 where
  pub heads : m.head_index ≤ m'.head_index
  pub tails : m.tail_index ≤ m'.tail_index
  pub same : (t : ℕ) → t < m.tail_index → m'.pushed t ≡ m.pushed t
  pub still : (k o : ℕ) → m.ready k o ≡ true → m'.ready k o ≡ true

pub Move-Grows : {m m' : Memory} {p p' : Pc} → Move m p m' p' → IsFresh m p → Grows m m'
Move-Grows {m} {m'} mv f = record {
  heads = head_grows mv;
  tails = tail_grows mv;
  same = same mv;
  still = still mv;
}
  where
    head_grows : {m m' : Memory} {p p' : Pc} → Move m p m' p' → m.head_index ≤ m'.head_index
    head_grows call_push = omega arith
    head_grows mv = ground (arith, guard mv)

    tail_grows : {m m' : Memory} {p p' : Pc} → Move m p m' p' → m.tail_index ≤ m'.tail_index
    tail_grows call_push = omega arith
    tail_grows mv = ground (arith, guard mv)

    same :
        {m m' : Memory} {p p' : Pc}
        → Move m p m' p'
        → (t : ℕ) → t < m.tail_index
        → m'.pushed t ≡ m.pushed t
    same call_push t l = refl
    same mv t l = ground (arith, guard mv)

    still :
        {m m' : Memory} {p p' : Pc}
        → Move m p m' p'
        → (k o : ℕ) → m.ready k o ≡ true
        → m'.ready k o ≡ true
    still call_push k o l = l
    still mv k o l = ground (arith, guard mv)

-- The slot of index `t` at chunk `w` is written by no thread but the one that took `t`.
pub Move-value :
    {m m' : Memory} {p p' : Pc}
    → Move m p m' p'
    → IsFresh m p
    → (w t : ℕ) → chunk_size * w ≤ t
    → Within w t
    → writes p ≢ some t
    → m'.value w (t - chunk_size * w) ≡ m.value w (t - chunk_size * w)
Move-value call_push f w t l b d = refl
Move-value mv f w t l b d = ground (arith, guard mv)

Pushing-Grows : {m m' : Memory} (v w t : ℕ) → Grows m m' → Pushing m v w t → Pushing m' v w t
Pushing-Grows v w t g (a, b, c) = (a, omega (arith, g.tails), g.same t b ∙ c)

Trying-Grows : {m m' : Memory} (c h : ℕ) → Grows m m' → Trying m c h → Trying m' c h
Trying-Grows c h g f = omega (arith, g.heads, g.tails)

Popping-Grows : {m m' : Memory} (r h : ℕ) → Grows m m' → Popping m r h → Popping m' r h
Popping-Grows r h g f = omega (arith, g.heads)

-- The task of an index taken by a pop is still its task.
task-Grows :
    {m m' : Memory} (h v : ℕ)
    → Grows m m'
    → m.head_index ≤ m.tail_index
    → h < m.head_index
    → v ≡ m.pushed h
    → (h < m'.head_index) × (v ≡ m'.pushed h)
task-Grows h v g o l e = (omega (arith, g.heads), e ∙ sym (g.same h (omega arith)))

pub IsFresh-Grows :
    {m m' : Memory} (q : Pc)
    → Grows m m'
    → m.head_index ≤ m.tail_index
    → ((w t : ℕ)
        → writes q ≡ some t
        → chunk_size * w ≤ t
        → Within w t
        → m'.value w (t - chunk_size * w) ≡ m.value w (t - chunk_size * w))
    → IsFresh m q
    → IsFresh m' q
IsFresh-Grows (push_index v c) g o u f = omega (arith, g.tails)
IsFresh-Grows (push_claim v c t) g o u f = omega (arith, g.tails)
IsFresh-Grows (push_test v c t) g o u f = Pushing-Grows v c t g f
IsFresh-Grows (push_extend v c t) g o u (f, b) = (Pushing-Grows v c t g f, b)
IsFresh-Grows (push_link v c t) g o u (f, b) = (Pushing-Grows v c t g f, b)
IsFresh-Grows (push_seek v w t) g o u f = Pushing-Grows v w t g f
IsFresh-Grows (push_follow v w t) g o u (f, b) = (Pushing-Grows v w t g f, b)
IsFresh-Grows (push_write v w t) g o u (f, b) = (Pushing-Grows v w t g f, b)
IsFresh-Grows (push_publish v w t) g o u (f, b, e) =
    (Pushing-Grows v w t g f, b, u w t refl f.0 b ∙ e)
IsFresh-Grows (pop_index c) g o u f = omega (arith, g.heads)
IsFresh-Grows (pop_test c h) g o u f = omega (arith, g.heads)
IsFresh-Grows (pop_count c h) g o u f = Trying-Grows c h g f
IsFresh-Grows (pop_refs c h) g o u (f, b) = (Trying-Grows c h g f, omega (arith, g.heads))
IsFresh-Grows (pop_next c h) g o u f = omega (arith, g.heads)
IsFresh-Grows (pop_retire c) g o u f = omega (arith, g.heads)
IsFresh-Grows (pop_delete c) g o u f = omega (arith, g.heads)
IsFresh-Grows (pop_acquire c h) g o u f = Trying-Grows c h g f
IsFresh-Grows (pop_claim c h) g o u f = Trying-Grows c h g f
IsFresh-Grows (pop_seek c r h) g o u f = Popping-Grows r h g f
IsFresh-Grows (pop_follow c r h) g o u (f, b) = (Popping-Grows r h g f, b)
IsFresh-Grows (pop_leave c r h) g o u (f, b) = (Popping-Grows r h g f, b)
IsFresh-Grows (pop_wait c r h) g o u (f, b) = (Popping-Grows r h g f, b)
IsFresh-Grows (pop_take c r h) g o u (f, b, e) =
    (Popping-Grows r h g f, b, g.still r (h - chunk_size * r) e)
IsFresh-Grows (pop_read c r h v) g o u (f, b, e) =
    (Popping-Grows r h g f, b, (task-Grows h v g o f.1 e).1)
IsFresh-Grows (pop_release c h v) g o u (l, e) = task-Grows h v g o l e
IsFresh-Grows (popped h v) g o u (l, e) = task-Grows h v g o l e
IsFresh-Grows idle g o u f = tt
IsFresh-Grows (push_load v) g o u f = tt
IsFresh-Grows pop_load g o u f = tt
IsFresh-Grows empty g o u f = tt
IsFresh-Grows fault g o u f = tt
