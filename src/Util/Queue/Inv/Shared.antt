-- ===== src/Util/Queue/Inv/Shared.antt =====
-- A move keeps what the invariant says of the shared memory alone.
use xuanqiong.Base.{
  ℕ, suc, ◌+◌, ◌-◌, ◌*◌, ◌≤◌, ◌<◌, ◌≡◌, ◌≢◌, refl, ap, true, false, some, arith, ℕ_discrete, dec_lt,
}
use xuanqiong.Util.Queue.{
  Memory, chunk_size, Pc, set, Move, call_push, write_value, store_ready, add_read, add_read_first,
}
use xuanqiong.Util.Queue.Family.{tally, tally-set, tally-set_above, tally-set_below}
use xuanqiong.Util.Queue.Inv.{writes, reads, Within, IsFresh, IsSound}
use xuanqiong.Util.Queue.Inv.Own.{guard}

pub Move-order :
    {m m' : Memory} {p p' : Pc}
    → Move m p m' p'
    → IsFresh m p
    → m.head_index ≤ m.tail_index
    → m'.head_index ≤ m'.tail_index
Move-order call_push f o = o
Move-order mv f o = ground (arith, guard mv)

pub Move-tail_low :
    {m m' : Memory} {p p' : Pc}
    → Move m p m' p'
    → IsFresh m p
    → chunk_size * m.tail_chunk ≤ m.tail_index
    → chunk_size * m'.tail_chunk ≤ m'.tail_index
Move-tail_low call_push f o = o
Move-tail_low mv f o = ground (arith, guard mv)

pub Move-head_low :
    {m m' : Memory} {p p' : Pc}
    → Move m p m' p'
    → IsFresh m p
    → chunk_size * m.head_chunk ≤ m.head_index
    → chunk_size * m'.head_chunk ≤ m'.head_index
Move-head_low call_push f o = o
Move-head_low mv f o = ground (arith, guard mv)

pub Move-counted_below :
    {m m' : Memory} {p p' : Pc}
    → Move m p m' p'
    → IsFresh m p
    → (h : ℕ) → (m.counted h ≡ true → h < m.head_index)
    → m'.counted h ≡ true
    → h < m'.head_index
Move-counted_below call_push f h o e = o e
Move-counted_below mv f h o e = ground (arith, guard mv)

-- The slot that a store of `ready` marks holds the task of its index.
pub Move-IsSound :
    {m m' : Memory} {p p' : Pc}
    → Move m p m' p'
    → IsFresh m p
    → (k o : ℕ) → (m.ready k o ≡ true → IsSound m k o)
    → ((t : ℕ) → writes p ≡ some t → m.ready k o ≡ true → chunk_size * k + o ≢ t)
    → m'.ready k o ≡ true
    → IsSound m' k o
Move-IsSound call_push f k o s u r = s r
Move-IsSound (write_value {v} {w} {t}) f k o s u r = ground (arith, u t refl)
Move-IsSound {m} (store_ready {v} {w} {t}) f k o s u r =
    ground (arith, ap m.pushed (back w t f.0.0))
  where
    back : (w t : ℕ) → chunk_size * w ≤ t → chunk_size * w + (t - chunk_size * w) ≡ t
    back w t l = omega arith
Move-IsSound mv f k o s u r = ground (arith, guard mv)

-- A count of one more read, and one more index marked.
add_tally :
    (m : Memory) (r h k : ℕ)
    → chunk_size * r ≤ h
    → Within r h
    → m.counted h ≡ false
    → m.read_count k ≡ tally m.counted (chunk_size * k) chunk_size
    → set m.read_count r (suc (m.read_count r)) k
      ≡ tally (set m.counted h true) (chunk_size * k) chunk_size
add_tally m r h k l b c e = elim (ℕ_discrete r k) [
  | yes same ↦ ground (arith, tally-set m.counted (chunk_size * k) chunk_size h)
  | no other ↦ elim (dec_lt h (chunk_size * k)) [
    | yes below ↦ ground (arith, tally-set_below m.counted (chunk_size * k) chunk_size h)
    | no above ↦ ground (arith, tally-set_above m.counted (chunk_size * k) chunk_size h)
  ]
]

pub Move-tallied :
    {m m' : Memory} {p p' : Pc}
    → Move m p m' p'
    → IsFresh m p
    → ((h : ℕ) → reads p ≡ some h → m.counted h ≡ false)
    → (k : ℕ) → m.read_count k ≡ tally m.counted (chunk_size * k) chunk_size
    → m'.read_count k ≡ tally m'.counted (chunk_size * k) chunk_size
Move-tallied call_push f u k e = e
Move-tallied {m} (add_read {c} {r} {h} g) f u k e = add_tally m r h k f.0.0 f.1 (u h refl) e
Move-tallied {m} (add_read_first {c} {r} {h} g) f u k e = add_tally m r h k f.0.0 f.1 (u h refl) e
Move-tallied mv f u k e = ground (arith, guard mv)
