-- ===== src/Util/Queue/Slots.antt =====
-- The slots that threads touch, and when a chunk is deleted.
use xuanqiong.Base.{
  ℕ, ◌+◌, ◌-◌, ◌*◌, ◌≤◌, ◌<◌, ◌≡◌, refl, sym, ◌∙◌, subst, inl, inr, true, Option, none, some, arith,
}
use xuanqiong.Util.Queue.{
  Memory, chunk_size, Pc, push_load, push_write, push_publish, pop_refs, pop_next, pop_retire,
  pop_delete, pop_wait, pop_take, fault, Move, call_push, System, act, crash, Reach, start, later,
}
use xuanqiong.Util.Queue.Family.{set-cases, tally-le, tally_full}
use xuanqiong.Util.Queue.Inv.{IsFresh, Inv}
use xuanqiong.Util.Queue.Inv.Own.{guard}
use xuanqiong.Util.Queue.Inv.Reachable.{Reach-Inv, Move-Inv}

-- The chunk whose slot the next access of a thread touches, and the index that the slot is for.
abbrev pub slot : Pc → Option (ℕ × ℕ)
slot (push_write v w t) = some (w, t)
slot (push_publish v w t) = some (w, t)
slot (pop_wait c r h) = some (r, h)
slot (pop_take c r h) = some (r, h)
slot p = none

slot_lem :
    (m : Memory) (p : Pc) (w t : ℕ)
    → IsFresh m p
    → slot p ≡ some (w, t)
    → (chunk_size * w ≤ t) × (t - chunk_size * w < chunk_size)
slot_lem m (push_load v) w t f e = ground arith
slot_lem m p w t f e = ground arith

-- In every state that the accesses of the threads lead to: where the next access of a thread is
-- to the slot of index `t`, in chunk `w`, the offset of that slot, `t` less the chunk's
-- `begin_index`, neither wraps nor reaches CHUNK_SIZE.
pub slot_bounds :
    {n : ℕ} {s : System} (i w t : ℕ)
    → Reach n s
    → slot (s.pc i) ≡ some (w, t)
    → (chunk_size * w ≤ t) × (t - chunk_size * w < chunk_size)
slot_bounds {n} {s} i w t r e = slot_lem s.mem (s.pc i) w t ((Reach-Inv r).fresh i) e

-- A thread that goes on to retire or delete a chunk, which was read as often as it has slots.
abbrev pub Retires : Memory → Pc → Type 0
Retires m (pop_refs c h) = m.read_count c ≡ chunk_size
Retires m (pop_next c h) = m.read_count c ≡ chunk_size
Retires m (pop_retire c) = m.read_count c ≡ chunk_size
Retires m (pop_delete c) = m.read_count c ≡ chunk_size
Retires m p = Unit {0}

read_count-le : {m : Memory} {pc : ℕ → Pc} → Inv m pc → (c : ℕ) → m.read_count c ≤ chunk_size
read_count-le {m} inv c =
    omega (arith, inv.tallied c, tally-le m.counted (chunk_size * c) chunk_size)

-- A count only grows.
count_grows :
    {m m' : Memory} {p p' : Pc} → Move m p m' p' → (c : ℕ) → m.read_count c ≤ m'.read_count c
count_grows call_push c = omega arith
count_grows mv c = ground (arith, guard mv)

stays_full :
    {m m' : Memory} {pc' : ℕ → Pc} {p p' : Pc}
    → Move m p m' p'
    → Inv m' pc'
    → (c : ℕ) → m.read_count c ≡ chunk_size
    → m'.read_count c ≡ chunk_size
stays_full mv inv c e = omega (arith, count_grows mv c, read_count-le inv c)

Retires-own : {m m' : Memory} {p p' : Pc} → Move m p m' p' → Retires m p → Retires m' p'
Retires-own call_push f = tt
Retires-own mv f = ground (arith, guard mv)

Retires-other :
    (m m' : Memory) (q : Pc)
    → ((c : ℕ) → m.read_count c ≡ chunk_size → m'.read_count c ≡ chunk_size)
    → Retires m q
    → Retires m' q
Retires-other m m' (pop_refs c h) g f = g c f
Retires-other m m' (pop_next c h) g f = g c f
Retires-other m m' (pop_retire c) g f = g c f
Retires-other m m' (pop_delete c) g f = g c f
Retires-other m m' q g f = tt

Reach-Retires : {n : ℕ} {s : System} → Reach n s → (i : ℕ) → Retires s.mem (s.pc i)
Reach-Retires start i = tt
Reach-Retires {n} (later {s} {t} r (act i {m} {p} l a mv)) j = elim (set-cases s.pc i p j) [
  | inl (e, q) ↦ rw q (Retires-own mv (Reach-Retires r i))
  | inr (d, q) ↦ rw q (
      Retires-other s.mem m (s.pc j) (stays_full mv (Move-Inv (Reach-Inv r) i mv refl))
        (Reach-Retires r j))
]
Reach-Retires (later {s} {t} r (crash i l a)) j = elim (set-cases s.pc i fault j) [
  | inl (e, q) ↦ rw q tt
  | inr (d, q) ↦ rw q (Reach-Retires r j)
]

-- In every state that the accesses of the threads lead to: where the next access of a thread
-- deletes a chunk, a pop has counted itself in `read_count` for every index `h` of that chunk,
-- and `head_index_` is beyond `h`.
pub delete_lem :
    {n : ℕ} {s : System} (i c h : ℕ)
    → Reach n s
    → s.pc i ≡ pop_delete c
    → chunk_size * c ≤ h
    → h < chunk_size * c + chunk_size
    → (s.mem.counted h ≡ true) × (h < s.mem.head_index)
delete_lem {n} {s} i c h r e l b =
    let inv = Reach-Inv r in
    let full : s.mem.read_count c ≡ chunk_size = subst (Retires s.mem) e (Reach-Retires r i) in
    let mark =
      tally_full s.mem.counted (chunk_size * c) chunk_size h (sym (inv.tallied c) ∙ full) l b in
    (mark, inv.counted_below h mark)
