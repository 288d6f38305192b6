-- ===== src/Util/Input/Position.antt =====
-- Where in its block the first unread byte stands: it moves on with the bytes consumed, modulo the
-- block size, so that a place in the stream of bytes received fixes the index in a block.
use xuanqiong.Base.{
  lt→ltb, append-nil, ℕ, ◌+◌, ◌-◌, ◌%◌, ◌≤◌, ◌<◌, ◌≡◌, refl, ap, ◌∙◌, subst, some, List, [], ◌∷◌,
  length, min, arith,
}
use xuanqiong.Base.Memory.{length-slice, store}
use xuanqiong.Base.Int.{pos}
use xuanqiong.Util.Block.{
  BufferBlock, block_size, Linked, last_of, length-stored, first_set_bounds, last_of-set_last,
  pending, stored,
}
use xuanqiong.Util.Input.{
  InputBuffer, leave_full, advance, available, unread, next, fill, received, recv_add, get_buffer,
  last_block,
}
use xuanqiong.Util.Input.Inv.{IsLinked, IsValid, Linked-begin, last_of-begin}

leave_full-begin_at :
    (b : InputBuffer) (xs : List BufferBlock)
    → b.later ≡ xs
    → Linked b.cur xs
    → (last_of b.cur xs).end < block_size
    → b.cur.begin ≤ b.cur.end
    → (leave_full b).cur.begin ≡ b.cur.begin % block_size
leave_full-begin_at b [] e l r s = ground arith
leave_full-begin_at b (x ∷ xs) e l r s = ground (arith, l.1)

-- Consuming `k` available bytes.
pub consume-begin :
    (b : InputBuffer) (k : ℕ)
    → IsLinked b
    → k ≤ available b
    → (leave_full (advance b k)).cur.begin ≡ (b.cur.begin + k) % block_size
consume-begin b k v h =
    leave_full-begin_at (advance b k) b.later refl (Linked-begin b.cur b.later _ v.linked)
      (last_of-begin b.cur b.later _ v.room) (let s = v.started in omega arith)

pub next-begin :
    (b : InputBuffer) (xs : List ℕ)
    → IsValid b
    → (next b).0 ≡ some xs
    → (next b).1.cur.begin ≡ (b.cur.begin + length xs) % block_size
unfolding next
next-begin b xs v e = ground (
  arith,
  consume-begin b (min (available b) b.limit) v.chain,
  length-slice b.cur.memory b.cur.begin (min (available b) b.limit),
)

fill-begin :
    (b : InputBuffer) (xs : List ℕ) → (fill b (last_block b).end xs).cur.begin ≡ b.cur.begin
unfolding fill
fill-begin b xs =
    (first_set_bounds b.cur b.later
      (record (last_block b) { memory = store (last_block b).memory (last_block b).end xs }) refl
      (omega arith)).0

received-begin :
    (b : InputBuffer) (xs : List ℕ)
    → (received (fill b (last_block b).end xs) (length xs)).cur.begin ≡ b.cur.begin
unfolding received fill
received-begin b xs =
    let l = record (last_block b) { memory = store (last_block b).memory (last_block b).end xs } in
    let (first, e) = first_set_bounds b.cur b.later l refl (omega arith) in
    let c = fill b (last_block b).end xs in
    let last = last_of-set_last b.cur b.later l in
    let (next, f) =
      first_set_bounds c.cur c.later
        (record (last_block c) { end = (last_block c).end + length xs }) refl (omega arith) in
    ground (arith, first, next)

-- What arrives goes behind.
pub recv_add-begin :
    (b : InputBuffer) (xs : List ℕ)
    → (recv_add (fill b (get_buffer b).0 xs) (pos (length xs))).cur.begin ≡ b.cur.begin
unfolding recv_add get_buffer
recv_add-begin b [] = fill-begin b []
recv_add-begin b (x ∷ xs) =
    rw (lt→ltb 0 (length (x ∷ xs)) (omega arith)) (received-begin b (x ∷ xs))

available_at :
    (b : InputBuffer) (xs : List BufferBlock)
    → b.later ≡ xs
    → IsLinked b
    → b.cur.begin ≤ block_size - 4
    → 4 ≤ length (unread b)
    → 4 ≤ available b
available_at b [] e v p h =
    let u : length (unread b) ≡ available b =
      ap (λ cs. length (pending (b.cur ∷ cs))) e
      ∙ ap length (append-nil (stored b.cur))
      ∙ length-stored b.cur in
    omega arith
available_at b (x ∷ xs) e v p h = let l = subst (Linked b.cur) e v.linked in omega (arith, l.0)

-- Four unread bytes that do not reach beyond the block's physical end are in the block.
pub four_available :
    (b : InputBuffer)
    → IsLinked b
    → b.cur.begin ≤ block_size - 4
    → 4 ≤ length (unread b)
    → 4 ≤ available b
four_available b v p h = available_at b b.later refl v p h
