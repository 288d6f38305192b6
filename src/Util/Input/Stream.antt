-- ===== src/Util/Input/Stream.antt =====
-- `next` hands out the unread bytes in order and within the limit; `back_up` takes the end back.
use xuanqiong.Base.{
  drop, subst, append_assoc, ap₂, ℕ, ◌+◌, ◌-◌, ◌%◌, ◌^◌, ◌≤◌, ◌<◌, ◌≡◌, refl, sym, ap, ◌∙◌, ◌⊎◌,
  Option, none, some, List, [], ◌∷◌, ◌++◌, arith, length, length-append, ◌==◌, if◌then◌else◌, min,
}
use xuanqiong.Base.Memory.{drop-slice, slice, slice-add, length-slice}
use xuanqiong.Base.Words.{add64}
use xuanqiong.Util.Block.{BufferBlock, Linked, last_of, block_size, stored, pending}
use xuanqiong.Util.Input.{
  InputBuffer, int32_max, leave_full, advance, available, unread, next, back_up,
}
use xuanqiong.Util.Input.Inv.{
  IsLinked, IsValid, consume_lem, unread_nil, counted_after, Linked-begin, last_of-begin,
}

-- The limit after `n` bytes were handed out under it.
abbrev pub limit_after : InputBuffer → ℕ → ℕ
limit_after b n = if b.limit == int32_max then b.limit else b.limit - n

-- What a call of `next` at `b` may return.
abbrev pub Delivers : InputBuffer → Option (List ℕ) × InputBuffer → Type 0
Delivers b (none, b') = (b' ≡ b) × ((unread b ≡ []) ⊎ (b.limit ≡ 0))
Delivers b (some xs, b') =
    (unread b ≡ xs ++ unread b')
    × (0 < length xs)
    × (length xs ≡ min (available b) b.limit)
    × (b'.limit ≡ limit_after b (length xs))
    × (b'.consumed_bytes ≡ add64 b.consumed_bytes (length xs))
    × IsValid b'

-- A call of `next` on a valid read buffer: where it fails, nothing is changed, and no byte is
-- unread or the limit is 0. Where it succeeds, it hands out one unread byte at least, off the
-- front, as many as the current block and the limit allow; the others stay unread, the limit (if
-- it is not INT32_MAX) and `consumed_bytes_` count the bytes, and the buffer is valid.
pub next-Delivers : (b : InputBuffer) → IsValid b → Delivers b (next b)
unfolding next
next-Delivers b v = ground (
  arith,
  consume_lem b (min (available b) b.limit) v.chain,
  length-slice b.cur.memory b.cur.begin (min (available b) b.limit),
  unread_nil b v.chain,
  counted_after b.read_bytes (unread b) (slice b.cur.memory b.cur.begin (min (available b) b.limit))
      (unread (leave_full (advance b (min (available b) b.limit)))) v.counted,
)

-- `back_up` of at most what `cur_block_` has consumed puts those bytes back in front.
pub back_up-IsValid :
    (b : InputBuffer) (n : ℕ)
    → IsValid b
    → n ≤ b.cur.begin
    → (unread (back_up b n) ≡ slice b.cur.memory (b.cur.begin - n) n ++ unread b)
      × IsValid (back_up b n)
unfolding back_up
back_up-IsValid b n v h = (e, record { chain = shape; counted = count })
  where
    s : b.cur.begin ≤ b.cur.end
    s = v.chain.started

    start : b.cur.begin - min n b.cur.begin ≡ b.cur.begin - n
    start = omega arith

    size : b.cur.end - (b.cur.begin - min n b.cur.begin) ≡ n + (b.cur.end - b.cur.begin)
    size = omega arith

    e : unread (back_up b n) ≡ slice b.cur.memory (b.cur.begin - n) n ++ unread b
    e =
        ap (λ t. t ++ pending b.later)
          (ap₂ (slice b.cur.memory) (start) (size)
            ∙ slice-add b.cur.memory (b.cur.begin - n) n (b.cur.end - b.cur.begin)
            ∙ ap
                (λ k.
                  slice b.cur.memory (b.cur.begin - n) n
                  ++ slice b.cur.memory k (b.cur.end - b.cur.begin))
                (omega arith))
        ∙ append_assoc (slice b.cur.memory (b.cur.begin - n) n) (stored b.cur) (pending b.later)

    shape : IsLinked (back_up b n)
    shape = record {
      linked = Linked-begin b.cur b.later _ v.chain.linked;
      room = last_of-begin b.cur b.later _ v.chain.room;
      started = omega arith;
      partly = let p = v.chain.partly in omega arith;
    }

    count : (back_up b n).read_bytes ≡ length (unread (back_up b n)) % 2 ^ 64
    count = omega (
      arith,
      ap length e,
      v.counted,
      length-append (slice b.cur.memory (b.cur.begin - n) n) (unread b),
      length-slice b.cur.memory (b.cur.begin - n) n,
    )

pub next-IsValid : (b : InputBuffer) → IsValid b → IsValid (next b).1
next-IsValid b v = go (next b) (next-Delivers b v)
  where
    go : (r : Option (List ℕ) × InputBuffer) → Delivers b r → IsValid r.1
    go (none, b') d = subst IsValid (sym d.0) v
    go (some xs, b') d = d.5

-- What a successful `next` hands out.
next-some :
    (b : InputBuffer) (xs : List ℕ)
    → IsValid b
    → (next b).0 ≡ some xs
    → (xs ≡ slice b.cur.memory b.cur.begin (min (available b) b.limit))
      × (length xs ≡ min (available b) b.limit)
unfolding next
next-some b xs v e =
    ground
      (arith, v.chain.started, length-slice b.cur.memory b.cur.begin (min (available b) b.limit))

-- A `next` that does not finish its block stays in it.
next_inside :
    (b : InputBuffer) (xs : List ℕ)
    → IsValid b
    → (next b).0 ≡ some xs
    → b.cur.begin + min (available b) b.limit < block_size
    → ((next b).1.cur.begin ≡ b.cur.begin + min (available b) b.limit)
      × ((next b).1.cur.memory ≡ b.cur.memory)
unfolding next
next_inside b xs v e s = ground arith

-- A `next` that finishes a full block goes on to the start of another.
next_crossed :
    (b : InputBuffer) (xs : List ℕ) (cs : List BufferBlock)
    → b.later ≡ cs
    → IsValid b
    → Linked b.cur cs
    → (last_of b.cur cs).end < block_size
    → (next b).0 ≡ some xs
    → b.cur.begin + min (available b) b.limit ≡ block_size
    → (next b).1.cur.begin ≡ 0
unfolding next
next_crossed b xs [] q v l r e s = absurd (let t = v.chain.started in omega arith)
next_crossed b xs (c ∷ cs) q v l r e s = ground (arith, l.1)

-- For a valid read buffer: a `back_up` of `n` bytes after a `next` that handed out `xs`, `n` or
-- more, and did not reach its block's physical end makes the last `n` bytes of `xs` unread again,
-- before the rest, in a valid buffer.
pub back_up-next :
    (b : InputBuffer) (xs : List ℕ) (n : ℕ)
    → IsValid b
    → (next b).0 ≡ some xs
    → b.cur.begin + length xs < block_size
    → n ≤ length xs
    → let b' = (next b).1 in
      (unread (back_up b' n) ≡ drop (length xs - n) xs ++ unread b') × IsValid (back_up b' n)
back_up-next b xs n v e s h =
    let (x, l) = next-some b xs v e in
    let (p, m) = next_inside b xs v e (omega arith) in
    let b' = (next b).1 in
    let (u, w) = back_up-IsValid b' n (next-IsValid b v) (omega arith) in
    let start : b'.cur.begin - n ≡ b.cur.begin + (length xs - n) = omega arith in
    let size : min (available b) b.limit ≡ length xs - n + n = omega arith in
    (
      u
          ∙ ap (λ t. t ++ unread b')
              (ap₂ (λ d k. slice d k n) m start
                ∙ sym (drop-slice b.cur.memory b.cur.begin (length xs - n) n)
                ∙ ap (λ k. drop (length xs - n) (slice b.cur.memory b.cur.begin k)) (sym size)
                ∙ ap (drop (length xs - n)) (sym x)),
      w,
    )

back_up_at_start : (b : InputBuffer) (n : ℕ) → b.cur.begin ≡ 0 → unread (back_up b n) ≡ unread b
unfolding back_up
back_up_at_start b n h =
    let e : b.cur.begin - min n b.cur.begin ≡ b.cur.begin = omega arith in
    ap (λ k. slice b.cur.memory k (b.cur.end - k) ++ pending b.later) e

-- For a valid read buffer: after a `next` that reached its block's physical end, a `back_up` of
-- any number of bytes leaves the unread bytes as they are.
back_up-next_crossed :
    (b : InputBuffer) (xs : List ℕ) (n : ℕ)
    → IsValid b
    → (next b).0 ≡ some xs
    → b.cur.begin + length xs ≡ block_size
    → unread (back_up (next b).1 n) ≡ unread (next b).1
back_up-next_crossed b xs n v e s =
    let (x, l) = next-some b xs v e in
    back_up_at_start (next b).1 n
      (next_crossed b xs b.later refl v v.chain.linked v.chain.room e (omega arith))
