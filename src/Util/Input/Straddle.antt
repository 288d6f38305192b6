-- ===== src/Util/Input/Straddle.antt =====
-- `fetch_uint32` at a length whose bytes lie in two blocks: the stream goes on rightly, and the
-- second part is copied to the wrong place.
use xuanqiong.Base.{
  ℕ, ◌+◌, ◌-◌, ◌*◌, ◌≤◌, ◌<◌, ◌≡◌, refl, sym, ap, ◌∙◌, some, List, [], ◌∷◌, ◌++◌, arith, length,
  length-append, append_assoc, append-nil, true, lt→ltb, subst, get_or_beyond,
}
use xuanqiong.Base.Memory.{slice, store, length-slice}
use xuanqiong.Util.Block.{
  BufferBlock, block_size, Linked, last_of, stored, pending, stored_nil, length-stored,
}
use xuanqiong.Util.Input.{
  InputBuffer, Copy, available, advance, leave_full, enter, fetched, fetch_rest, fetch_uint32,
  unread,
}
use xuanqiong.Util.Input.Inv.{
  IsLinked, IsValid, consume_lem, unread-advance, available_pos, Linked-begin, last_of-begin,
}
use xuanqiong.Util.Input.Fetch.{copied, fetched-IsValid, unread-fetched, fetch_reading}

-- Of the bytes of a chain, the first block holds all up to its size.
first-bound :
    (x : BufferBlock) (ys : List BufferBlock) (k : ℕ)
    → Linked x ys
    → x.begin ≡ 0
    → k ≤ length (pending (x ∷ ys))
    → k ≤ block_size
    → k ≤ x.end - x.begin
first-bound x [] k l z h s = omega (arith, ap length (append-nil (stored x)), length-stored x)
first-bound x (y ∷ ys) k l z h s = let e = l.0 in omega arith

-- A chain whose first block is consumed and not the last goes on at the start of the next, which
-- holds all unread bytes up to a full block.
enter_lem :
    (b : InputBuffer) (xs : List BufferBlock)
    → b.later ≡ xs
    → Linked b.cur xs
    → (last_of b.cur xs).end < block_size
    → b.cur.begin ≡ b.cur.end
    → 0 < length (unread b)
    → (x : BufferBlock) × (ys : List BufferBlock) × (b.later ≡ x ∷ ys)
      × (unread (enter b (x ∷ ys)) ≡ unread b)
      × IsLinked (enter b (x ∷ ys))
      × ((k : ℕ) → k ≤ length (unread b) → k ≤ block_size → k ≤ available (enter b (x ∷ ys)))
enter_lem b [] e l r s h =
    let u : unread b ≡ [] = rw (e, stored_nil b.cur (omega arith)) in
    absurd (omega (arith, ap length u))
enter_lem b (x ∷ ys) e l r s h =
    let z = l.1 in
    let u : unread (enter b (x ∷ ys)) ≡ unread b = rw (e, stored_nil b.cur (omega arith)) in
    (
      x,
      ys,
      e,
      u,
      record { linked = l.2; room = r; started = omega arith; partly = omega arith },
      (λ k p q. first-bound x ys k l.2 z (subst (λ t. k ≤ length t) (sym u) p) q),
    )

-- The same for a block that holds fewer than four of the four readable bytes, once these are
-- consumed.
enter_split :
    (b : InputBuffer)
    → IsValid b
    → 4 ≤ b.read_bytes
    → available b < 4
    → let c = advance b (available b) in
      (x : BufferBlock) × (ys : List BufferBlock) × (c.later ≡ x ∷ ys)
      × (unread b ≡ slice b.cur.memory b.cur.begin (available b) ++ unread (enter c (x ∷ ys)))
      × IsLinked (enter c (x ∷ ys))
      × (4 - available b ≤ available (enter c (x ∷ ys)))
enter_split b v h k =
    let first = slice b.cur.memory b.cur.begin (available b) in
    let c = advance b (available b) in
    let s = v.chain.started in
    let e : unread b ≡ first ++ unread c = unread-advance b (available b) (omega arith) in
    let l : 4 ≤ available b + length (unread c) = omega (
      arith,
      v.counted,
      ap length e,
      length-append first (unread c),
      length-slice b.cur.memory b.cur.begin (available b),
    ) in
    let (x, ys, link, u, w, bound) =
      enter_lem c c.later refl (Linked-begin b.cur b.later _ v.chain.linked)
        (last_of-begin b.cur b.later _ v.chain.room) (spent s) (omega (arith, l)) in
    (
      x,
      ys,
      link,
      e ∙ ap (λ t. first ++ t) (sym u),
      w,
      bound (4 - available b) (omega (arith, l)) (omega arith),
    )
  where
    spent : b.cur.begin ≤ b.cur.end → b.cur.begin + available b ≡ b.cur.end
    spent s = omega arith

fetch_rest_lem :
    (b : InputBuffer) (n : ℕ) (first : List ℕ) (x : BufferBlock) (ys : List BufferBlock)
    → b.later ≡ x ∷ ys
    → fetch_rest b n first b.later
      ≡ some (
        true,
        (0, first) ∷ (4 * n, slice x.memory x.begin (4 - n)) ∷ [],
        fetched (advance (enter b (x ∷ ys)) (4 - n)),
      )
unfolding fetch_rest
fetch_rest_lem b n first x ys e = ap (fetch_rest b n first) e

-- What `fetch_uint32` does where the current block holds fewer than four of the four or more
-- readable bytes: it copies those to `value`, and the other ones four times their number behind
-- `value`; it consumes the four bytes.
pub fetch_uint32_split :
    (b : InputBuffer)
    → IsValid b
    → 4 ≤ b.read_bytes
    → available b < 4
    → (xs ys : List ℕ) × (b' : InputBuffer) × (fetch_uint32 b
        ≡ some (true, (0, xs) ∷ (4 * available b, ys) ∷ [], b'))
      × (length xs ≡ available b)
      × (length xs + length ys ≡ 4)
      × (unread b ≡ (xs ++ ys) ++ unread b')
      × IsValid b'
fetch_uint32_split b v h k =
    let n = available b in
    let first = slice b.cur.memory b.cur.begin n in
    let c = advance b n in
    let (x, ys, link, e, w, bound) = enter_split b v h k in
    let d = enter c (x ∷ ys) in
    let rest = slice x.memory x.begin (4 - n) in
    let (e', w') = consume_lem d (4 - n) w bound in
    let size : length first + length rest ≡ 4 =
      sizes n k (length-slice b.cur.memory b.cur.begin n) (length-slice x.memory x.begin (4 - n)) in
    let four : length (first ++ rest) ≡ 4 = length-append first rest ∙ size in
    let whole : unread b ≡ (first ++ rest) ++ unread (leave_full (advance d (4 - n))) =
      e ∙ ap (λ t. first ++ t) e' ∙ sym (append_assoc first rest _) in
    (
      first,
      rest,
      fetched (advance d (4 - n)),
      fetch_reading b n h (omega arith) ∙ rw (lt→ltb n 4 k) (fetch_rest_lem c n first x ys link),
      length-slice b.cur.memory b.cur.begin n,
      size,
      whole ∙ ap (λ t. (first ++ rest) ++ t) (sym (unread-fetched (advance d (4 - n)))),
      fetched-IsValid b (advance d (4 - n)) (first ++ rest) v refl w' four whole,
    )
  where
    sizes : {p q : ℕ} (n : ℕ) → n < 4 → p ≡ n → q ≡ 4 - n → p + q ≡ 4
    sizes n k e f = omega arith

-- Two copies, the second behind the value: the value's bytes past the first copy are as they were.
copied_short :
    (m : ℕ → ℕ) (xs ys : List ℕ) (n i : ℕ)
    → length xs ≡ n
    → n ≤ i
    → i < 4 * n
    → copied m ((0, xs) ∷ (4 * n, ys) ∷ []) i ≡ m i
unfolding store
copied_short m xs ys n i e h k =
    let z : i - 0 ≡ i = omega arith in rw z (ground (arith, get_or_beyond xs i (m i)))

-- For a valid read buffer with four bytes at least by its counter, of which the current block
-- holds `i` or fewer, `i` below 4: `fetch_uint32` returns true and consumes four bytes, but byte
-- `i` of the variable stays what it was, and one byte at least is written four bytes or more
-- behind `value`, past the end of the variable.
pub fetch_uint32_split_corrupts :
    (b : InputBuffer) (m : ℕ → ℕ) (i : ℕ)
    → IsValid b
    → 4 ≤ b.read_bytes
    → available b ≤ i
    → i < 4
    → (copies : List Copy) × (b' : InputBuffer) × (fetch_uint32 b ≡ some (true, copies, b'))
      × (length (unread b) ≡ 4 + length (unread b'))
      × (copied m copies i ≡ m i)
      × ((o : ℕ) × (xs ys : List ℕ) × (copies ≡ (0, xs) ∷ (o, ys) ∷ []) × (4 ≤ o) × (0 < length ys))
fetch_uint32_split_corrupts b m i v h q r =
    let (xs, ys, b', e, l, l4, u, w) = fetch_uint32_split b v h (omega arith) in
    let p = available_pos b v (omega arith) in
    (
      (0, xs) ∷ (4 * available b, ys) ∷ [],
      b',
      e,
      omega (arith, ap length u, length-append (xs ++ ys) (unread b'), length-append xs ys),
      copied_short m xs ys (available b) i l q (omega arith),
      (4 * available b, xs, ys, refl, omega arith, omega arith),
    )
