-- ===== src/Util/Input/Inv.antt =====
-- The shape of an `InputBuffer`'s chain, its counter of readable bytes, and what consuming does.
use xuanqiong.Base.{
  ℕ, ◌%◌, ◌^◌, ◌≤◌, ◌<◌, ◌≡◌, refl, sym, ap, ◌∙◌, subst, List, [], ◌∷◌, ◌++◌, arith, length,
  length-append, ℕ_discrete,
}
use xuanqiong.Base.Memory.{slice}
use xuanqiong.Base.Words.{sub64, sub64_count}
use xuanqiong.Util.Block.{BufferBlock, block_size, Linked, last_of, stored_nil, pending-advance}
use xuanqiong.Util.Input.{InputBuffer, last_block, leave_full, advance, available, unread, init}

-- The chain, apart from the counters. The last block always has room, and `cur_block_` is not yet
-- consumed to its physical end.
pub record IsLinked (b : InputBuffer) : Type 0 where
  pub linked : Linked b.cur b.later
  pub room : (last_block b).end < block_size
  pub started : b.cur.begin ≤ b.cur.end
  pub partly : b.cur.begin < block_size

-- The chain and the counter `read_bytes_`, which counts the unread bytes modulo 2 ^ 64.
pub record IsValid (b : InputBuffer) : Type 0 where
  pub chain : IsLinked b
  pub counted : b.read_bytes ≡ length (unread b) % 2 ^ 64

pub init-IsValid : IsValid init
unfolding init
init-IsValid = record {
  chain = record {
    linked = omega arith;
    room = omega arith;
    started = omega arith;
    partly = omega arith;
  };
  counted = omega arith;
}

cur-end-le : (c : BufferBlock) (xs : List BufferBlock) → Linked c xs → c.end ≤ block_size
cur-end-le c [] l = l
cur-end-le c (x ∷ xs) l = let e = l.0 in omega arith

-- Consuming `k` of the available bytes takes them off the front.
pub unread-advance :
    (b : InputBuffer) (k : ℕ)
    → k ≤ available b
    → unread b ≡ slice b.cur.memory b.cur.begin k ++ unread (advance b k)
unread-advance b k h = pending-advance b.cur b.later k h

-- Leaving a consumed block changes no unread byte, and restores the shape.
leave_full_at :
    (b : InputBuffer) (xs : List BufferBlock)
    → b.later ≡ xs
    → Linked b.cur xs
    → (last_of b.cur xs).end < block_size
    → b.cur.begin ≤ b.cur.end
    → (unread (leave_full b) ≡ unread b) × IsLinked (leave_full b)
leave_full_at b [] e l r s = ground arith
leave_full_at b (x ∷ xs) e l r s = ground (arith, stored_nil b.cur)

pub Linked-begin :
    (c : BufferBlock) (xs : List BufferBlock) (k : ℕ)
    → Linked c xs
    → Linked (record c { begin = k }) xs
Linked-begin c [] k l = l
Linked-begin c (x ∷ xs) k l = l

pub last_of-begin :
    (c : BufferBlock) (xs : List BufferBlock) (k : ℕ)
    → (last_of c xs).end < block_size
    → (last_of (record c { begin = k }) xs).end < block_size
last_of-begin c [] k h = h
last_of-begin c (x ∷ xs) k h = h

unread_nil_at :
    (b : InputBuffer) (xs : List BufferBlock)
    → b.later ≡ xs
    → IsLinked b
    → available b ≡ 0
    → unread b ≡ []
unread_nil_at b [] e v h = ground (arith, stored_nil b.cur)
unread_nil_at b (x ∷ xs) e v h =
    let l = subst (Linked b.cur) e v.linked in
    let p = v.partly in let q = v.started in absurd (omega (arith, l.0))

-- Consuming `k` available bytes and leaving the block if that was its end.
pub consume_lem :
    (b : InputBuffer) (k : ℕ)
    → IsLinked b
    → k ≤ available b
    → (unread b ≡ slice b.cur.memory b.cur.begin k ++ unread (leave_full (advance b k)))
      × IsLinked (leave_full (advance b k))
consume_lem b k v h =
    let r =
      leave_full_at (advance b k) b.later refl (Linked-begin b.cur b.later _ v.linked)
        (last_of-begin b.cur b.later _ v.room) (let s = v.started in omega arith) in
    (unread-advance b k h ∙ ap (λ t. slice b.cur.memory b.cur.begin k ++ t) (sym r.0), r.1)

-- With no available byte nothing is unread.
pub unread_nil : (b : InputBuffer) → IsLinked b → available b ≡ 0 → unread b ≡ []
unread_nil b v h = unread_nil_at b b.later refl v h

-- The chain's shape depends on no counter, and the counter of readable bytes on no limit.
pub IsLinked-with_counters :
    (b : InputBuffer) (r c l : ℕ)
    → IsLinked b
    → IsLinked (record b { read_bytes = r; consumed_bytes = c; limit = l })
IsLinked-with_counters b r c l v = record {
  linked = v.linked;
  room = v.room;
  started = v.started;
  partly = v.partly;
}

pub IsValid-with_limit : (b : InputBuffer) (l : ℕ) → IsValid b → IsValid (record b { limit = l })
IsValid-with_limit b l v = record {
  chain = IsLinked-with_counters b b.read_bytes b.consumed_bytes l v.chain;
  counted = v.counted;
}

-- The counter after `xs` was consumed off the front of the unread bytes.
pub counted_after :
    (r : ℕ) (us xs vs : List ℕ)
    → r ≡ length us % 2 ^ 64
    → us ≡ xs ++ vs
    → sub64 r (length xs) ≡ length vs % 2 ^ 64
counted_after r us xs vs h e =
    omega (arith, h, ap length e, length-append xs vs, sub64_count (length vs) (length xs))

-- A readable byte by the counter is an unread byte, and the current block has one.
pub available_pos : (b : InputBuffer) → IsValid b → 0 < b.read_bytes → 0 < available b
available_pos b v h = elim (ℕ_discrete (available b) 0) [
  | yes e ↦ absurd (omega (arith, v.counted, ap length (unread_nil b v.chain e)))
  | no n ↦ omega arith
]

-- The counter is the number of unread bytes where there are fewer than 2 ^ 64.
pub read_bytes_count :
    (b : InputBuffer) → IsValid b → length (unread b) < 2 ^ 64 → b.read_bytes ≡ length (unread b)
read_bytes_count b v h = omega (arith, v.counted)
