-- ===== src/Util/Input/Fetch.antt =====
-- `fetch_uint32`: a length that lies in one block, one that goes on in the next, and too few bytes.
use xuanqiong.Base.{
  ap₂, ◌==◌, if◌then◌else◌, ℕ, ◌+◌, ◌%◌, ◌≤◌, ◌<◌, ◌≡◌, refl, sym, ap, ◌∙◌, some, List, [], ◌∷◌,
  ◌++◌, arith, length, true, false, take, take-append, min, ltb,
}
use xuanqiong.Base.Memory.{slice, store, slice-store}
use xuanqiong.Base.Words.{sub64}
use xuanqiong.Util.Block.{BufferBlock, block_size}
use xuanqiong.Util.Input.{
  InputBuffer, Copy, available, advance, leave_full, enter, fetched, fetch_rest, fetch_uint32,
  unread,
}
use xuanqiong.Util.Input.Position.{consume-begin}
use xuanqiong.Util.Input.Inv.{IsLinked, IsValid, IsLinked-with_counters, counted_after, consume_lem}

-- The memory from `value` on once the copies are made.
abbrev pub copied : (ℕ → ℕ) → List Copy → ℕ → ℕ
copied m [] = m
copied m ((o, xs) ∷ cs) = copied (store m o xs) cs

-- With fewer than four readable bytes it returns false and changes nothing.
pub fetch_uint32_short : (b : InputBuffer) → b.read_bytes < 4 → fetch_uint32 b ≡ some (false, [], b)
unfolding fetch_uint32
fetch_uint32_short b h = ground arith

pub leave_full-counters :
    (c : InputBuffer)
    → ((leave_full c).read_bytes ≡ c.read_bytes)
      × ((leave_full c).consumed_bytes ≡ c.consumed_bytes)
leave_full-counters c = go c c.later
  where
    go :
        (c : InputBuffer) (xs : List BufferBlock)
        → ((if c.cur.begin == block_size then enter c xs else c).read_bytes ≡ c.read_bytes)
          × ((if c.cur.begin == block_size then enter c xs else c).consumed_bytes
              ≡ c.consumed_bytes)
    go c [] = ground arith
    go c (x ∷ xs) = ground arith

pub fetched-IsValid :
    (b c : InputBuffer) (xs : List ℕ)
    → IsValid b
    → c.read_bytes ≡ b.read_bytes
    → IsLinked (leave_full c)
    → length xs ≡ 4
    → unread b ≡ xs ++ unread (leave_full c)
    → IsValid (fetched c)
unfolding fetched
fetched-IsValid b c xs v r w l e = record {
  chain = IsLinked-with_counters (leave_full c) _ _ (leave_full c).limit w;
  counted =
      ap₂ sub64 ((leave_full-counters c).0 ∙ r) (sym l)
      ∙ counted_after b.read_bytes (unread b) xs (unread (leave_full c)) v.counted e;
}

pub unread-fetched : (c : InputBuffer) → unread (fetched c) ≡ unread (leave_full c)
unfolding fetched
unread-fetched c = refl

pub fetched-begin : (c : InputBuffer) → (fetched c).cur.begin ≡ (leave_full c).cur.begin
unfolding fetched
fetched-begin c = refl

-- The code past the first test, with the length of the first copy named.
pub fetch_reading :
    (b : InputBuffer) (n : ℕ)
    → 4 ≤ b.read_bytes
    → min (available b) 4 ≡ n
    → fetch_uint32 b ≡ (
        let first = slice b.cur.memory b.cur.begin n in
        let b' = advance b n in
        if ltb n 4
        then fetch_rest b' n first b'.later
        else some (true, (0, first) ∷ [], fetched b'))
unfolding fetch_uint32
fetch_reading b n h e = rw (← e) (ground arith)

-- Four readable bytes in the current block: they are copied to `value`, whatever stood there, and
-- consumed.
pub fetch_uint32_whole :
    (b : InputBuffer) (m : ℕ → ℕ)
    → IsValid b
    → 4 ≤ b.read_bytes
    → 4 ≤ available b
    → (copies : List Copy) × (b' : InputBuffer) × (fetch_uint32 b ≡ some (true, copies, b'))
      × (slice (copied m copies) 0 4 ≡ take 4 (unread b))
      × (unread b ≡ take 4 (unread b) ++ unread b')
      × IsValid b'
      × (b'.cur.begin ≡ (b.cur.begin + 4) % block_size)
fetch_uint32_whole b m v h k =
    let xs = slice b.cur.memory b.cur.begin 4 in
    let (e, w) = consume_lem b 4 v.chain k in
    let t : take 4 (unread b) ≡ xs =
      ap (take 4) e ∙ take-append xs (unread (leave_full (advance b 4))) in
    (
      (0, xs) ∷ [],
      fetched (advance b 4),
      fetch_reading b 4 h (omega arith),
      slice-store m 0 xs ∙ sym t,
      rw (t, unread-fetched) e,
      fetched-IsValid b (advance b 4) xs v refl w refl e,
      fetched-begin (advance b 4) ∙ consume-begin b 4 v.chain k,
    )
