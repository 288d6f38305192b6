-- ===== src/Util/Input.antt =====
-- util/input_stream.h and util/input_stream.cc: `InputBuffer` and the `NetInputStream` over it.
-- The chain from `first_block_` is `behind`, `cur`, `later`, in this order: `cur_block_` is `cur`, and
-- `last_block_` is the last of `cur` and `later`. A pointer into a block is an index, and what a
-- stream call hands out through a pointer is the list of the bytes there.
pub mod Inv
pub mod Stream
pub mod Skip
pub mod Straddle
pub mod Fetch
pub mod Drain
pub mod Recv
pub mod Position
use xuanqiong.Base.{
  ℕ, zero, suc, ◌+◌, ◌-◌, ◌*◌, ◌^◌, min, Bool, true, false, ◌||◌, Option, none, some, List, [], ◌∷◌,
  ◌++◌, ltb, leb, ◌==◌, if◌then◌else◌,
}
use xuanqiong.Base.Memory.{slice, store}
use xuanqiong.Base.Words.{add64, sub64}
use xuanqiong.Base.Int.{ℤ, pos, negsuc}
use xuanqiong.Util.Block.{
  BufferBlock, block_size, new_block, last_of, first_set, later_set, pending,
}

-- INT32_MAX, which stands for "no limit".
abbrev pub int32_max : ℕ
int32_max = 2147483647

-- `InputBuffer`. The counters are `size_t`; `limit` is an `int` that is never negative here, since a
-- limit is a message's length below 2 ^ 31.
pub record InputBuffer : Type 0 where
  pub read_bytes : ℕ
  pub consumed_bytes : ℕ
  pub limit : ℕ
  pub behind : List BufferBlock
  pub cur : BufferBlock
  pub later : List BufferBlock

-- The constructor.
unfoldable pub init : InputBuffer
init = record {
  read_bytes = 0;
  consumed_bytes = 0;
  limit = int32_max;
  behind = [];
  cur = new_block;
  later = [];
}

abbrev pub last_block : InputBuffer → BufferBlock
last_block b = last_of b.cur b.later

-- `*last_block_ = c`, the chain's links kept.
abbrev pub with_last : InputBuffer → BufferBlock → InputBuffer
with_last b c = record b { cur = first_set b.cur b.later c; later = later_set b.later c }

-- The index in the last block where received bytes go, and how many fit.
unfoldable pub get_buffer : InputBuffer → ℕ × ℕ
get_buffer b = ((last_block b).end, block_size - (last_block b).end)

-- A write of `xs` at index `i` of the last block, through the pointer that `get_buffer` returned.
unfoldable pub fill : InputBuffer → ℕ → List ℕ → InputBuffer
fill b i xs = with_last b (record (last_block b) { memory = store (last_block b).memory i xs })

-- `last_block_->next = new BufferBlock; last_block_ = last_block_->next;`
abbrev pub add_block : InputBuffer → InputBuffer
add_block b = record b { later = b.later ++ new_block ∷ [] }

-- `recv_add` at a positive count.
unfoldable pub received : InputBuffer → ℕ → InputBuffer
received b n =
    let l = last_block b in
    let b' = record (with_last b (record l { end = l.end + n })) {
      read_bytes = add64 b.read_bytes n;
    } in
    if l.end + n == block_size then add_block b' else b'

unfoldable pub recv_add : InputBuffer → ℤ → InputBuffer
unfolding received
recv_add b (pos n) = if ltb 0 n then received b n else b
recv_add b (negsuc n) = b

-- `cur_block_ = cur_block_->next`, at a chain that goes on.
abbrev pub enter : InputBuffer → List BufferBlock → InputBuffer
enter b [] = b
enter b (x ∷ xs) = record b { behind = b.behind ++ b.cur ∷ []; cur = x; later = xs }

-- `if (cur_block_->begin == kBlockSize && cur_block_->next) cur_block_ = cur_block_->next;`
abbrev pub leave_full : InputBuffer → InputBuffer
leave_full b = if b.cur.begin == block_size then enter b b.later else b

-- `cur_block_->begin += n`
abbrev pub advance : InputBuffer → ℕ → InputBuffer
advance b n = record b { cur = record b.cur { begin = b.cur.begin + n } }

-- Readable bytes of the block that `cur_block_` names.
abbrev pub available : InputBuffer → ℕ
available b = b.cur.end - b.cur.begin

-- The end of `fetch_uint32`: leave a consumed block, and count.
unfoldable pub fetched : InputBuffer → InputBuffer
fetched b =
    let b' = leave_full b in
    record b' { consumed_bytes = add64 b'.consumed_bytes 4; read_bytes = sub64 b'.read_bytes 4 }

-- One memcpy into `*value`: its distance from `value` in bytes, and what it copies.
abbrev pub Copy : Type 0
Copy = ℕ × List ℕ

-- The second part of a length that goes on in the next block. `value + copy_len` steps over
-- `copy_len` words of four bytes. `none`: `cur_block_->next` is null and is read.
unfoldable pub fetch_rest :
    InputBuffer → ℕ → List ℕ → List BufferBlock → Option (Bool × List Copy × InputBuffer)
unfolding fetched
fetch_rest b copy_len first [] = none
fetch_rest b copy_len first (x ∷ xs) =
    let b' = enter b (x ∷ xs) in
    some (
      true,
      (0, first) ∷ (4 * copy_len, slice x.memory x.begin (4 - copy_len)) ∷ [],
      fetched (advance b' (4 - copy_len)),
    )

-- Returns the result, the copies made into `*value`, and the new state.
unfoldable pub fetch_uint32 : InputBuffer → Option (Bool × List Copy × InputBuffer)
unfolding fetch_rest
fetch_uint32 b =
    if ltb b.read_bytes 4
    then some (false, [], b)
    else let copy_len = min (available b) 4 in
      let first = slice b.cur.memory b.cur.begin copy_len in
      let b' = advance b copy_len in
      if ltb copy_len 4
      then fetch_rest b' copy_len first b'.later
      else some (true, (0, first) ∷ [], fetched b')

-- `next`: the bytes handed out (`none` where it returns false), and the new state.
unfoldable pub next : InputBuffer → Option (List ℕ) × InputBuffer
next b =
    if b.cur.begin == b.cur.end || b.limit == 0
    then (none, b)
    else let size = min (available b) b.limit in
      let b' = leave_full (record (advance b size) {
        limit = if b.limit == int32_max then b.limit else b.limit - size;
        consumed_bytes = add64 b.consumed_bytes size;
      }) in
      (
        some (slice b.cur.memory b.cur.begin size),
        record b' { read_bytes = sub64 b'.read_bytes size },
      )

-- `back_up`, with the release of every block before `cur_block_`.
unfoldable pub back_up : InputBuffer → ℕ → InputBuffer
back_up b n =
    let backup_bytes = min n b.cur.begin in
    record b {
      cur = record b.cur { begin = b.cur.begin - backup_bytes };
      read_bytes = add64 b.read_bytes backup_bytes;
      limit = if b.limit == int32_max then b.limit else b.limit + backup_bytes;
      consumed_bytes = sub64 b.consumed_bytes backup_bytes;
      behind = [];
    }

-- One round of the loop of `skip`, at `to_skip` bytes.
unfoldable pub skip_step : InputBuffer → ℕ → InputBuffer
skip_step b to_skip = leave_full (record (advance b to_skip) {
  consumed_bytes = add64 b.consumed_bytes to_skip;
  read_bytes = sub64 b.read_bytes to_skip;
})

-- The loop on fuel; `none` means that the fuel ran out.
unfoldable pub skip_loop : ℕ → InputBuffer → ℕ → Option InputBuffer
skip_loop zero b n = none
skip_loop (suc fuel) b n =
    let to_skip = min n (available b) in
    let rest = skip_loop fuel (skip_step b to_skip) (n - to_skip) in if n == 0 then some b else rest

-- `n > byte_count()`, where `byte_count` reads the counter as an `int64_t`.
unfoldable pub exceeds_byte_count : InputBuffer → ℕ → Bool
exceeds_byte_count b n = leb (2 ^ 63) b.consumed_bytes || ltb b.consumed_bytes n

unfoldable pub skip : ℕ → InputBuffer → ℕ → Option (Bool × InputBuffer)
unfolding skip_loop exceeds_byte_count skip_step
skip fuel b n =
    if exceeds_byte_count b n
    then some (false, b)
    else elim (skip_loop fuel b n) [ none ↦ none | some b' ↦ some (true, b') ]

unfoldable pub push_limit : InputBuffer → ℕ → InputBuffer
push_limit b n = record b { limit = n }

unfoldable pub pop_limit : InputBuffer → InputBuffer
pop_limit b = record b { limit = int32_max }

-- The bytes that were received and not yet consumed, oldest first.
abbrev pub unread : InputBuffer → List ℕ
unread b = pending (b.cur ∷ b.later)
