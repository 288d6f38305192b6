-- ===== src/Util/Output.antt =====
-- util/output_stream.h and util/output_stream.cc: `OutputBuffer` and the `NetOutputStream` over it.
-- The chain from `cur_block_` is `cur` and `later`, and `last_block_` is its last block. A pointer
-- into a block is an index; `writev` is given the list of the byte ranges.
pub mod Inv
pub mod Send
pub mod Write
use xuanqiong.Base.{
  ℕ, zero, suc, ◌+◌, ◌-◌, min, Option, none, some, List, [], ◌∷◌, ◌++◌, ltb, ◌==◌, if◌then◌else◌,
  take, drop, length,
}
use xuanqiong.Base.Memory.{store}
use xuanqiong.Base.Words.{add64, sub64}
use xuanqiong.Base.Int.{ℤ, pos, negsuc}
use xuanqiong.Util.Block.{
  BufferBlock, block_size, new_block, last_of, first_set, later_set, pending, stored, extended,
}

pub record OutputBuffer : Type 0 where
  pub cur : BufferBlock
  pub later : List BufferBlock
  pub to_write_bytes : ℕ
  pub total_bytes : ℕ

unfoldable pub init : OutputBuffer
init = record { cur = new_block; later = []; to_write_bytes = 0; total_bytes = 0 }

abbrev pub last_block : OutputBuffer → BufferBlock
last_block b = last_of b.cur b.later

-- `*last_block_ = c`, the chain's links kept.
abbrev pub with_last : OutputBuffer → BufferBlock → OutputBuffer
with_last b c = record b { cur = first_set b.cur b.later c; later = later_set b.later c }

-- `last_block_->next = new BufferBlock; last_block_ = last_block_->next;`
abbrev pub add_block : OutputBuffer → OutputBuffer
add_block b = record b { later = b.later ++ new_block ∷ [] }

abbrev pub ensure_room : OutputBuffer → OutputBuffer
ensure_room b = if (last_block b).end == block_size then add_block b else b

-- `next`: where the region starts in the last block, its size, and the new state.
unfoldable pub next : OutputBuffer → ℕ × ℕ × OutputBuffer
next b =
    let b' = ensure_room b in
    let l = last_block b' in
    let size = block_size - l.end in
    (
      l.end,
      size,
      record (with_last b' (record l { end = l.end + size })) {
        to_write_bytes = add64 b'.to_write_bytes size;
        total_bytes = add64 b'.total_bytes size;
      },
    )

-- A write of `xs` at index `i` of the last block, through the pointer that `next` returned.
unfoldable pub fill : OutputBuffer → ℕ → List ℕ → OutputBuffer
fill b i xs = with_last b (record (last_block b) { memory = store (last_block b).memory i xs })

unfoldable pub back_up : OutputBuffer → ℕ → OutputBuffer
back_up b count =
    let l = last_block b in
    let to_backup = min count l.end in
    record (with_last b (record l { end = l.end - to_backup })) {
      to_write_bytes = sub64 b.to_write_bytes to_backup;
      total_bytes = sub64 b.total_bytes to_backup;
    }

-- One round of the loop of `append`: as much of `xs` as fits into the last block.
unfoldable pub append_step : OutputBuffer → List ℕ → OutputBuffer
append_step b xs =
    let l = last_block b in
    let part = take (block_size - l.end) xs in
    let b' = with_last b (extended l part) in
    ensure_room (record b' { to_write_bytes = add64 b'.to_write_bytes (length part) })

-- The loop on fuel; `none` means that the fuel ran out. `xs` is what `ptr` and `size` still span.
unfoldable pub append_loop : ℕ → OutputBuffer → List ℕ → Option OutputBuffer
append_loop zero b xs = none
append_loop (suc fuel) b [] = some b
append_loop (suc fuel) b (x ∷ xs) =
    append_loop fuel (append_step b (x ∷ xs)) (drop (block_size - (last_block b).end) (x ∷ xs))

-- Two rounds of fuel more than bytes: the first may find the last block full.
unfoldable pub append : OutputBuffer → List ℕ → Option OutputBuffer
unfolding append_loop append_step
append b xs = append_loop (length xs + 2) b xs

-- The first `n` ranges of the chain, `n` counting down from IOV_MAX.
abbrev pub iovecs_from : ℕ → List BufferBlock → List (List ℕ)
iovecs_from zero cs = []
iovecs_from (suc n) [] = []
iovecs_from (suc n) (c ∷ cs) = stored c ∷ iovecs_from n cs

unfoldable pub get_iovecs : ℕ → OutputBuffer → List (List ℕ)
get_iovecs iov_max b = iovecs_from iov_max (b.cur ∷ b.later)

-- `delete cur_block_; cur_block_ = next_block;` where a missing next block was first allocated.
abbrev drop_cur : OutputBuffer → List BufferBlock → OutputBuffer
drop_cur b [] = record b { cur = new_block; later = [] }
drop_cur b (x ∷ xs) = record b { cur = x; later = xs }

-- One round of the loop of `send_add`, at `cur_write` bytes.
unfoldable pub send_step : OutputBuffer → ℕ → OutputBuffer
send_step b cur_write =
    let c = record b.cur { begin = b.cur.begin + cur_write } in
    if c.begin == block_size then drop_cur b b.later else record b { cur = c }

unfoldable pub send_loop : ℕ → OutputBuffer → ℕ → Option OutputBuffer
send_loop zero b left = none
send_loop (suc fuel) b left =
    let cur_write = min left (b.cur.end - b.cur.begin) in
    let rest = send_loop fuel (send_step b cur_write) (left - cur_write) in
    if left == 0 then some b else rest

unfoldable pub send_add : ℕ → OutputBuffer → ℤ → Option OutputBuffer
unfolding send_loop send_step
send_add fuel b (negsuc n) = some b
send_add fuel b (pos n) =
    if n == 0
    then some b
    else send_loop fuel (record b { to_write_bytes = sub64 b.to_write_bytes n }) n

-- The bytes that were written and not yet sent, oldest first.
abbrev pub unsent : OutputBuffer → List ℕ
unsent b = pending (b.cur ∷ b.later)
