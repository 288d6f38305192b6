-- ===== src/Util/Output/Inv.antt =====
-- The shape of an `OutputBuffer`'s chain, its counter, and what changing its last block does.
use xuanqiong.Base.{
  ℕ, ◌+◌, ◌%◌, ◌^◌, ◌≤◌, ◌<◌, ◌≡◌, refl, ap, List, ◌∷◌, ◌++◌, arith, length, length-append, ◌==◌,
  Bool-cases, inl, inr, ==_iff,
}
use xuanqiong.Base.Words.{add64, add64_count}
use xuanqiong.Util.Block.{
  BufferBlock, block_size, new_block, Linked, stored, pending-set_last, last_of-append,
  Linked-set_last, Linked-append, last_of-end-le, first_set_bounds, pending-add_block,
}
use xuanqiong.Util.Output.{OutputBuffer, init, last_block, with_last, ensure_room, unsent}

-- The chain, apart from the counters: `cur_block_` is not yet sent to its physical end.
pub record IsLinked (b : OutputBuffer) : Type 0 where
  pub linked : Linked b.cur b.later
  pub started : b.cur.begin ≤ b.cur.end
  pub partly : b.cur.begin < block_size

-- The chain and the counter `to_write_bytes_`, which counts the unsent bytes modulo 2 ^ 64.
pub record IsValid (b : OutputBuffer) : Type 0 where
  pub chain : IsLinked b
  pub counted : b.to_write_bytes ≡ length (unsent b) % 2 ^ 64

pub init-IsValid : IsValid init
unfolding init
init-IsValid = record {
  chain = record { linked = omega arith; started = omega arith; partly = omega arith };
  counted = omega arith;
}

-- The chain once its last block is replaced by one that holds `xs` after the old bytes.
pub grown_chain :
    (b : OutputBuffer) (l : BufferBlock) (xs : List ℕ)
    → IsLinked b
    → l.begin ≡ (last_block b).begin
    → l.end ≡ (last_block b).end + length xs
    → l.end ≤ block_size
    → stored l ≡ stored (last_block b) ++ xs
    → (unsent (with_last b l) ≡ unsent b ++ xs) × IsLinked (with_last b l)
grown_chain b l xs v e f r g =
    let (k, m) = first_set_bounds b.cur b.later l e (omega arith) in
    let s = v.started in
    let p = v.partly in
    (
      pending-set_last b.cur b.later l xs g,
      record {
        linked = Linked-set_last b.cur b.later l v.linked e r;
        started = omega arith;
        partly = omega arith;
      },
    )

-- Then the last block has room, and the unsent bytes are the same.
pub ensure_room_lem :
    (b : OutputBuffer)
    → IsLinked b
    → (unsent (ensure_room b) ≡ unsent b)
      × IsLinked (ensure_room b)
      × ((last_block (ensure_room b)).end < block_size)
ensure_room_lem b v = elim (Bool-cases ((last_block b).end == block_size)) [
  | inl full ↦ rw full (
    pending-add_block (b.cur ∷ b.later),
    record {
      linked = Linked-append b.cur b.later v.linked ((==_iff _ _).0 full);
      started = v.started;
      partly = v.partly;
    },
    rw (last_of-append b.cur b.later new_block) (omega arith),
  )
  | inr part ↦ rw part (refl, v, ground (arith, last_of-end-le b.cur b.later v.linked))
]

pub IsLinked-with_counters :
    (b : OutputBuffer) (w t : ℕ)
    → IsLinked b
    → IsLinked (record b { to_write_bytes = w; total_bytes = t })
IsLinked-with_counters b w t v = record {
  linked = v.linked;
  started = v.started;
  partly = v.partly;
}

-- The counter after `xs` was written behind the unsent bytes.
pub counted_grown :
    (r : ℕ) (us vs xs : List ℕ)
    → r ≡ length us % 2 ^ 64
    → vs ≡ us ++ xs
    → add64 r (length xs) ≡ length vs % 2 ^ 64
counted_grown r us vs xs h e =
    omega (arith, ap length e, h, length-append us xs, add64_count (length us) (length xs))

pub ensure_room-counters :
    (b : OutputBuffer)
    → ((ensure_room b).to_write_bytes ≡ b.to_write_bytes)
      × ((ensure_room b).total_bytes ≡ b.total_bytes)
ensure_room-counters b = ground arith
