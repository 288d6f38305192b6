-- ===== src/Util/Input/Skip.antt =====
-- `skip`: what it refuses, what it skips, and where its loop does not end.
use xuanqiong.Base.{
  ℕ, zero, suc, ◌-◌, ◌^◌, ◌≤◌, ◌<◌, ◌≡◌, refl, sym, ap, ◌∙◌, none, some, List, ◌++◌, arith, length,
  length-append, true, false, drop, drop-append_le, min, ℕ_discrete, suc-ne-zero,
}
use xuanqiong.Base.Memory.{slice, length-slice}
use xuanqiong.Base.Words.{add64, sub64}
use xuanqiong.Util.Input.{
  InputBuffer, available, advance, leave_full, skip_step, skip_loop, skip, exceeds_byte_count,
  unread,
}
use xuanqiong.Util.Input.Inv.{
  IsValid, IsLinked-with_counters, counted_after, consume_lem, unread_nil,
}
use xuanqiong.Util.Input.Fetch.{leave_full-counters}

-- One round takes `k` available bytes off the front.
skip_step_lem :
    (b : InputBuffer) (k : ℕ)
    → IsValid b
    → k ≤ available b
    → (xs : List ℕ) × (length xs ≡ k)
      × (unread b ≡ xs ++ unread (skip_step b k))
      × IsValid (skip_step b k)
unfolding skip_step
skip_step_lem b k v h =
    let xs = slice b.cur.memory b.cur.begin k in
    let l : length xs ≡ k = length-slice b.cur.memory b.cur.begin k in
    let d = record b {
      consumed_bytes = add64 b.consumed_bytes k;
      read_bytes = sub64 b.read_bytes k;
    } in
    let (e, w) =
      consume_lem d k
        (IsLinked-with_counters b (sub64 b.read_bytes k) (add64 b.consumed_bytes k) b.limit v.chain)
        h in
    (
      xs,
      l,
      e,
      record {
        chain = w;
        counted =
            (leave_full-counters (advance d k)).0
            ∙ ap (sub64 b.read_bytes) (sym l)
            ∙ counted_after b.read_bytes (unread b) xs (unread (leave_full (advance d k))) v.counted
                e;
      },
    )

available-le : (b : InputBuffer) → IsValid b → 0 < length (unread b) → 0 < available b
available-le b v h = elim (ℕ_discrete (available b) 0) [
  | yes e ↦ absurd (omega (arith, ap length (unread_nil b v.chain e)))
  | no n ↦ omega arith
]

skip_loop-suc :
    (fuel : ℕ) (b : InputBuffer) (n : ℕ)
    → skip_loop (suc fuel) b (suc n)
      ≡ skip_loop fuel (skip_step b (min (suc n) (available b))) (suc n - min (suc n) (available b))
unfolding skip_loop
skip_loop-suc fuel b n = rw (suc-ne-zero n)

skip_loop_lem :
    (fuel : ℕ) (b : InputBuffer) (n : ℕ)
    → IsValid b
    → n < fuel
    → n ≤ length (unread b)
    → (b' : InputBuffer) × (skip_loop fuel b n ≡ some b')
      × (unread b' ≡ drop n (unread b))
      × IsValid b'
unfolding skip_loop
skip_loop_lem zero b n v h k = absurd (omega arith)
skip_loop_lem (suc fuel) b zero v h k = (b, refl, refl, v)
skip_loop_lem (suc fuel) b (suc n) v h k =
    let k' = min (suc n) (available b) in
    let (xs, l, e, w) = skip_step_lem b k' v (omega arith) in
    let p = available-le b v (omega arith) in
    let le = ap length e in
    let la = length-append xs (unread (skip_step b k')) in
    let (c, r, u, w') =
      skip_loop_lem fuel (skip_step b k') (suc n - k') w (omega arith) (omega (arith, le, la)) in
    (
      c,
      skip_loop-suc fuel b n ∙ r,
      u
          ∙ ap (λ t. drop (suc n - t) (unread (skip_step b k'))) (sym l)
          ∙ sym (drop-append_le (suc n) xs (unread (skip_step b k')) (omega arith))
          ∙ ap (drop (suc n)) (sym e),
      w',
    )

-- More bytes than are unread: the loop does not end, whatever the fuel.
skip_loop_hangs :
    (fuel : ℕ) (b : InputBuffer) (n : ℕ)
    → IsValid b
    → length (unread b) < n
    → skip_loop fuel b n ≡ none
unfolding skip_loop
skip_loop_hangs zero b n v h = refl
skip_loop_hangs (suc fuel) b zero v h = absurd (omega arith)
skip_loop_hangs (suc fuel) b (suc n) v h =
    let k' = min (suc n) (available b) in
    let (xs, l, e, w) = skip_step_lem b k' v (omega arith) in
    skip_loop-suc fuel b n
    ∙ skip_loop_hangs fuel (skip_step b k') (suc n - k') w
        (omega (arith, ap length e, length-append xs (unread (skip_step b k'))))

-- For a valid read buffer, and `n` no more than `consumed_bytes_` (which is below 2 ^ 63) and
-- than the unread bytes: with more fuel than `n`, `skip` of `n` returns true, exactly the first
-- `n` unread bytes are dropped, and the buffer is valid.
pub skip_lem :
    (fuel : ℕ) (b : InputBuffer) (n : ℕ)
    → IsValid b
    → n ≤ b.consumed_bytes
    → b.consumed_bytes < 2 ^ 63
    → n ≤ length (unread b)
    → n < fuel
    → (b' : InputBuffer) × (skip fuel b n ≡ some (true, b'))
      × (unread b' ≡ drop n (unread b))
      × IsValid b'
unfolding skip exceeds_byte_count
skip_lem fuel b n v h s k f =
    let (b', e, u, w) = skip_loop_lem fuel b n v f k in (b', ground (arith, e), u, w)

-- Where `n` bytes or more are unread but fewer were consumed, `skip` of `n` returns false, and
-- the buffer is as it was.
pub skip_refuses_readable :
    (fuel : ℕ) (b : InputBuffer) (n : ℕ)
    → b.consumed_bytes < n
    → n ≤ length (unread b)
    → skip fuel b n ≡ some (false, b)
unfolding skip exceeds_byte_count
skip_refuses_readable fuel b n h k = ground arith

-- For a valid read buffer, and `n` no more than `consumed_bytes_` (which is below 2 ^ 63) but
-- more than the unread bytes: `skip` of `n` does not return, with any fuel.
skip_hangs :
    (fuel : ℕ) (b : InputBuffer) (n : ℕ)
    → IsValid b
    → n ≤ b.consumed_bytes
    → b.consumed_bytes < 2 ^ 63
    → length (unread b) < n
    → skip fuel b n ≡ none
unfolding skip exceeds_byte_count
skip_hangs fuel b n v h s k = ground (arith, skip_loop_hangs fuel b n v k)
