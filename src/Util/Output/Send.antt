-- ===== src/Util/Output/Send.antt =====
-- Sending: what `writev` is given, and what `send_add` takes off.
use mathlib.Core.List.{flatten}
use xuanqiong.Base.{
  drop-all, append-nil, ℕ, zero, suc, ◌+◌, ◌-◌, ◌%◌, ◌^◌, ◌≤◌, ◌<◌, ◌≡◌, refl, sym, ap, ◌∙◌, none,
  some, List, [], ◌∷◌, ◌++◌, append_assoc, arith, length, length-append, length-drop, drop,
  drop-append_le, min, suc-ne-zero,
}
use xuanqiong.Base.Memory.{slice, length-slice}
use xuanqiong.Base.Words.{sub64, sub64_count}
use xuanqiong.Base.Int.{pos}
use xuanqiong.Util.Block.{BufferBlock, Linked, stored, pending, stored_nil, pending-advance}
use xuanqiong.Util.Output.{
  OutputBuffer, unsent, iovecs_from, get_iovecs, send_step, send_loop, send_add,
}
use xuanqiong.Util.Output.Inv.{IsLinked, IsValid, IsLinked-with_counters}

iovecs_prefix :
    (n : ℕ) (cs : List BufferBlock) → pending cs ≡ flatten (iovecs_from n cs) ++ pending (drop n cs)
unfolding flatten
iovecs_prefix zero cs = refl
iovecs_prefix (suc n) [] = refl
iovecs_prefix (suc n) (c ∷ cs) =
    ap (λ t. stored c ++ t) (iovecs_prefix n cs)
    ∙ sym (append_assoc (stored c) (flatten (iovecs_from n cs)) (pending (drop n cs)))

iovecs-length : (n : ℕ) (cs : List BufferBlock) → length (iovecs_from n cs) ≤ n
iovecs-length zero cs = omega arith
iovecs-length (suc n) [] = omega arith
iovecs-length (suc n) (c ∷ cs) = omega (arith, iovecs-length n cs)

-- `get_iovecs` gives at most IOV_MAX ranges; they hold the first unsent bytes, in order, and the
-- other ones lie in the blocks past the first IOV_MAX.
pub get_iovecs_lem :
    (iov_max : ℕ) (b : OutputBuffer)
    → (length (get_iovecs iov_max b) ≤ iov_max)
      × (unsent b ≡ flatten (get_iovecs iov_max b) ++ pending (drop iov_max (b.cur ∷ b.later)))
unfolding get_iovecs
get_iovecs_lem n b = (iovecs-length n (b.cur ∷ b.later), iovecs_prefix n (b.cur ∷ b.later))

-- A chain of no more than IOV_MAX blocks is given whole.
pub get_iovecs_whole :
    (iov_max : ℕ) (b : OutputBuffer)
    → length (b.cur ∷ b.later) ≤ iov_max
    → flatten (get_iovecs iov_max b) ≡ unsent b
get_iovecs_whole n b h = sym (
    (get_iovecs_lem n b).1
    ∙ ap (λ t. flatten (get_iovecs n b) ++ pending t) (drop-all n (b.cur ∷ b.later) h)
    ∙ append-nil (flatten (get_iovecs n b)))

-- One round takes `k` bytes of the first block off the front.
send_step_at :
    (b : OutputBuffer) (k : ℕ) (xs : List BufferBlock)
    → b.later ≡ xs
    → IsLinked b
    → Linked b.cur xs
    → k ≤ b.cur.end - b.cur.begin
    → (unsent (send_step b k) ≡ pending (record b.cur { begin = b.cur.begin + k } ∷ b.later))
      × IsLinked (send_step b k)
unfolding send_step
send_step_at b k [] e v l h =
    ground (arith, v.started, stored_nil (record b.cur { begin = b.cur.begin + k }))
send_step_at b k (x ∷ xs) e v l h =
    ground (arith, v.started, stored_nil (record b.cur { begin = b.cur.begin + k }))

to_write-send_step :
    (b : OutputBuffer) (k : ℕ) (xs : List BufferBlock)
    → b.later ≡ xs
    → (send_step b k).to_write_bytes ≡ b.to_write_bytes
unfolding send_step
to_write-send_step b k [] e = ground arith
to_write-send_step b k (x ∷ xs) e = ground arith

send_step_lem :
    (b : OutputBuffer) (k : ℕ)
    → IsLinked b
    → k ≤ b.cur.end - b.cur.begin
    → (xs : List ℕ) × (length xs ≡ k)
      × (unsent b ≡ xs ++ unsent (send_step b k))
      × IsLinked (send_step b k)
send_step_lem b k v h =
    let xs = slice b.cur.memory b.cur.begin k in
    let (u, w) = send_step_at b k b.later refl v v.linked h in
    (
      xs,
      length-slice b.cur.memory b.cur.begin k,
      pending-advance b.cur b.later k h ∙ ap (λ t. xs ++ t) (sym u),
      w,
    )

-- An unsent byte means one in the first block.
first_pos :
    (b : OutputBuffer) (xs : List BufferBlock)
    → b.later ≡ xs
    → IsLinked b
    → Linked b.cur xs
    → 0 < length (unsent b)
    → 0 < b.cur.end - b.cur.begin
first_pos b [] e v l h =
    let u = λ (t : b.cur.end ≤ b.cur.begin).
      ap length (
        ap (λ ys. stored b.cur ++ pending ys) e ∙ append-nil (stored b.cur) ∙ stored_nil b.cur t) in
    grind (arith, u)
first_pos b (x ∷ xs) e v l h = let p = v.partly in let q = l.0 in omega arith

send_loop-suc :
    (fuel : ℕ) (b : OutputBuffer) (n : ℕ)
    → let k = min (suc n) (b.cur.end - b.cur.begin) in
      send_loop (suc fuel) b (suc n) ≡ send_loop fuel (send_step b k) (suc n - k)
unfolding send_loop
send_loop-suc fuel b n = rw (suc-ne-zero n)

-- The loop drops `n` unsent bytes and leaves the counter alone.
send_loop_lem :
    (fuel : ℕ) (b : OutputBuffer) (n : ℕ)
    → IsLinked b
    → n < fuel
    → n ≤ length (unsent b)
    → (b' : OutputBuffer) × (send_loop fuel b n ≡ some b')
      × (unsent b' ≡ drop n (unsent b))
      × (b'.to_write_bytes ≡ b.to_write_bytes)
      × IsLinked b'
unfolding send_loop
send_loop_lem zero b n v h k = absurd (omega arith)
send_loop_lem (suc fuel) b zero v h k = (b, refl, refl, refl, v)
send_loop_lem (suc fuel) b (suc n) v h k =
    let k' = min (suc n) (b.cur.end - b.cur.begin) in
    let (xs, l, e, w) = send_step_lem b k' v (omega arith) in
    let p = first_pos b b.later refl v v.linked (omega arith) in
    let le = ap length e in
    let la = length-append xs (unsent (send_step b k')) in
    let (c, r, u, t, w') =
      send_loop_lem fuel (send_step b k') (suc n - k') w (omega arith) (omega (arith, le, la)) in
    (
      c,
      send_loop-suc fuel b n ∙ r,
      u
          ∙ ap (λ t. drop (suc n - t) (unsent (send_step b k'))) (sym l)
          ∙ sym (drop-append_le (suc n) xs (unsent (send_step b k')) (omega arith))
          ∙ ap (drop (suc n)) (sym e),
      t ∙ to_write-send_step b k' b.later refl,
      w',
    )

-- A round leaves no more blocks than there were.
blocks-send_step :
    (b : OutputBuffer) (k : ℕ) (xs : List BufferBlock)
    → b.later ≡ xs
    → length (send_step b k).later ≤ length b.later
unfolding send_step
blocks-send_step b k [] e = ground (arith, e)
blocks-send_step b k (x ∷ xs) e = ground (arith, e)

blocks-send_loop :
    (fuel : ℕ) (b : OutputBuffer) (n : ℕ) (b' : OutputBuffer)
    → send_loop fuel b n ≡ some b'
    → length b'.later ≤ length b.later
unfolding send_loop
blocks-send_loop zero b n b' e = cc
blocks-send_loop (suc fuel) b zero b' e = ground (arith, e)
blocks-send_loop (suc fuel) b (suc n) b' e =
    let k = min (suc n) (b.cur.end - b.cur.begin) in
    let rest =
      blocks-send_loop fuel (send_step b k) (suc n - k) b' (sym (send_loop-suc fuel b n) ∙ e) in
    omega (arith, rest, blocks-send_step b k b.later refl)

send_add-suc :
    (fuel : ℕ) (b : OutputBuffer) (n : ℕ)
    → send_add fuel b (pos (suc n))
      ≡ send_loop fuel (record b { to_write_bytes = sub64 b.to_write_bytes (suc n) }) (suc n)
unfolding send_add
send_add-suc fuel b n = rw (suc-ne-zero n) refl

pub blocks-send_add :
    (fuel : ℕ) (b : OutputBuffer) (n : ℕ) (b' : OutputBuffer)
    → send_add fuel b (pos n) ≡ some b'
    → length b'.later ≤ length b.later
unfolding send_add
blocks-send_add fuel b zero b' e = ground (arith, e)
blocks-send_add fuel b (suc n) b' e =
    blocks-send_loop fuel (record b { to_write_bytes = sub64 b.to_write_bytes (suc n) }) (suc n) b'
      (sym (send_add-suc fuel b n) ∙ e)

send_loop_hangs :
    (fuel : ℕ) (b : OutputBuffer) (n : ℕ)
    → IsLinked b
    → length (unsent b) < n
    → send_loop fuel b n ≡ none
unfolding send_loop
send_loop_hangs zero b n v h = refl
send_loop_hangs (suc fuel) b zero v h = absurd (omega arith)
send_loop_hangs (suc fuel) b (suc n) v h =
    let k' = min (suc n) (b.cur.end - b.cur.begin) in
    let (xs, l, e, w) = send_step_lem b k' v (omega arith) in
    send_loop-suc fuel b n
    ∙ send_loop_hangs fuel (send_step b k') (suc n - k') w
        (omega (arith, ap length e, length-append xs (unsent (send_step b k'))))

counted_dropped :
    (r n : ℕ) (us : List ℕ)
    → r ≡ length us % 2 ^ 64
    → n ≤ length us
    → sub64 r n ≡ length (drop n us) % 2 ^ 64
counted_dropped r n us h k = omega (arith, length-drop n us, sub64_count (length us - n) n)

-- For a valid write buffer and `n` no more than its unsent bytes: with more fuel than `n`,
-- `send_add` of `n` returns, exactly the first `n` unsent bytes are dropped, and the buffer is
-- valid.
pub send_add_lem :
    (fuel : ℕ) (b : OutputBuffer) (n : ℕ)
    → IsValid b
    → n < fuel
    → n ≤ length (unsent b)
    → (b' : OutputBuffer) × (send_add fuel b (pos n) ≡ some b')
      × (unsent b' ≡ drop n (unsent b))
      × IsValid b'
unfolding send_add
send_add_lem fuel b zero v h k = (b, refl, refl, v)
send_add_lem fuel b (suc n) v h k =
    let c = record b { to_write_bytes = sub64 b.to_write_bytes (suc n) } in
    let (b', e, u, t, w) =
      send_loop_lem fuel c (suc n) (IsLinked-with_counters b _ b.total_bytes v.chain) h k in
    (
      b',
      rw (suc-ne-zero n) e,
      u,
      record {
        chain = w;
        counted =
            t
            ∙ counted_dropped b.to_write_bytes (suc n) (unsent b) v.counted k
            ∙ ap (λ t. length t % 2 ^ 64) (sym u);
      },
    )

-- For a valid write buffer and `n` more than its unsent bytes: `send_add` of `n` does not return,
-- with any fuel.
pub send_add_hangs :
    (fuel : ℕ) (b : OutputBuffer) (n : ℕ)
    → IsValid b
    → length (unsent b) < n
    → send_add fuel b (pos n) ≡ none
unfolding send_add
send_add_hangs fuel b zero v h = absurd (omega arith)
send_add_hangs fuel b (suc n) v h =
    let c = record b { to_write_bytes = sub64 b.to_write_bytes (suc n) } in
    rw (suc-ne-zero n)
      (send_loop_hangs fuel c (suc n) (IsLinked-with_counters b _ b.total_bytes v.chain) h)
