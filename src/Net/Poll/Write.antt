-- ===== src/Net/Poll/Write.antt =====
-- `async_write`: what the peer is sent, and what is taken off the write buffer.
use mathlib.Core.List.{flatten}
use mathlib.Core.Option
use xuanqiong.Base.{
  ℕ, ◌+◌, ◌%◌, ◌^◌, ◌≤◌, ◌<◌, ◌≡◌, refl, ap, ap₂, ◌∙◌, false, not, ◌&&◌, List, [], ◌∷◌, ◌++◌, none,
  some, length, arith, ltb, take, drop, length-drop, lt→ltb,
}
use xuanqiong.Util.Output.{OutputBuffer, get_iovecs, unsent}
use xuanqiong.Util.Output.Inv.{IsValid}
use xuanqiong.Util.Output.Send.{send_add_lem, send_add_hangs, blocks-send_add, get_iovecs_whole}
use xuanqiong.Net.Connection.{Connection, closed, send_add}
use xuanqiong.Net.Poll.{
  WriteResult, wrote, again, Awaiter, need_write, write_loop, write_done, finish_write, async_write,
}

-- A valid write buffer of fewer than 2 ^ 31 bytes, in no more blocks than one ::writev can take.
pub record IsSendable (iov_max : ℕ) (b : OutputBuffer) : Type 0 where
  pub valid : IsValid b
  pub small : length (unsent b) < 2 ^ 31
  pub few_blocks : length (b.cur ∷ b.later) ≤ iov_max

need_write_lem : (m : ℕ) (b : OutputBuffer) → IsSendable m b → need_write b ≡ length (unsent b)
unfolding need_write
need_write_lem m b s =
    let v = s.valid.counted in
    let r = s.small in
    let e : b.to_write_bytes % 2 ^ 32 ≡ length (unsent b) = omega arith in
    rw (e, lt→ltb (length (unsent b)) (2 ^ 31) r)

-- Taking `n` unsent bytes off after the loop.
write_done_lem :
    (c : Connection) (need n : ℕ) (sent : List ℕ)
    → IsValid c.write_buf
    → n ≤ length (unsent c.write_buf)
    → (a : Awaiter) × (write_done c need (n, sent) ≡ some (a, sent))
      × (unsent a.conn.write_buf ≡ drop n (unsent c.write_buf))
      × IsValid a.conn.write_buf
      × (a.should_suspend ≡ (not (closed c) && ltb n need))
      × (a.conn ≡ record c { write_buf = a.conn.write_buf })
      × (length a.conn.write_buf.later ≤ length c.write_buf.later)
unfolding write_done send_add
write_done_lem c need n sent v h =
    let (b, e, u, w) = send_add_lem (n + 1) c.write_buf n v (omega arith) h in
    (
      record {
        conn = record c { write_buf = b };
        should_suspend = not (closed c) && ltb n need;
        resumed_write = false;
      },
      rw (e, Option.map),
      u,
      w,
      refl,
      refl,
      blocks-send_add (n + 1) c.write_buf n b e,
    )

-- More than is unsent cannot be taken off.
write_done-none :
    (c : Connection) (need n : ℕ) (sent : List ℕ)
    → IsValid c.write_buf
    → length (unsent c.write_buf) < n
    → write_done c need (n, sent) ≡ none
unfolding write_done send_add
write_done-none c need n sent v h = rw (send_add_hangs (n + 1) c.write_buf n v h, Option.map)

-- The bytes that one ::writev which takes `n` hands to the kernel.
taken :
    (m : ℕ) (b : OutputBuffer) (n : ℕ)
    → IsSendable m b
    → take n (flatten (get_iovecs m b)) ≡ take n (unsent b)
taken m b n s = ap (take n) (get_iovecs_whole m b s.few_blocks)

loop_once :
    (i : ℕ) (b : OutputBuffer) (need n : ℕ) (rs : List WriteResult)
    → IsSendable i b
    → 0 < need
    → write_loop i b need 0 [] (wrote n ∷ again ∷ rs) ≡ some (n, take n (unsent b))
unfolding write_loop
loop_once i b need n rs s p =
    let z : 0 + n ≡ n = omega arith in
    rw (lt→ltb 0 need p) (ap₂ (λ k t. some (k, t)) z (taken i b n s))

loop_twice :
    (i : ℕ) (b : OutputBuffer) (need m n : ℕ) (rs : List WriteResult)
    → IsSendable i b
    → m < need
    → write_loop i b need 0 [] (wrote m ∷ wrote n ∷ again ∷ rs)
      ≡ some (m + n, take m (unsent b) ++ take n (unsent b))
unfolding write_loop
loop_twice i b need m n rs s p =
    let z : 0 + m ≡ m = omega arith in
    rw (lt→ltb 0 need (omega arith), z, lt→ltb m need p)
      (ap₂ (λ t u. some (m + n, t ++ u)) (taken i b m s) (taken i b n s))

-- For a valid write buffer of 1 to 2 ^ 31 - 1 unsent bytes in no more blocks than IOV_MAX: where
-- one ::writev takes `n` of them and a second would block, `async_write` returns, the kernel was
-- handed the first `n`, and exactly the others stay unsent in a valid buffer. The writing
-- coroutine is to wait exactly if the connection is open and `n` was not all. What is left lies in
-- no more blocks than IOV_MAX either.
pub async_write_once :
    (iov_max : ℕ) (c : Connection) (n : ℕ) (rs : List WriteResult)
    → IsSendable iov_max c.write_buf
    → 0 < length (unsent c.write_buf)
    → n ≤ length (unsent c.write_buf)
    → (a : Awaiter) × (async_write iov_max c (wrote n ∷ again ∷ rs)
        ≡ some (a, take n (unsent c.write_buf)))
      × (unsent a.conn.write_buf ≡ drop n (unsent c.write_buf))
      × IsValid a.conn.write_buf
      × (a.should_suspend ≡ (not (closed c) && ltb n (length (unsent c.write_buf))))
      × (a.conn ≡ record c { write_buf = a.conn.write_buf })
      × IsSendable iov_max a.conn.write_buf
unfolding async_write finish_write
async_write_once m c n rs s p h =
    let b = c.write_buf in
    let need = need_write b in
    let e = need_write_lem m b s in
    let (a, d, u, w, k, same, few) = write_done_lem c need n (take n (unsent b)) s.valid h in
    (
      a,
      ap (finish_write c need) (loop_once m b need n rs s (omega arith)) ∙ d,
      u,
      w,
      k ∙ ap (λ t. not (closed c) && ltb n t) e,
      same,
      record {
        valid = w;
        small = omega (arith, s.small, ap length u, length-drop n (unsent b));
        few_blocks = (let f = s.few_blocks in omega arith);
      },
    )

-- For a valid write buffer of fewer than 2 ^ 31 unsent bytes in no more blocks than IOV_MAX:
-- where two calls of ::writev take `m` bytes, fewer than are unsent, and `n`, `m + n` being no
-- more than are unsent, and a third would block, the kernel was handed the first `m` bytes and
-- then the first `n` bytes again, while the first `m + n` are dropped.
pub async_write_repeats :
    (iov_max : ℕ) (c : Connection) (m n : ℕ) (rs : List WriteResult)
    → IsSendable iov_max c.write_buf
    → m < length (unsent c.write_buf)
    → m + n ≤ length (unsent c.write_buf)
    → (a : Awaiter) × (async_write iov_max c (wrote m ∷ wrote n ∷ again ∷ rs)
        ≡ some (a, take m (unsent c.write_buf) ++ take n (unsent c.write_buf)))
      × (unsent a.conn.write_buf ≡ drop (m + n) (unsent c.write_buf))
unfolding async_write finish_write
async_write_repeats i c m n rs s p h =
    let b = c.write_buf in
    let need = need_write b in
    let e = need_write_lem i b s in
    let (a, d, u, w, k, same, _) =
      write_done_lem c need (m + n) (take m (unsent b) ++ take n (unsent b)) s.valid h in
    (a, ap (finish_write c need) (loop_twice i b need m n rs s (omega arith)) ∙ d, u)

-- For a valid write buffer of fewer than 2 ^ 31 unsent bytes in no more blocks than IOV_MAX:
-- where two calls of ::writev take `m` bytes, fewer than are unsent, and `n`, `m + n` being more
-- than are unsent, and a third would block, `async_write` does not return with the fuel `m + n +
-- 1`, which is more than the bytes it takes off.
pub async_write_hangs :
    (iov_max : ℕ) (c : Connection) (m n : ℕ) (rs : List WriteResult)
    → IsSendable iov_max c.write_buf
    → m < length (unsent c.write_buf)
    → length (unsent c.write_buf) < m + n
    → async_write iov_max c (wrote m ∷ wrote n ∷ again ∷ rs) ≡ none
unfolding async_write finish_write
async_write_hangs i c m n rs s p h =
    let b = c.write_buf in
    let need = need_write b in
    let e = need_write_lem i b s in
    ap (finish_write c need) (loop_twice i b need m n rs s (omega arith))
    ∙ write_done-none c need (m + n) (take m (unsent b) ++ take n (unsent b)) s.valid h
