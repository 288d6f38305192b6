-- ===== src/Net/Uring/Flow.antt =====
-- Writes on the ring, from the submission to the completion.
use mathlib.Core.Option
use mathlib.Core.List.{flatten}
use xuanqiong.Base.{
  ℕ, suc, ◌+◌, ◌^◌, ◌≤◌, ◌<◌, ◌≡◌, refl, ap, ◌∙◌, Bool, not, if◌then◌else◌, List, [], ◌∷◌, ◌++◌,
  some, length, length-append, drop, drop-append, map, arith, lt→ltb,
}
use xuanqiong.Base.Int.{pos, negsuc}
use xuanqiong.Base.Words.{add64, sub64}
use xuanqiong.Util.Output.{append, unsent, get_iovecs}
use xuanqiong.Util.Output
use xuanqiong.Util.Output.Inv.{IsValid}
use xuanqiong.Util.Output.Write.{append_lem}
use xuanqiong.Util.Output.Send.{send_add_lem, get_iovecs_whole}
use xuanqiong.Net.Connection.{send_add, closed, fd}
use xuanqiong.Scheduler.Event.{user_data, write}
use xuanqiong.Net.Uring.{
  UringConnection, RingCall, get_sqe, submit, prep_writev, uring_send_add, async_write,
}

-- The connection once its unsent bytes were submitted.
abbrev submitted : ℕ → UringConnection → UringConnection
submitted iov_max c = record c {
  back_left = length (unsent c.conn.write_buf);
  ioves = get_iovecs iov_max c.conn.write_buf;
}

async_write-submits :
    (full : Bool) (iov_max : ℕ) (c : UringConnection)
    → IsValid c.conn.write_buf
    → c.back_left ≡ 0
    → 0 < length (unsent c.conn.write_buf)
    → length (unsent c.conn.write_buf) < 2 ^ 64
    → async_write full iov_max c ≡ record {
      conn = submitted iov_max c;
      calls =
          (if full then get_sqe ∷ submit ∷ get_sqe ∷ [] else get_sqe ∷ [])
          ++ prep_writev
              (fd c.conn)
              (get_iovecs iov_max c.conn.write_buf)
              (user_data write c.address)
            ∷ [];
      should_suspend = not (closed c.conn);
    }
unfolding async_write
async_write-submits full iov_max c v z p small =
    let e : c.conn.write_buf.to_write_bytes ≡ length (unsent c.conn.write_buf) =
      omega (arith, v.counted) in
    rw (z, e) (ground arith)

complete_lem :
    (c : UringConnection) (us xs : List ℕ)
    → IsValid c.conn.write_buf
    → unsent c.conn.write_buf ≡ us ++ xs
    → c.back_left ≡ length us
    → (d : UringConnection) × (uring_send_add (length us + 1) c (pos (length us)) ≡ some d)
      × (d.back_left ≡ 0)
      × (unsent d.conn.write_buf ≡ xs)
      × IsValid d.conn.write_buf
unfolding uring_send_add send_add
complete_lem c us xs v e b =
    let (w, r, u, v') =
      send_add_lem (length us + 1) c.conn.write_buf (length us) v (omega arith)
        (omega (arith, ap length e, length-append us xs)) in
    (
      record c {
        conn = record c.conn { write_buf = w };
        back_left = sub64 c.back_left (length us);
      },
      rw (r, Option.map),
      rw b (omega arith),
      u ∙ ap (drop (length us)) e ∙ drop-append us xs,
      v',
    )

-- Let a connection's write buffer be valid, with 1 to 2 ^ 64 - 1 unsent bytes in no more blocks
-- than IOV_MAX, and nothing be on its way. The calls of `async_write` then obtain a submission
-- entry, submitting first where none is free, and prepare one writev on the connection's
-- descriptor, marked as its write, of ranges that hold exactly the unsent bytes; these count as
-- on their way, and the coroutine is to wait exactly if the connection is open. If `xs` is
-- appended after that, and the completion reports all the bytes, then, with fuel for them,
-- exactly `xs` is unsent in a valid buffer, and nothing is on its way.
pub complete-submit :
    (full : Bool) (iov_max : ℕ) (c : UringConnection) (xs : List ℕ)
    → IsValid c.conn.write_buf
    → c.back_left ≡ 0
    → 0 < length (unsent c.conn.write_buf)
    → length (unsent c.conn.write_buf) < 2 ^ 64
    → length (c.conn.write_buf.cur ∷ c.conn.write_buf.later) ≤ iov_max
    → let n = length (unsent c.conn.write_buf) in
      let started = async_write full iov_max c in
      let s = started.conn in
      (w : Output.OutputBuffer) × (d : UringConnection) × (started.calls
        ≡ (if full then get_sqe ∷ submit ∷ get_sqe ∷ [] else get_sqe ∷ [])
          ++ prep_writev (fd c.conn) s.ioves (user_data write c.address) ∷ [])
      × (started.should_suspend ≡ not (closed c.conn))
      × (flatten s.ioves ≡ unsent c.conn.write_buf)
      × (s.back_left ≡ n)
      × (append s.conn.write_buf xs ≡ some w)
      × (uring_send_add (n + 1) (record s { conn = record s.conn { write_buf = w } }) (pos n)
          ≡ some d)
      × (d.back_left ≡ 0)
      × (unsent d.conn.write_buf ≡ xs)
      × IsValid d.conn.write_buf
unfolding async_write uring_send_add
complete-submit full iov_max c xs v z p small few =
    let us = unsent c.conn.write_buf in
    let t = submitted iov_max c in
    let (w, a, u, v') = append_lem c.conn.write_buf xs v in
    let (d, r, k, m, v'') =
      complete_lem (record t { conn = record t.conn { write_buf = w } }) us xs v' u refl in
    rw (async_write-submits full iov_max c v z p small)
      (w, d, refl, refl, get_iovecs_whole iov_max c.conn.write_buf few, refl, a, r, k, m, v'')

-- The write call made over and over, each time as the writing coroutine is resumed.
pub retry : List Bool → ℕ → UringConnection → List (List RingCall)
retry [] iov_max c = []
retry (f ∷ fs) iov_max c = let s = async_write f iov_max c in s.calls ∷ retry fs iov_max s.conn

retry_nothing :
    (fs : List Bool) (iov_max : ℕ) (c : UringConnection)
    → 0 < c.back_left
    → retry fs iov_max c ≡ map (λ _. []) fs
unfolding retry async_write
retry_nothing [] iov_max c h = refl
retry_nothing (f ∷ fs) iov_max c h =
    rw (lt→ltb 0 c.back_left h) (ap (λ t. [] ∷ t) (retry_nothing fs iov_max c h))

-- For a valid write buffer, and `k` fewer than the bytes on their way (below 2 ^ 64) and no more
-- than the unsent ones: with more fuel than `k`, a completion that reports `k` drops the first
-- `k` unsent bytes and leaves a connection at which no later `async_write`, however often it is
-- called, makes any call on the ring.
pub short_completion_stalls :
    (fuel : ℕ) (c : UringConnection) (k iov_max : ℕ) (fs : List Bool)
    → IsValid c.conn.write_buf
    → k < c.back_left
    → c.back_left < 2 ^ 64
    → k ≤ length (unsent c.conn.write_buf)
    → k < fuel
    → (d : UringConnection) × (uring_send_add fuel c (pos k) ≡ some d)
      × (unsent d.conn.write_buf ≡ drop k (unsent c.conn.write_buf))
      × (retry fs iov_max d ≡ map (λ _. []) fs)
unfolding uring_send_add send_add
short_completion_stalls fuel c k iov_max fs v h small l f =
    let (w, r, u, v') = send_add_lem fuel c.conn.write_buf k v f l in
    let d = record c { conn = record c.conn { write_buf = w }; back_left = sub64 c.back_left k } in
    (d, rw (r, Option.map), u, retry_nothing fs iov_max d (omega arith))

-- A completion that reports an error `-(n + 1)`, where the bytes on their way and `n + 1` add to
-- less than 2 ^ 64, adds `n + 1` to the bytes on their way, leaves the unsent bytes, and no later
-- `async_write`, however often it is called, makes any call on the ring.
failed_completion_stalls :
    (fuel : ℕ) (c : UringConnection) (n iov_max : ℕ) (fs : List Bool)
    → c.back_left + suc n < 2 ^ 64
    → (d : UringConnection) × (uring_send_add fuel c (negsuc n) ≡ some d)
      × (d.back_left ≡ c.back_left + suc n)
      × (unsent d.conn.write_buf ≡ unsent c.conn.write_buf)
      × (retry fs iov_max d ≡ map (λ _. []) fs)
unfolding uring_send_add send_add Output.send_add
failed_completion_stalls fuel c n iov_max fs h =
    let d = record c { back_left = add64 c.back_left (suc n) } in
    (d, refl, omega arith, refl, retry_nothing fs iov_max d (omega arith))
