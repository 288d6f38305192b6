-- ===== src/Rpc/Sending.antt =====
-- server/rpc_server.cc and client/client_channel.cc: `send_fn`, the coroutine that empties a poll
-- connection's write buffer, which is the same at both ends. It is resumed where it was suspended.
pub mod Room
use xuanqiong.Base.{
  if_true, if_false, ℕ, ◌≤◌, ◌<◌, ◌≡◌, refl, sym, ap, ◌∙◌, Bool, true, false, not, ◌&&◌, Option,
  none, some, List, [], ◌∷◌, ◌++◌, length, take, drop, length-drop, ◌^◌, ltb, lt→ltb, ge→ltb,
  dec_lt, if◌then◌else◌, arith,
}
use xuanqiong.Util.Output.{unsent}
use xuanqiong.Util.Output.Inv.{IsValid}
use xuanqiong.Net.Connection.{Connection, closed, write_bytes, set_write_handle}
use xuanqiong.Net.Poll.{WriteResult, wrote, again, Awaiter, async_write}
use xuanqiong.Net.Poll.Write.{IsSendable, async_write_once}
use xuanqiong.Scheduler.Awaiter.{wait_write_ready}

-- Where it stops: suspended for want of bytes, or of room in the kernel, or at its end. With it the
-- bytes that were given to the kernel.
pub data Sent : Type 0 where
  waits_bytes waits_room ended : Connection → List ℕ → Sent

-- After an `async_write`.
abbrev after_write :
    ℕ → (Connection → List ℕ → Option Sent) → List ℕ → Option (Awaiter × List ℕ) → Option Sent
after_write handle go out none = none
after_write handle go out (some (a, xs)) =
    if a.should_suspend
    then some (waits_room (set_write_handle a.conn handle) (out ++ xs))
    else go a.conn (out ++ xs)

-- The coroutine at the head of its loop, with what the calls of ::writev return in each
-- `async_write`; `none` where there are more of these than results. `handle` is its own address.
unfoldable pub send_fn : ℕ → ℕ → List (List WriteResult) → Connection → List ℕ → Option Sent
unfolding async_write wait_write_ready set_write_handle
send_fn iov_max handle [] c out =
    if closed c
    then some (ended c out)
    else if wait_write_ready c
    then none
    else some (waits_bytes (set_write_handle c handle) out)
send_fn iov_max handle (rs ∷ rss) c out =
    let next = after_write handle (send_fn iov_max handle rss) out (async_write iov_max c rs) in
    if closed c
    then some (ended c out)
    else if wait_write_ready c
    then next
    else some (waits_bytes (set_write_handle c handle) out)

-- It was suspended for want of bytes, and is resumed.
unfoldable pub send_resumed :
    ℕ → ℕ → List WriteResult → List (List WriteResult) → Connection → List ℕ → Option Sent
unfolding send_fn
send_resumed iov_max handle rs rss c out =
    after_write handle (send_fn iov_max handle rss) out (async_write iov_max c rs)

ready_lem :
    (c : Connection)
    → closed c ≡ false
    → IsValid c.write_buf
    → length (unsent c.write_buf) < 2 ^ 31
    → wait_write_ready c ≡ ltb 0 (length (unsent c.write_buf))
unfolding wait_write_ready
ready_lem c o v s =
    let e : write_bytes c ≡ length (unsent c.write_buf) = omega (arith, v.counted) in rw (o, e) refl

-- The coroutine on an open connection with unsent bytes, and on one without.
send_fn-ready :
    (m handle : ℕ) (rs : List WriteResult) (rss : List (List WriteResult)) (c : Connection)
    (out : List ℕ)
    → closed c ≡ false
    → wait_write_ready c ≡ true
    → send_fn m handle (rs ∷ rss) c out ≡ send_resumed m handle rs rss c out
unfolding send_resumed
send_fn-ready m handle rs rss c out o r =
    if_false (closed c) _ _ o ∙ if_true (wait_write_ready c) _ _ r

send_fn-idle :
    (m handle : ℕ) (c : Connection) (out : List ℕ)
    → closed c ≡ false
    → wait_write_ready c ≡ false
    → send_fn m handle [] c out ≡ some (waits_bytes (set_write_handle c handle) out)
unfolding send_fn
send_fn-idle m handle c out o r = if_false (closed c) _ _ o ∙ if_false (wait_write_ready c) _ _ r

-- What `async_write` leaves, told by its result.
after_write-some :
    (m handle : ℕ) (rs : List WriteResult) (rss : List (List WriteResult)) (c : Connection)
    (out xs : List ℕ) (a : Awaiter)
    → async_write m c rs ≡ some (a, xs)
    → send_resumed m handle rs rss c out ≡ (
        if a.should_suspend
        then some (waits_room (set_write_handle a.conn handle) (out ++ xs))
        else send_fn m handle rss a.conn (out ++ xs))
unfolding send_resumed
after_write-some m handle rs rss c out xs a e = ap (after_write handle (send_fn m handle rss) out) e

-- What the next theorem states, with what is left being sendable again, and all else of the
-- connection being as it was.
pub send_fn_kept :
    (iov_max handle n : ℕ) (rs : List WriteResult) (c : Connection) (out : List ℕ)
    → closed c ≡ false
    → IsSendable iov_max c.write_buf
    → 0 < length (unsent c.write_buf)
    → n ≤ length (unsent c.write_buf)
    → let u = unsent c.write_buf in
      (d : Connection) × (send_fn iov_max handle ((wrote n ∷ again ∷ rs) ∷ []) c out
        ≡ some (
            if ltb n (length u)
            then waits_room d (out ++ take n u)
            else waits_bytes d (out ++ take n u)))
      × (unsent d.write_buf ≡ drop n u)
      × IsSendable iov_max d.write_buf
      × (d ≡ record c { write_buf = d.write_buf; write_handle = some handle })
unfolding set_write_handle
send_fn_kept m handle n rs c out o s p h =
    let u = unsent c.write_buf in
    let (a, e, left, v, k, same, can) = async_write_once m c n rs s p h in
    let d = set_write_handle a.conn handle in
    let ready = ready_lem c o s.valid s.small ∙ lt→ltb 0 (length u) p in
    let run =
      send_fn-ready m handle (wrote n ∷ again ∷ rs) [] c out o ready
      ∙ after_write-some m handle (wrote n ∷ again ∷ rs) [] c out (take n u) a e in
    let stops : a.should_suspend ≡ ltb n (length u) = k ∙ ap (λ t. not t && ltb n (length u)) o in
    let opened : closed a.conn ≡ false = ap (λ t. t.socket.closed) same ∙ o in
    let rest = length-drop n u in
    let small : length (unsent a.conn.write_buf) < 2 ^ 31 =
      omega (arith, s.small, ap length left) in
    elim (dec_lt n (length u)) [
      | yes more ↦ (
        d,
        run
            ∙ if_true a.should_suspend _ _ (stops ∙ lt→ltb n (length u) more)
            ∙ ap some (sym (if_true (ltb n (length u)) _ _ (lt→ltb n (length u) more))),
        left,
        can,
        ap {A = Connection} (λ t. record t { write_handle = some handle }) same,
      )
      | no all ↦
          let none_left : wait_write_ready a.conn ≡ false =
            ready_lem a.conn opened v small
            ∙ ge→ltb 0 (length (unsent a.conn.write_buf)) (omega (arith, ap length left)) in
          (
            d,
            run
                ∙ if_false a.should_suspend _ _ (stops ∙ ge→ltb n (length u) (omega arith))
                ∙ send_fn-idle m handle a.conn (out ++ take n u) opened none_left
                ∙ ap some
                    (sym (if_false (ltb n (length u)) _ _ (ge→ltb n (length u) (omega arith)))),
            left,
            can,
            ap {A = Connection} (λ t. record t { write_handle = some handle }) same,
          )
    ]

-- At the head of its loop on an open poll connection, with a valid write buffer of 1 to 2 ^ 31 -
-- 1 unsent bytes in no more blocks than IOV_MAX, where one ::writev takes `n` of them and a
-- second would block: `send_fn` gives the first `n` to the kernel, keeps exactly the others
-- unsent in a valid buffer, and is suspended with its handle set in the connection, which stays
-- open with its read buffer as it was: for want of room if `n` was not all, and for want of bytes
-- if it was.
pub send_fn_lem :
    (iov_max handle n : ℕ) (rs : List WriteResult) (c : Connection) (out : List ℕ)
    → closed c ≡ false
    → IsSendable iov_max c.write_buf
    → 0 < length (unsent c.write_buf)
    → n ≤ length (unsent c.write_buf)
    → let u = unsent c.write_buf in
      (d : Connection) × (send_fn iov_max handle ((wrote n ∷ again ∷ rs) ∷ []) c out
        ≡ some (
            if ltb n (length u)
            then waits_room d (out ++ take n u)
            else waits_bytes d (out ++ take n u)))
      × (unsent d.write_buf ≡ drop n u)
      × IsValid d.write_buf
      × (d.read_buf ≡ c.read_buf)
      × (closed d ≡ false)
      × (d.write_handle ≡ some handle)
send_fn_lem m handle n rs c out o s p h =
    let (d, run, left, can, same) = send_fn_kept m handle n rs c out o s p h in
    (
      d,
      run,
      left,
      can.valid,
      ap (λ t. t.read_buf) same,
      ap closed same ∙ o,
      ap (λ t. t.write_handle) same,
    )
