-- ===== src/Rpc/Client/Loop.antt =====
-- client/client_channel.cc: the loop of `recv_fn` over a poll connection, where the kernel holds bytes
-- for the socket.
use xuanqiong.Base.{ℕ, zero, suc, Option, none, some, List, [], ◌∷◌, ◌++◌, take, drop, min}
use xuanqiong.Util.Input.{get_buffer}
use xuanqiong.Net.Poll.{Awaiter, async_read}
use xuanqiong.Net.Poll.Kernel.{offered}
use xuanqiong.Rpc.Codec.{Codec}
use xuanqiong.Rpc.Client.{
  Session, Channel, Responses, with_conn, Place, header_len, Outcome, waits, goes, handles, stops,
  fault, recv_step,
}

-- How far the rounds come, and the sessions that were handled, each with the bytes of its response:
-- to a place where bytes are missing, or out of the loop.
pub data Halt : Type 0 where
  paused : Place → Channel → List (Session × List ℕ) → Halt
  left : Channel → List (Session × List ℕ) → Halt
  broken : Halt

-- `stack` is the memory of a length before it is set.
module _ (codec : Codec) (responses : Responses) (stack : ℕ → ℕ) where
  -- After a round at a place.
  abbrev pub after_round :
      (Place → Channel → List (Session × List ℕ) → Option Halt)
      → Place
      → Channel
      → List (Session × List ℕ)
      → Outcome
      → Option Halt
  after_round go p h out waits = some (paused p h out)
  after_round go p h out (goes q d) = go q d out
  after_round go p h out (handles s xs d) = go header_len d (out ++ (s, xs) ∷ [])
  after_round go p h out (stops d) = some (left d out)
  after_round go p h out fault = some broken

  -- The rounds until bytes are missing, on fuel.
  unfoldable pub recv_loop : ℕ → Place → Channel → List (Session × List ℕ) → Option Halt
  unfolding recv_step
  recv_loop zero p h out = none
  recv_loop (suc fuel) p h out =
      after_round (recv_loop fuel) p h out (recv_step codec responses stack p h)

  -- On a connection that is closed `async_read` also resumes the writing coroutine, which works on
  -- the write buffer alone and is left out here.
  abbrev pub after_read : (Channel → Option Halt) → Channel → Option Awaiter → Option Halt
  after_read go h none = none
  after_read go h (some a) = go (with_conn h a.conn)

  abbrev pub when_paused :
      (Place → Channel → List (Session × List ℕ) → Option Halt) → Option Halt → Option Halt
  when_paused go (some (paused p h out)) = go p h out
  when_paused go r = r

  -- The coroutine where the kernel holds `input`: at each `async_read` it gives what is left of it, up
  -- to so many bytes as have arrived and as there is room for.
  unfoldable pub recv_fn :
      ℕ → List ℕ → List ℕ → Place → Channel → List (Session × List ℕ) → Option Halt
  unfolding recv_loop async_read offered get_buffer
  recv_fn fuel [] input p h out = recv_loop fuel p h out
  recv_fn fuel (n ∷ ns) input p h out =
      when_paused
        (λ q d o.
          let k = min n (get_buffer d.conn.read_buf).1 in
          after_read (λ e. recv_fn fuel ns (drop k input) q e o) d
            (async_read d.conn (offered (take k input))))
        (recv_loop fuel p h out)
