-- ===== src/Rpc/Server/Loop.antt =====
-- server/rpc_server.cc: the loop of `recv_fn` over a poll connection, with what it meets: the bytes
-- that the kernel holds for the socket, and the writing coroutine, which an answer resumes.
use xuanqiong.Base.{
  ℕ, zero, suc, Option, none, some, List, [], ◌∷◌, ◌++◌, take, drop, min, if◌then◌else◌,
}
use xuanqiong.Util.Input.{get_buffer}
use xuanqiong.Net.Connection.{Connection}
use xuanqiong.Net.Poll.{Awaiter, async_read}
use xuanqiong.Net.Poll.Kernel.{offered}
use xuanqiong.Rpc.Codec.{Codec, Services}
use xuanqiong.Rpc.Server.{Place, header_len, Outcome, waits, goes, answers, stops, fault, recv_step}

-- How far the rounds come, and the bytes that the writing coroutine has given to the kernel: to a
-- place where bytes are missing, or out of the loop.
pub data Halt : Type 0 where
  paused : Place → Connection → List ℕ → Halt
  left : Connection → List ℕ → Halt
  broken : Halt

-- `write` is what the writing coroutine does when it is resumed: the connection then, and the bytes
-- that it gave to the kernel. `stack` is the memory of a length before it is set.
module _ (codec : Codec) (services : Services) (write : Connection → Connection × List ℕ)
    (stack : ℕ → ℕ) where
  -- After a round at a place.
  abbrev pub after_round :
      (Place → Connection → List ℕ → Option Halt)
      → Place
      → Connection
      → List ℕ
      → Outcome
      → Option Halt
  after_round go p c out waits = some (paused p c out)
  after_round go p c out (goes q d) = go q d out
  after_round go p c out (answers d) = let (e, xs) = write d in go header_len e (out ++ xs)
  after_round go p c out (stops d) = some (left d out)
  after_round go p c out fault = some broken

  -- The rounds until bytes are missing, on fuel.
  unfoldable pub recv_loop : ℕ → Place → Connection → List ℕ → Option Halt
  unfolding recv_step
  recv_loop zero p c out = none
  recv_loop (suc fuel) p c out =
      after_round (recv_loop fuel) p c out (recv_step codec services stack p c)

  -- `async_read` resumes the writing coroutine itself on a connection that is closed.
  abbrev pub after_read :
      (Connection → List ℕ → Option Halt) → List ℕ → Option Awaiter → Option Halt
  after_read go out none = none
  after_read go out (some a) =
      let (e, xs) = write a.conn in
      let resumed = go e (out ++ xs) in
      let same = go a.conn out in if a.resumed_write then resumed else same

  abbrev pub when_paused : (Place → Connection → List ℕ → Option Halt) → Option Halt → Option Halt
  when_paused go (some (paused p c out)) = go p c out
  when_paused go h = h

  -- The coroutine where the kernel holds `input`: at each `async_read` it gives what is left of it, up to so many bytes as
  -- have arrived and as there is room for.
  unfoldable pub recv_fn : ℕ → List ℕ → List ℕ → Place → Connection → List ℕ → Option Halt
  unfolding recv_loop async_read offered get_buffer
  recv_fn fuel [] input p c out = recv_loop fuel p c out
  recv_fn fuel (n ∷ ns) input p c out =
      when_paused
        (λ q d o.
          let k = min n (get_buffer d.read_buf).1 in
          after_read (recv_fn fuel ns (drop k input) q) o (async_read d (offered (take k input))))
        (recv_loop fuel p c out)
