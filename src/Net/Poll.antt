-- ===== src/Net/Poll.antt =====
-- net/poll_connection.h and net/poll_connection.cc: reading until the socket has no more, and
-- writing what the buffer holds. What the calls of ::read and ::writev return, in order, is an
-- argument; `none` is a loop that makes more calls than there are results, or does not end.
pub mod Read
pub mod Write
pub mod Kernel
use mathlib.Core.List.{flatten}
use mathlib.Core.Option
use xuanqiong.Base.{
  ℕ, zero, suc, ◌+◌, ◌-◌, ◌%◌, ◌^◌, Bool, true, false, not, ◌&&◌, List, [], ◌∷◌, ◌++◌, Option, none,
  some, length, take, ltb, ◌==◌, if◌then◌else◌,
}
use xuanqiong.Base.Int.{ℤ, pos, negsuc}
use xuanqiong.Util.Input.{InputBuffer, get_buffer, fill}
use xuanqiong.Util.Output.{OutputBuffer, get_iovecs}
use xuanqiong.Net.Connection.{Connection, closed, recv_add, send_add}
use xuanqiong.Net.Connection

-- A result of ::read: bytes, the end of the stream, or an error by its `errno`.
pub data ReadResult : Type 0 where
  got : List ℕ → ReadResult
  eof again interrupted failed : ReadResult

-- A result of ::writev: how many bytes it took, or an error.
pub data WriteResult : Type 0 where
  wrote : ℕ → WriteResult
  again interrupted failed : WriteResult

-- `ReadAwaiter` and `WriteAwaiter`, less the connection, and whether the writing coroutine was
-- resumed on the way.
pub record Awaiter : Type 0 where
  pub conn : Connection
  pub should_suspend : Bool
  pub resumed_write : Bool

-- The loop of `async_read`: `i` is `buffer`, as an index in the last block, and `n` is `read_bytes`.
unfoldable pub read_loop : Connection → ℕ → ℕ → ℕ → List ReadResult → Option (Connection × ℕ)
read_loop c i max_size n [] = if max_size == 0 then some (c, n) else none
read_loop c i max_size n (got xs ∷ rs) =
    let rest =
      read_loop (record c { read_buf = fill c.read_buf i xs }) (i + length xs)
        (max_size - length xs) (n + length xs) rs in
    if max_size == 0 then some (c, n) else rest
read_loop c i max_size n (eof ∷ rs) =
    if max_size == 0 then some (c, n) else some (Connection.close c, n)
read_loop c i max_size n (ReadResult.again ∷ rs) = some (c, n)
read_loop c i max_size n (ReadResult.interrupted ∷ rs) =
    let rest = read_loop c i max_size n rs in if max_size == 0 then some (c, n) else rest
read_loop c i max_size n (ReadResult.failed ∷ rs) =
    if max_size == 0 then some (c, n) else some (Connection.close c, n)

-- After the loop. The writing coroutine works on the write buffer alone, so that resuming it and
-- counting the bytes read do not meet.
unfoldable pub read_done : Connection × ℕ → Awaiter
unfolding recv_add
read_done (c, n) = record {
  conn = recv_add c (pos n);
  should_suspend = not (closed c) && n == 0;
  resumed_write = closed c;
}

unfoldable pub finish_read : Option (Connection × ℕ) → Option Awaiter
unfolding read_done
finish_read none = none
finish_read (some r) = some (read_done r)

unfoldable pub async_read : Connection → List ReadResult → Option Awaiter
unfolding get_buffer read_loop finish_read fill Connection.close
async_read c rs =
    let (i, max_size) = get_buffer c.read_buf in finish_read (read_loop c i max_size 0 rs)

-- `int need_write = write_buf_.bytes()`. A value that does not fit is negative, and the loop and the
-- last test treat it as they treat 0.
unfoldable pub need_write : OutputBuffer → ℕ
need_write b = let w = b.to_write_bytes % 2 ^ 32 in if ltb w (2 ^ 31) then w else 0

-- The loop of `async_write` at the write buffer `b`: returns `nwrite`, and the bytes that the
-- kernel was handed, in order.
unfoldable pub write_loop :
    ℕ → OutputBuffer → ℕ → ℕ → List ℕ → List WriteResult → Option (ℕ × List ℕ)
write_loop iov_max b need nwrite sent [] = if ltb nwrite need then none else some (nwrite, sent)
write_loop iov_max b need nwrite sent (wrote n ∷ rs) =
    let rest =
      write_loop iov_max b need (nwrite + n) (sent ++ take n (flatten (get_iovecs iov_max b))) rs in
    if ltb nwrite need then rest else some (nwrite, sent)
write_loop iov_max b need nwrite sent (WriteResult.again ∷ rs) = some (nwrite, sent)
write_loop iov_max b need nwrite sent (WriteResult.interrupted ∷ rs) =
    let rest = write_loop iov_max b need nwrite sent rs in
    if ltb nwrite need then rest else some (nwrite, sent)
write_loop iov_max b need nwrite sent (WriteResult.failed ∷ rs) = some (nwrite, sent)

-- After the loop.
unfoldable pub write_done : Connection → ℕ → ℕ × List ℕ → Option (Awaiter × List ℕ)
unfolding send_add
write_done c need (nwrite, sent) =
    Option.map
      (λ c'. (
        record {
          conn = c';
          should_suspend = not (closed c') && ltb nwrite need;
          resumed_write = false;
        },
        sent,
      ))
      (send_add (nwrite + 1) c (pos nwrite))

unfoldable pub finish_write : Connection → ℕ → Option (ℕ × List ℕ) → Option (Awaiter × List ℕ)
unfolding write_done
finish_write c need none = none
finish_write c need (some r) = write_done c need r

-- Returns the awaiter, and the bytes that the kernel was handed.
unfoldable pub async_write : ℕ → Connection → List WriteResult → Option (Awaiter × List ℕ)
unfolding need_write write_loop finish_write get_iovecs flatten
async_write iov_max c rs =
    let need = need_write c.write_buf in
    finish_write c need (write_loop iov_max c.write_buf need 0 [] rs)
