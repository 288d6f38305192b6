-- ===== src/Net/Uring.antt =====
-- net/uring_connection.h and net/uring_connection.cc: a connection whose reads and writes are
-- submitted to an io_uring and completed by its executor. The ring is a library's: what the code does
-- with it is a list of calls, and whether the first request for a submission entry found none free
-- is an argument.
pub mod Flow
use mathlib.Core.Option
use xuanqiong.Base.{
  ℕ, zero, suc, Bool, true, false, not, List, [], ◌∷◌, ◌++◌, Option, none, some, ltb, ◌==◌,
  if◌then◌else◌,
}
use xuanqiong.Base.Int.{ℤ, pos, negsuc}
use xuanqiong.Base.Words.{add64, sub64}
use xuanqiong.Util.Input.{get_buffer}
use xuanqiong.Util.Output.{get_iovecs}
use xuanqiong.Net.Socket.{Socket}
use xuanqiong.Net.Connection.{Connection, closed, fd, write_bytes, send_add}
use xuanqiong.Net.Connection
use xuanqiong.Scheduler.Event.{user_data, read, write}

-- A call on the ring.
pub data RingCall : Type 0 where
  get_sqe : RingCall
  submit : RingCall
  -- io_uring_prep_read at a place of the last block, with a size and `user_data`
  prep_read : ℕ → ℕ → ℕ → ℕ → RingCall
  -- io_uring_prep_writev with the ranges and `user_data`
  prep_writev : ℕ → List (List ℕ) → ℕ → RingCall

pub record UringConnection : Type 0 where
  pub conn : Connection
  pub address : ℕ
  pub back_left : ℕ
  pub ioves : List (List ℕ)

-- The constructor.
unfoldable pub init : Socket → ℕ → Bool → UringConnection
unfolding Connection.init
init s address dummy = record {
  conn = Connection.init s dummy;
  address = address;
  back_left = 0;
  ioves = [];
}

-- `back_left_ -= nwrite` on a `size_t`, with `nwrite` an `int`.
abbrev less : ℕ → ℤ → ℕ
less n (pos k) = sub64 n k
less n (negsuc k) = add64 n (suc k)

unfoldable pub uring_send_add : ℕ → UringConnection → ℤ → Option UringConnection
unfolding send_add
uring_send_add fuel c n =
    Option.map (λ d. record c { back_left = less c.back_left n; conn = d }) (send_add fuel c.conn n)

-- The calls that obtain an entry.
abbrev obtain : Bool → List RingCall
obtain full = if full then get_sqe ∷ submit ∷ get_sqe ∷ [] else get_sqe ∷ []

-- What an operation does: the connection after it, the ring's calls, and `should_suspend`.
pub record Started : Type 0 where
  pub conn : UringConnection
  pub calls : List RingCall
  pub should_suspend : Bool

unfoldable pub async_read : Bool → UringConnection → Started
unfolding get_buffer user_data
async_read full c =
    let (i, max_size) = get_buffer c.conn.read_buf in
    record {
      conn = c;
      calls = obtain full ++ prep_read (fd c.conn) i max_size (user_data read c.address) ∷ [];
      should_suspend = true;
    }

-- The part after the test for bytes that are still on their way.
unfoldable pub start_write : Bool → ℕ → UringConnection → Started
unfolding get_iovecs user_data
start_write full iov_max c =
    let c' = record c { back_left = write_bytes c.conn } in
    let iovs = get_iovecs iov_max c.conn.write_buf in
    if write_bytes c.conn == 0
    then record { conn = c'; calls = []; should_suspend = false }
    else record {
      conn = record c' { ioves = iovs };
      calls = obtain full ++ prep_writev (fd c.conn) iovs (user_data write c.address) ∷ [];
      should_suspend = not (closed c.conn);
    }

unfoldable pub async_write : Bool → ℕ → UringConnection → Started
unfolding start_write
async_write full iov_max c =
    if ltb 0 c.back_left
    then record { conn = c; calls = []; should_suspend = true }
    else start_write full iov_max c
