-- ===== src/Net/Socket.antt =====
-- net/socket.h and net/socket.cc: a connected socket. The addresses come from getsockname and
-- getpeername, which are arguments here.
use Prim.Native.String.{String}
use xuanqiong.Base.{ℕ, ◌≡◌, refl, Bool, true, false, List, [], ◌∷◌, ◌++◌, if◌then◌else◌, arith}

-- A system call on the descriptor that the socket makes.
pub data Syscall : Type 0 where
  shutdown_write : ℕ → Syscall
  close_fd : ℕ → Syscall

pub record Socket : Type 0 where
  pub sockfd : ℕ
  pub local_addr : String
  pub local_port : ℕ
  pub peer_addr : String
  pub peer_port : ℕ
  pub closed : Bool

-- The constructor; the ends are what the two calls report, a port in host order.
unfoldable pub open_socket : ℕ → String × ℕ → String × ℕ → Socket
open_socket fd here peer = record {
  sockfd = fd;
  local_addr = here.0;
  local_port = here.1;
  peer_addr = peer.0;
  peer_port = peer.1;
  closed = false;
}

-- `close`: the new state, and the calls made.
unfoldable pub close : Socket → Socket × List Syscall
close s = if s.closed then (s, []) else (record s { closed = true }, shutdown_write s.sockfd ∷ [])

-- The destructor.
unfoldable pub destroy : Socket → List Syscall
destroy s = close_fd s.sockfd ∷ []

-- `close` called so often, with all the calls made.
unfoldable pub close_times : List (Unit {0}) → Socket → Socket × List Syscall
unfolding close
close_times [] s = (s, [])
close_times (_ ∷ ts) s =
    let (s', calls) = close s in let (s'', more) = close_times ts s' in (s'', calls ++ more)

close_times_closed :
    (ts : List (Unit {0})) (s : Socket) → s.closed ≡ true → close_times ts s ≡ (s, [])
unfolding close_times
close_times_closed [] s h = refl
close_times_closed (_ ∷ ts) s h = ground (arith, close_times_closed ts s h)

-- However often an open socket is closed, once at least: its write side is shut down once, and it
-- is the same socket, closed.
pub close_times_once :
    (ts : List (Unit {0})) (t : Unit {0}) (s : Socket)
    → s.closed ≡ false
    → close_times (t ∷ ts) s ≡ (record s { closed = true }, shutdown_write s.sockfd ∷ [])
unfolding close_times
close_times_once ts t s h = ground (arith, close_times_closed ts (record s { closed = true }))
