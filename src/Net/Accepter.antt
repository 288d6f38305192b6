-- ===== src/Net/Accepter.antt =====
-- net/socket_utils.h, net/socket_utils.cc, net/accepter.h and net/accepter.cc: descriptors, by the
-- system calls that are made on them, in order. Whether a call succeeds, after which calls, is an
-- argument, and so are the descriptors that `socket` and `accept` give, `none` where they fail.
pub mod Closing
use xuanqiong.Base.{
  ℕ, ◌+◌, ◌*◌, Bool, true, false, Option, none, some, List, [], ◌∷◌, ◌++◌, if◌then◌else◌,
}

-- The options that are set, with their values.
pub data SocketOption : Type 0 where
  reuse_address send_buffer receive_buffer keep_alive no_delay linger : ℕ → SocketOption

pub data Call : Type 0 where
  socket : Call
  set_option : ℕ → SocketOption → Call
  -- the address is that of any interface, at a port
  bind : ℕ → ℕ → Call
  -- a descriptor, and the backlog
  listen : ℕ → ℕ → Call
  connect : ℕ → Call
  accept : ℕ → Call
  -- fcntl with O_NONBLOCK and O_CLOEXEC
  set_flags : ℕ → Call
  close : ℕ → Call

-- Whether a call succeeds after the calls made before it.
abbrev pub Kernel : Type 0
Kernel = List Call → Call → Bool

-- What a set-up comes to: a descriptor, or `exit(EXIT_FAILURE)`; with all calls made.
pub data Setup : Type 0 where
  ready : ℕ → List Call → Setup
  exited : List Call → Setup

module _ (kernel : Kernel) where
  -- `SocketUtils::setsocketopt`.
  unfoldable pub setsocketopt : ℕ → SocketOption → List Call → List Call
  setsocketopt fd o calls =
      let calls' = calls ++ set_option fd o ∷ [] in
      if kernel calls (set_option fd o) then calls' else calls' ++ close fd ∷ []

  -- `SocketUtils::bind`, `listen` and `connect`: a call on a descriptor after which the program
  -- ends if it fails.
  unfoldable pub or_exit : ℕ → Call → List Call → Setup
  or_exit fd c calls =
      let calls' = calls ++ c ∷ [] in
      if kernel calls c then ready fd calls' else exited (calls' ++ close fd ∷ [])

  abbrev pub and_then : Setup → (ℕ → List Call → Setup) → Setup
  and_then (ready fd calls) f = f fd calls
  and_then (exited calls) f = exited calls

  -- `SocketUtils::socket`.
  unfoldable pub new_socket : Option ℕ → Setup
  new_socket none = exited (socket ∷ [])
  new_socket (some fd) = ready fd (socket ∷ [])

  -- The constructor of `Accepter`.
  unfoldable pub open_accepter : Option ℕ → ℕ → ℕ → Setup
  unfolding new_socket setsocketopt or_exit
  open_accepter new port backlog = and_then (new_socket new) (λ fd calls.
      and_then (or_exit fd (bind fd port) (setsocketopt fd (reuse_address 1) calls))
        (λ fd calls. or_exit fd (listen fd backlog) calls))

  -- `Accepter::set_fd_param`.
  unfoldable pub set_fd_param : ℕ → ℕ → List Call → List Call
  unfolding setsocketopt
  set_fd_param nodelay fd calls =
      let calls' = calls ++ set_flags fd ∷ [] in
      let calls' = if kernel calls (set_flags fd) then calls' else calls' ++ close fd ∷ [] in
      setsocketopt fd (no_delay nodelay) (
        setsocketopt fd (keep_alive 1) (
          setsocketopt fd (receive_buffer (512 * 1024))
            (setsocketopt fd (send_buffer (512 * 1024)) calls')))

  -- `Accepter::accept` at the descriptor `sockfd`: what it returns, and the calls.
  unfoldable pub accept_fd : ℕ → ℕ → Option ℕ → List Call → Option ℕ × List Call
  unfolding set_fd_param
  accept_fd sockfd nodelay none calls = (none, calls ++ accept sockfd ∷ [])
  accept_fd sockfd nodelay (some fd) calls =
      (some fd, set_fd_param nodelay fd (calls ++ accept sockfd ∷ []))

  -- The constructor of `ClientChannel`, where the address parses: its descriptor.
  unfoldable pub open_channel : Option ℕ → Setup
  unfolding new_socket setsocketopt or_exit
  open_channel new = and_then (new_socket new) (λ fd calls.
      and_then (or_exit fd (connect fd) calls) (λ fd calls. ready fd (
        setsocketopt fd (linger 0) (
          setsocketopt fd (no_delay 1) (
            setsocketopt fd (receive_buffer (512 * 1024))
              (setsocketopt fd (send_buffer (512 * 1024)) (calls ++ set_flags fd ∷ [])))))))
