-- ===== src/Net/Connection.antt =====
-- net/connection.h: what the two kinds of connections share. The buffers are values of the
-- connection; a stream over a buffer works on that buffer. A coroutine handle is an address, `none`
-- before it is first set.
use mathlib.Core.Option
use xuanqiong.Base.{ℕ, Bool, Option, none, some}
use xuanqiong.Base.Int.{ℤ}
use xuanqiong.Util.Input.{InputBuffer}
use xuanqiong.Util.Input
use xuanqiong.Util.Output.{OutputBuffer}
use xuanqiong.Util.Output
use xuanqiong.Net.Socket.{Socket, Syscall}
use xuanqiong.Net.Socket

pub record Connection : Type 0 where
  pub is_dummy : Bool
  pub read_buf : InputBuffer
  pub write_buf : OutputBuffer
  pub read_handle : Option ℕ
  pub write_handle : Option ℕ
  pub socket : Socket

-- The constructor.
unfoldable pub init : Socket → Bool → Connection
unfolding Input.init Output.init
init s dummy = record {
  is_dummy = dummy;
  read_buf = Input.init;
  write_buf = Output.init;
  read_handle = none;
  write_handle = none;
  socket = s;
}

abbrev pub closed : Connection → Bool
closed c = c.socket.closed

abbrev pub fd : Connection → ℕ
fd c = c.socket.sockfd

unfoldable pub close : Connection → Connection
unfolding Socket.close
close c = record c { socket = (Socket.close c.socket).0 }

unfoldable pub set_read_handle : Connection → ℕ → Connection
set_read_handle c h = record c { read_handle = some h }

unfoldable pub set_write_handle : Connection → ℕ → Connection
set_write_handle c h = record c { write_handle = some h }

-- `read_bytes` and `write_bytes`.
abbrev pub read_bytes : Connection → ℕ
read_bytes c = c.read_buf.read_bytes

abbrev pub write_bytes : Connection → ℕ
write_bytes c = c.write_buf.to_write_bytes

unfoldable pub recv_add : Connection → ℤ → Connection
unfolding Input.recv_add
recv_add c n = record c { read_buf = Input.recv_add c.read_buf n }

-- `none`: the loop of the buffer's `send_add` ran out of fuel.
unfoldable pub send_add : ℕ → Connection → ℤ → Option Connection
unfolding Output.send_add
send_add fuel c n =
    Option.map (λ b. record c { write_buf = b }) (Output.send_add fuel c.write_buf n)
