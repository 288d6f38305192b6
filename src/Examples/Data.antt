-- ===== src/Examples/Data.antt =====
-- Buffers, connections and messages that the examples share.
use xuanqiong.Base.{ℕ, ◌+◌, false, none, [], ◌∷◌, refl, arith}
use xuanqiong.Util.Block.{block_size}
use xuanqiong.Util.Input.{InputBuffer, int32_max}
use xuanqiong.Util.Input.Inv
use xuanqiong.Util.Output.{OutputBuffer}
use xuanqiong.Util.Output.Inv.{IsValid}
use xuanqiong.Net.Connection.{Connection}
use xuanqiong.Net.Socket.{Socket}

-- The bytes 1 and so on.
abbrev counting : ℕ → ℕ
counting i = i + 1

-- Two bytes consumed, the bytes 3 to 6 unread.
abbrev pub two_read : InputBuffer
two_read = record {
  read_bytes = 4;
  consumed_bytes = 2;
  limit = int32_max;
  behind = [];
  cur = record { begin = 2; end = 6; memory = counting };
  later = [];
}

pub two_read-IsValid : Inv.IsValid two_read
two_read-IsValid = record {
  chain = record {
    linked = omega arith;
    room = omega arith;
    started = omega arith;
    partly = omega arith;
  };
  counted = omega arith;
}

-- The length 1 stands in two blocks: two bytes end the first, two begin the second.
abbrev pub split : InputBuffer
split = record {
  read_bytes = 5;
  consumed_bytes = 8190;
  limit = int32_max;
  behind = [];
  cur = record { begin = 8190; end = block_size; memory = counting };
  later = record { begin = 0; end = 3; memory = counting } ∷ [];
}

pub split-IsValid : Inv.IsValid split
split-IsValid = record {
  chain = record {
    linked = (refl, refl, omega arith);
    room = omega arith;
    started = omega arith;
    partly = omega arith;
  };
  counted = omega arith;
}

-- Three bytes unsent.
abbrev pub three_unsent : OutputBuffer
three_unsent = record {
  to_write_bytes = 3;
  total_bytes = 4;
  cur = record { begin = 1; end = 4; memory = counting };
  later = [];
}

pub three_unsent-IsValid : IsValid three_unsent
three_unsent-IsValid = record {
  chain = record { linked = omega arith; started = omega arith; partly = omega arith };
  counted = omega arith;
}

abbrev pub open_socket : Socket
open_socket = record {
  sockfd = 7;
  local_addr = "127.0.0.1";
  local_port = 8080;
  peer_addr = "127.0.0.1";
  peer_port = 40000;
  closed = false;
}

abbrev pub connected : Connection
connected = record {
  is_dummy = false;
  read_buf = two_read;
  write_buf = three_unsent;
  read_handle = none;
  write_handle = none;
  socket = open_socket;
}
