-- ===== src/Rpc/Server.antt =====
-- server/rpc_server.h and server/rpc_server.cc: the coroutine that receives, one per connection, as
-- a machine whose states are the places where it may wait for bytes.
pub mod Serving
pub mod Loop
pub mod Requests
pub mod Going
pub mod Rounds
pub mod Stop
pub mod Session
pub mod Start
use xuanqiong.Base.{
  ℕ, ◌+◌, ◌≡◌, Bool, true, false, not, ◌&&◌, Option, none, some, List, [], ◌∷◌, ltb, ◌==◌,
  if◌then◌else◌,
}
use xuanqiong.Util.Input.{InputBuffer, Copy, fetch_uint32, pop_limit}
use xuanqiong.Util.Output.{OutputBuffer}
use xuanqiong.Net.Connection.{Connection, closed, read_bytes}
use xuanqiong.Net.Connection
use xuanqiong.Rpc.Codec.{Codec, Services, Header, magic_num, version_num, response}
use xuanqiong.Rpc.Stream.{fetched_value, read_message, send_frame}

-- Which bytes the coroutine waits for.
pub data Place : Type 0 where
  header_len : Place
  header : ℕ → Place
  request_len : Header → Place
  -- the request of a method, of a length
  request : Header → ℕ → ℕ → Place

-- A round: wait for more bytes, go on, go on having written a response and resumed the writing
-- coroutine, or leave the loop, which closes the connection. `fault`: a null pointer is read, or a
-- loop of a buffer does not end.
pub data Outcome : Type 0 where
  waits : Outcome
  goes : Place → Connection → Outcome
  answers : Connection → Outcome
  stops : Connection → Outcome
  fault : Outcome

-- `break`, and what follows the loop.
unfoldable pub leave : Connection → Outcome
unfolding Connection.close
leave c = stops (if closed c then c else Connection.close c)

-- `while (read_bytes < n && !closed) wait; if (closed && read_bytes < n) break;`
abbrev gate : ℕ → Connection → Outcome → Outcome
gate n c k = if ltb (read_bytes c) n then (if closed c then leave c else waits) else k

-- What is done with the result of `fetch_uint32`, for a variable whose memory is `stack`.
abbrev with_u32 :
    (ℕ → ℕ)
    → Connection
    → Option (Bool × List Copy × InputBuffer)
    → (ℕ → Connection → Outcome)
    → Outcome
with_u32 stack c none k = fault
with_u32 stack c (some (false, copies, b)) k = leave (record c { read_buf = b })
with_u32 stack c (some (true, copies, b)) k =
    k (fetched_value stack copies) (record c { read_buf = b })

-- What is done with a message read; the limit is still set then.
abbrev with_message :
    Connection → Option (List ℕ × InputBuffer) → (List ℕ → Connection → Outcome) → Outcome
with_message c none k = fault
with_message c (some (xs, b)) k = k xs (record c { read_buf = b })

-- The end of an answer, once the response was written.
abbrev with_sent : Connection → Option OutputBuffer → Outcome
with_sent c none = fault
with_sent c (some w) = answers (record c { write_buf = w })

abbrev unlimited : Connection → Connection
unlimited c = record c { read_buf = pop_limit c.read_buf }

-- The header of a response.
abbrev pub response_header : Header → Header
response_header h = record {
  magic = magic_num;
  version = version_num;
  message_type = response;
  request_id = h.request_id;
  service_name = "";
  method_name = "";
}

module _ (codec : Codec) (services : Services) where
  open codec use {parse_header, print_header}
  open services use {find_service, find_method, serve}

  -- The checks of a parsed header.
  unfoldable pub check_header : Option Header → Connection → Outcome
  unfolding leave
  check_header none c = leave c
  check_header (some h) c =
      if not (h.magic == magic_num)
      then leave (unlimited c)
      else if not (h.version == version_num)
      then leave (unlimited c)
      else goes (request_len h) (unlimited c)

  -- The service and the method that a header names.
  unfoldable pub find_target : Header → Option ℕ
  find_target h = elim (find_service h.service_name) [
    | none ↦ none
    | some s ↦ find_method s h.method_name
  ]

  unfoldable pub dispatch : Header → ℕ → Connection → Option ℕ → Outcome
  unfolding leave
  dispatch h len c none = leave c
  dispatch h len c (some m) = goes (request h m len) c

  -- `none`: the request did not parse.
  unfoldable pub respond : Header → Connection → Option (List ℕ) → Outcome
  unfolding leave
  respond h c none = leave c
  respond h c (some body) =
      let c' = unlimited c in
      with_sent c' (send_frame codec c'.write_buf (print_header (response_header h)) body)

  -- A round of `recv_fn` at a place.
  unfoldable pub recv_step : (ℕ → ℕ) → Place → Connection → Outcome
  unfolding leave
  recv_step stack header_len c =
      gate 4 c (with_u32 stack c (fetch_uint32 c.read_buf) (λ n d. goes (header n) d))
  recv_step stack (header n) c =
      gate n c (
        with_message c (read_message codec c.read_buf n) (λ xs d. check_header (parse_header xs) d))
  recv_step stack (request_len h) c =
      gate 4 c (with_u32 stack c (fetch_uint32 c.read_buf) (λ n d. dispatch h n d (find_target h)))
  recv_step stack (request h m n) c =
      if ltb (read_bytes c) n
      then waits
      else with_message c (read_message codec c.read_buf n) (λ xs d. respond h d (serve m xs))
