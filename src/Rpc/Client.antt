-- ===== src/Rpc/Client.antt =====
-- client/client_channel.h and client/client_channel.cc: a channel's calls, and the coroutine that
-- receives their responses, as a machine whose states are the places where it may wait for bytes.
-- A message and a closure of the caller are named by their addresses.
pub mod Sessions
pub mod Receiving
pub mod Loop
pub mod Replies
pub mod Rounds
pub mod Handling
pub mod Lifetime
use Prim.Native.String.{String}
use xuanqiong.Base.{
  ℕ, zero, suc, ◌≡◌, Bool, true, false, not, ◌&&◌, Option, none, some, List, [], ◌∷◌, ltb, ◌==◌,
  if◌then◌else◌,
}
use xuanqiong.Util.Input.{InputBuffer, Copy, fetch_uint32, push_limit, pop_limit}
use xuanqiong.Util.Output.{OutputBuffer}
use xuanqiong.Net.Connection.{Connection, closed, read_bytes}
use xuanqiong.Net.Connection
use xuanqiong.Rpc.Codec.{Codec, Header, magic_num, version_num, request}
use xuanqiong.Rpc.Stream.{fetched_value, read_message, send_frame}

-- `Session`: the response to fill in, and the closure to run, if any.
pub record Session : Type 0 where
  pub response : ℕ
  pub done : Option ℕ

-- `ClientChannel`; `id2session_` is an association list with no key twice.
pub record Channel : Type 0 where
  pub conn : Connection
  pub sessions : List (ℕ × Session)
  pub next_id : ℕ

-- `find` and `erase` of `id2session_`, and an assignment to `id2session_[i]`.
unfoldable pub find : ℕ → List (ℕ × Session) → Option Session
find i [] = none
find i ((k, s) ∷ ss) = let rest = find i ss in if k == i then some s else rest

unfoldable pub erase : ℕ → List (ℕ × Session) → List (ℕ × Session)
erase i [] = []
erase i ((k, s) ∷ ss) = let rest = erase i ss in if k == i then rest else (k, s) ∷ rest

unfoldable pub assign : ℕ → Session → List (ℕ × Session) → List (ℕ × Session)
unfolding erase
assign i s ss = (i, s) ∷ erase i ss

-- Which bytes the receiving coroutine waits for.
pub data Place : Type 0 where
  header_len : Place
  header : ℕ → Place
  response_len : Header → Place
  -- the response of a request, of a length
  response : ℕ → ℕ → Place

-- A round: wait for more bytes, go on, go on with a session's response filled in from bytes and its
-- closure run, or the response deleted where there is none, or leave the loop, which closes the
-- connection. `fault`: a null pointer is read, or a loop of a buffer does not end.
pub data Outcome : Type 0 where
  waits : Outcome
  goes : Place → Channel → Outcome
  handles : Session → List ℕ → Channel → Outcome
  stops : Channel → Outcome
  fault : Outcome

-- The caller's response messages: whether the one at an address takes the bytes, which it then has
-- read to the end of the stream, and what a refusal leaves of the read buffer.
pub record Responses : Type 0 where
  pub accepts : ℕ → List ℕ → Bool
  pub after_refusal : ℕ → InputBuffer → InputBuffer

abbrev pub with_conn : Channel → Connection → Channel
with_conn h c = record h { conn = c }

abbrev with_input : Channel → InputBuffer → Channel
with_input h b = record h { conn = record h.conn { read_buf = b } }

-- `break`, and what follows the loop.
unfoldable pub leave : Channel → Outcome
unfolding Connection.close
leave h = stops (if closed h.conn then h else with_conn h (Connection.close h.conn))

-- `while (read_bytes < n && !closed) wait; if (closed && read_bytes < n) break;`
abbrev pub gate : ℕ → Channel → Outcome → Outcome
gate n h k = if ltb (read_bytes h.conn) n then (if closed h.conn then leave h else waits) else k

-- The two lengths: a failure leaves the loop at a header's, and starts it again at a response's.
abbrev pub with_u32 :
    (ℕ → ℕ)
    → Channel
    → (Channel → Outcome)
    → (ℕ → Channel → Outcome)
    → Option (Bool × List Copy × InputBuffer)
    → Outcome
with_u32 stack h failed k none = fault
with_u32 stack h failed k (some (false, copies, b)) = failed (with_input h b)
with_u32 stack h failed k (some (true, copies, b)) = k (fetched_value stack copies) (with_input h b)

abbrev pub with_header : Codec → Channel → Option (List ℕ × InputBuffer) → Outcome
with_header codec h none = fault
with_header codec h (some (xs, b)) = elim (codec.parse_header xs) [
  | none ↦ leave (with_input h b)
  | some head ↦ goes (response_len head) (with_input h (pop_limit b))
]

-- What is done with a response's bytes, the session being off the table.
unfoldable pub deliver :
    Responses → Channel → Session → InputBuffer → Option (List ℕ × InputBuffer) → Outcome
deliver responses h s limited none = fault
deliver responses h s limited (some (xs, b)) =
    if responses.accepts s.response xs
    then handles s xs (with_input h (pop_limit b))
    else goes header_len (with_input h (responses.after_refusal s.response limited))

-- The session of a response's id, looked up.
unfoldable pub settle : Codec → Responses → Channel → ℕ → ℕ → Option Session → Outcome
unfolding deliver erase push_limit
settle codec responses h id n none = goes header_len h
settle codec responses h id n (some s) =
    deliver responses (record h { sessions = erase id h.sessions }) s (push_limit h.conn.read_buf n)
      (read_message codec h.conn.read_buf n)

-- A round of `recv_fn` at a place.
unfoldable pub recv_step : Codec → Responses → (ℕ → ℕ) → Place → Channel → Outcome
unfolding leave settle find
recv_step codec responses stack header_len h =
    gate 4 h (
      with_u32 stack h (λ h'. leave h') (λ n h'. goes (header n) h') (fetch_uint32 h.conn.read_buf))
recv_step codec responses stack (header n) h =
    gate n h (with_header codec h (read_message codec h.conn.read_buf n))
recv_step codec responses stack (response_len head) h = gate 4 h (
    with_u32 stack h (λ h'. goes header_len h') (λ n h'. goes (response head.request_id n) h')
      (fetch_uint32 h.conn.read_buf))
recv_step codec responses stack (response id n) h =
    gate n h (settle codec responses h id n (find id h.sessions))

-- The header of a call.
abbrev pub request_header : ℕ → String → String → Header
request_header id service method = record {
  magic = magic_num;
  version = version_num;
  message_type = request;
  request_id = id;
  service_name = service;
  method_name = method;
}

-- The end of a call, once the request was written.
abbrev pub called : Channel → Session → Option OutputBuffer → Option Channel
called h s none = none
called h s (some w) = some (record h {
  conn = record h.conn { write_buf = w };
  sessions = assign h.next_id s h.sessions;
  next_id = suc h.next_id;
})

-- `send_request` of `CallMethod`, run by the executor, for a request of the bytes `body`; the
-- writing coroutine is resumed at its end. `none`: a loop of the buffer does not end.
unfoldable pub call_method : Codec → Channel → String → String → List ℕ → Session → Option Channel
unfolding assign
call_method codec h service method body s = called h s (
    send_frame codec h.conn.write_buf (codec.print_header (request_header h.next_id service method))
      body)
