-- ===== src/Rpc/Client/Lifetime.antt =====
-- client/client_channel.cc: a channel over its life. Calls, rounds of `recv_fn`, and whatever else
-- happens to the connection come in any order, with any bytes.
pub mod Rounds
pub mod Once
use Prim.Native.String.{String}
use xuanqiong.Base.{
  ℕ, zero, suc, ◌+◌, ◌≤◌, ◌<◌, ◌≡◌, refl, Bool, true, false, Option, none, some, List, [], ◌∷◌, ltb,
  ◌==◌, if◌then◌else◌, arith,
}
use xuanqiong.Net.Connection.{Connection}
use xuanqiong.Rpc.Codec.{Codec}
use xuanqiong.Rpc.Client.{
  Session, Channel, Responses, with_conn, find, erase, Place, header_len, header, response_len,
  response, Outcome, waits, goes, handles, stops, fault, recv_step, call_method,
}

-- Where the receiving coroutine is, or that it has ended; the channel; the sessions that were handed a
-- response, and all that were passed to calls, each with the id of its call.
pub record Life : Type 0 where
  pub place : Option Place
  pub channel : Channel
  pub handled : List (ℕ × Session)
  pub given : List (ℕ × Session)

-- A call, a round, or a change of the connection, by the kernel or by the writing coroutine.
pub data Event : Type 0 where
  calls : String → String → List ℕ → Session → Event
  round : Event
  moves : Connection → Event

-- The id of the response that is awaited.
abbrev pub id_of : Place → ℕ
id_of header_len = 0
id_of (header n) = 0
id_of (response_len head) = 0
id_of (response id n) = id

-- `none`: a loop of a buffer does not end, or a null pointer is read.
abbrev pub after_call : Life → Session → Option Channel → Option Life
after_call l s none = none
after_call l s (some h) = some (record l { channel = h; given = (l.channel.next_id, s) ∷ l.given })

abbrev pub after_step : Life → Place → Outcome → Option Life
after_step l p waits = some l
after_step l p (goes q h) = some (record l { place = some q; channel = h })
after_step l p (handles s xs h) =
    some (record l { place = some header_len; channel = h; handled = (id_of p, s) ∷ l.handled })
after_step l p (stops h) = some (record l { place = none; channel = h })
after_step l p fault = none

module _ (codec : Codec) (messages : Responses) (stack : ℕ → ℕ) where
  unfoldable pub recv_round : Life → Option Place → Option Life
  unfolding recv_step
  recv_round l none = some l
  recv_round l (some p) = after_step l p (recv_step codec messages stack p l.channel)

  unfoldable pub act : Event → Life → Option Life
  unfolding call_method recv_round
  act (calls service name body s) l =
      after_call l s (call_method codec l.channel service name body s)
  act round l = recv_round l l.place
  act (moves c) l = some (record l { channel = with_conn l.channel c })

  abbrev pub and_then : (Life → Option Life) → Option Life → Option Life
  and_then go none = none
  and_then go (some l) = go l

  unfoldable pub live : List Event → Life → Option Life
  unfolding act
  live [] l = some l
  live (e ∷ rest) l = and_then (live rest) (act e l)

-- The table is empty, and the coroutine at the head of its loop.
abbrev pub born : Channel → Life
born h = record {
  place = some header_len;
  channel = record h { sessions = [] };
  handled = [];
  given = [];
}

-- How often an id stands among others.
unfoldable pub times : ℕ → List (ℕ × Session) → ℕ
times j [] = 0
times j ((k, s) ∷ ss) = (if j == k then 1 else 0) + times j ss

-- Each has the session that was passed with its id.
abbrev pub AllGiven : List (ℕ × Session) → List (ℕ × Session) → Type 0
AllGiven given [] = Unit {0}
AllGiven given ((k, s) ∷ ss) = (find k given ≡ some s) × AllGiven given ss
