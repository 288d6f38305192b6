-- ===== src/Examples/Lifetime.antt =====
-- A call over the client's coroutine, of which the response arrives.
use xuanqiong.Base.{ℕ, ◌≡◌, ◌≤◌, ◌+◌, refl, some, List, [], ◌∷◌, ltb, get_or, if◌then◌else◌}
use xuanqiong.Base.Memory.{store}
use xuanqiong.Base.Words.{bytes_u32, read_u32}
use xuanqiong.Util.Output.{append, append_loop, append_step, ensure_room}
use xuanqiong.Util.Input
use xuanqiong.Util.Input.{InputBuffer, int32_max, fetch_uint32, fetched, push_limit, pop_limit}
use xuanqiong.Util.Output
use xuanqiong.Net.Connection.{Connection}
use xuanqiong.Rpc.Stream.{fetched_value, read_message, send_frame, send_message}
use xuanqiong.Rpc.Client.{Session, find, erase, assign, deliver, settle, recv_step, call_method}
use xuanqiong.Rpc.Client.Lifetime.{
  Life, Event, calls, round, moves, recv_round, act, live, born, times, AllGiven,
}
use xuanqiong.Rpc.Client.Lifetime.Once.{handed_once}
use xuanqiong.Examples.Runtime.{read_all, put, after, print_all}
use xuanqiong.Examples.Exchange.{codec, messages, waiting, channel, fresh}

-- The response to the call with the id 6: its header, of two bytes, and the byte 9.
abbrev bytes : ℕ → ℕ
bytes i = get_or (2 ∷ 0 ∷ 0 ∷ 0 ∷ 5 ∷ 6 ∷ 1 ∷ 0 ∷ 0 ∷ 0 ∷ 9 ∷ []) i 0

abbrev answered : Connection
answered = record fresh {
  read_buf = record {
    read_bytes = 11;
    consumed_bytes = 0;
    limit = int32_max;
    behind = [];
    cur = record { begin = 0; end = 11; memory = bytes };
    later = [];
  };
}

abbrev events : List Event
events =
    calls "Echo" "echo" (9 ∷ []) (waiting 64) ∷ moves answered ∷ round ∷ round ∷ round ∷ round ∷ []

abbrev handed : List (ℕ × Session)
handed = (6, waiting 64) ∷ []

-- It is handed out.
life :
    (l : Life) × (live codec messages (λ _. 255) events (born channel) ≡ some l)
    × (l.handled ≡ handed)
unfolding live act recv_round recv_step fetch_uint32 fetched fetched_value read_u32 read_message
    read_all after put Input.next Input.push_limit pop_limit settle deliver find erase assign
    call_method send_frame send_message append append_loop append_step Output.next Output.fill
    Output.back_up print_all Output.init Input.init bytes_u32 store
life = (_, refl, refl)

handed_once_example :
    let l = life.0 in
    ((j : ℕ)
      → times j l.channel.sessions + times j l.handled ≤ (if ltb j l.channel.next_id then 1 else 0))
    × AllGiven l.given l.handled
    × AllGiven l.given l.channel.sessions
handed_once_example = handed_once codec messages (λ _. 255) events channel life.0 life.1
