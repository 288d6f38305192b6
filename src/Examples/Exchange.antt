-- ===== src/Examples/Exchange.antt =====
-- The client's coroutine over one response, and two calls through both ends.
use xuanqiong.Base.{
  ◌≡◌, refl, true, false, none, some, Option, List, [], ◌∷◌, ◌++◌, ◌==◌, length, ℕ, replicate,
  if◌then◌else◌, arith,
}
use xuanqiong.Base.Words.{bytes_u32}
use xuanqiong.Util.Input.{unread}
use xuanqiong.Util.Input
use xuanqiong.Util.Input.Inv
use xuanqiong.Util.Output.{unsent}
use xuanqiong.Util.Output
use xuanqiong.Util.Output.Inv.{init-IsValid}
use xuanqiong.Net.Connection.{Connection, closed}
use xuanqiong.Rpc.Codec.{Codec, Header, request, response, unspecified}
use xuanqiong.Rpc.Codec.Contract.{Contract}
use xuanqiong.Rpc.Server
use xuanqiong.Rpc.Server.{response_header, find_target}
use xuanqiong.Rpc.Server.Loop
use xuanqiong.Rpc.Server.Requests.{requests}
use xuanqiong.Rpc.Server.Requests
use xuanqiong.Rpc.Client.{
  Session, Channel, Responses, with_conn, header_len, find, erase, request_header,
}
use xuanqiong.Rpc.Client.Loop.{paused, recv_fn}
use xuanqiong.Rpc.Client.Replies.{Reply, AllReplies, Aligned, Pending, settled, frames, deliveries}
use xuanqiong.Rpc.Client.Handling.{responses_handled}
use xuanqiong.Rpc.Exchange.{Call, call_all, all_asked, all_replied, AllCalls, replies}
use xuanqiong.Rpc.Exchange.Answered.{IsIdle, calls_answered}
use xuanqiong.Examples.Runtime
use xuanqiong.Examples.Data.{connected}
use xuanqiong.Examples.Session.{services, idle, idle-IsWriter, replicate-Positive}

-- A header is its type and its id; requests go to one service.
abbrev pub print : Header → List ℕ
print h = elim (h.message_type) [
  | unspecified ↦ []
  | request ↦ 3 ∷ h.request_id ∷ []
  | response ↦ 5 ∷ h.request_id ∷ []
]

abbrev pub parse : List ℕ → Option Header
parse (t ∷ n ∷ []) =
    let h = request_header n "Echo" "echo" in
    if t == 3 then some h else if t == 5 then some (response_header h) else none
parse _ = none

abbrev pub codec : Codec
codec = record Runtime.codec { parse_header = parse; print_header = print }

contract : Contract codec
contract = record { reads = Runtime.contract.reads; writes = Runtime.contract.writes }

abbrev pub messages : Responses
messages = record { accepts = λ _ _. true; after_refusal = λ _ b. b }

abbrev pub fresh : Connection
fresh = record connected { read_buf = Input.init; write_buf = Output.init }

abbrev pub waiting : ℕ → Session
waiting n = record { response = n; done = some 128 }

abbrev pub channel : Channel
channel = record { conn = fresh; sessions = []; next_id = 6 }

-- One session waits, and its response is there.
abbrev asking : Channel
asking = record channel { sessions = (6, waiting 64) ∷ []; next_id = 7 }

abbrev due : List Reply
due =
    record {
      head = response_header (request_header 6 "Echo" "echo");
      head_bytes = 5 ∷ 6 ∷ [];
      body = 9 ∷ [];
      session = waiting 64;
    }
    ∷ []

due-AllReplies : AllReplies codec messages due
due-AllReplies = (
  record { head_short = omega arith; body_short = omega arith; parses = refl; accepts = refl },
  record {},
)

due-Pending : Pending due asking.sessions
unfolding find erase
due-Pending = (refl, record {})

due-Aligned : Aligned asking.conn.read_buf.cur.begin due
unfolding Input.init
due-Aligned = (omega arith, omega arith, record {})

responses_handled_example :
    (d : Channel) × (recv_fn codec messages
        (λ _. 255)
        5
        (replicate 11 5)
        (frames due)
        header_len
        asking
        []
      ≡ some (paused header_len d (deliveries due)))
    × (d.sessions ≡ settled due asking.sessions)
    × (d.next_id ≡ 7)
    × (unread d.conn.read_buf ≡ [])
    × Inv.IsValid d.conn.read_buf
    × (d.conn.write_buf ≡ Output.init)
    × (closed d.conn ≡ false)
unfolding Input.init frames bytes_u32
responses_handled_example =
    responses_handled codec messages (λ _. 255) contract 5 (replicate 11 5) (frames due) due asking
      Inv.init-IsValid refl due-AllReplies due-Pending due-Aligned refl (omega arith)
      (replicate-Positive 11) (omega arith) (omega arith)

abbrev call : ℕ → List ℕ → Call
call n xs = record {
  service = "Echo";
  name = "echo";
  body = xs;
  session = waiting n;
  method = 0;
  reply = xs;
}

abbrev calls : List Call
calls = call 64 (9 ∷ []) ∷ call 65 [] ∷ []

calls-AllCalls : AllCalls codec services messages 6 calls
unfolding find_target
calls-AllCalls = (
  record {
    found = refl;
    serves = refl;
    accepts = refl;
    body_short = omega arith;
    reply_short = omega arith;
    head_short = omega arith;
    back_short = omega arith;
    parses = refl;
    back_parses = refl;
  },
  (
    record {
      found = refl;
      serves = refl;
      accepts = refl;
      body_short = omega arith;
      reply_short = omega arith;
      head_short = omega arith;
      back_short = omega arith;
      parses = refl;
      back_parses = refl;
    },
    record {},
  ),
)

fresh-IsIdle : IsIdle fresh
unfolding Input.init Output.init
fresh-IsIdle = record {
  readable = Inv.init-IsValid;
  writable = init-IsValid;
  opened = refl;
  nothing_unread = refl;
  nothing_unsent = refl;
}

length-asked : length (requests (all_asked codec 6 calls)) ≡ 21
unfolding requests all_asked bytes_u32
length-asked = refl

length-replied : length (frames (all_replied codec 6 calls)) ≡ 21
unfolding frames all_replied bytes_u32
length-replied = refl

asked-Aligned : Requests.Aligned fresh.read_buf.cur.begin (all_asked codec 6 calls)
unfolding Input.init all_asked
asked-Aligned = (omega arith, omega arith, (omega arith, omega arith, record {}))

replied-Aligned : Aligned fresh.read_buf.cur.begin (all_replied codec 6 calls)
unfolding Input.init all_replied
replied-Aligned = (omega arith, omega arith, (omega arith, omega arith, record {}))

calls_answered_example :
    (d : Channel) × (c : Connection) × (out : List ℕ) × (e : Channel) × (call_all codec channel
        calls
      ≡ some d)
    × (Loop.recv_fn codec services idle
          (λ _. 255)
          9
          (replicate 21 5)
          (unsent d.conn.write_buf)
          Server.header_len
          fresh
          []
        ≡ some (Loop.paused Server.header_len c out))
    × (recv_fn codec messages
          (λ _. 255)
          9
          (replicate 21 5)
          (out ++ unsent c.write_buf)
          header_len
          (with_conn d (record d.conn { write_buf = Output.init }))
          []
        ≡ some (paused header_len e (replies calls)))
    × (e.sessions ≡ [])
    × (unread c.read_buf ≡ [])
    × (unread e.conn.read_buf ≡ [])
    × (closed c ≡ false)
    × (closed e.conn ≡ false)
calls_answered_example =
    calls_answered codec services messages (λ _. 255) idle contract idle-IsWriter calls channel
      fresh 9 (replicate 21 5) (replicate 21 5) Output.init fresh-IsIdle fresh-IsIdle (record {})
      calls-AllCalls asked-Aligned replied-Aligned (omega (arith, length-asked))
      (omega (arith, length-replied)) (replicate-Positive 21, omega (arith, length-asked))
      (replicate-Positive 21, omega (arith, length-replied)) (omega arith)
