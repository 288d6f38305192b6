-- ===== src/Examples/Rpc.antt =====
-- Messages and the server at concrete inputs, with a codec and a service of their own.
use xuanqiong.Base.{ℕ, ◌≡◌, refl, true, get_or, some, [], ◌∷◌, ◌++◌, arith}
use xuanqiong.Base.Words.{bytes_u32}
use xuanqiong.Util.Input.{InputBuffer, int32_max, unread}
use xuanqiong.Util.Input.Inv
use xuanqiong.Util.Output.{unsent}
use xuanqiong.Util.Output.Inv.{IsValid}
use xuanqiong.Net.Connection.{Connection}
use xuanqiong.Rpc.Codec.{Services}
use xuanqiong.Rpc.Stream.{frame}
use xuanqiong.Rpc.Server.{
  header_len, header, request_len, goes, answers, recv_step, response_header, find_target,
}
use xuanqiong.Rpc.Server
use xuanqiong.Rpc.Server.Serving.{request_lem}
use xuanqiong.Rpc.Client
use xuanqiong.Rpc.Client.{Session, Channel, Responses, handles, find, call_method}
use xuanqiong.Rpc.Client.Receiving.{stray_response_misread}
use xuanqiong.Examples.Runtime.{echo_header, codec, contract}
use xuanqiong.Examples.Data.{
  two_read, two_read-IsValid, three_unsent, three_unsent-IsValid, open_socket, connected,
}

-- A length 1 and the byte 9.
abbrev message : ℕ → ℕ
message i = get_or (1 ∷ 0 ∷ 0 ∷ 0 ∷ 9 ∷ []) i 0

abbrev arrived : InputBuffer
arrived = record two_read { read_bytes = 5; cur = record { begin = 0; end = 5; memory = message } }

arrived-IsValid : Inv.IsValid arrived
arrived-IsValid = record {
  chain = record {
    linked = omega arith;
    room = omega arith;
    started = omega arith;
    partly = omega arith;
  };
  counted = omega arith;
}

abbrev services : Services
services = record {
  find_service = λ _. some 0;
  find_method = λ _ _. some 0;
  serve = λ _ xs. some xs;
}

abbrev received : Connection
received = record connected { read_buf = arrived }

request_lem_example :
    (d : Connection) × (recv_step codec services
        (λ _. 255)
        (Server.request (echo_header 4) 0 3)
        connected
      ≡ answers d)
    × (unread d.read_buf ≡ 6 ∷ [])
    × (d.read_buf.limit ≡ int32_max)
    × Inv.IsValid d.read_buf
    × (unsent d.write_buf ≡ unsent three_unsent ++ frame (3 ∷ 4 ∷ []) (3 ∷ 4 ∷ 5 ∷ []))
    × IsValid d.write_buf
    × (d.socket ≡ open_socket)
    × (d.read_buf.cur.begin ≡ 5)
request_lem_example =
    request_lem codec services (λ _. 255) connected (6 ∷ []) two_read-IsValid (omega arith) contract
      (echo_header 4) 0 (3 ∷ 4 ∷ 5 ∷ []) (3 ∷ 4 ∷ 5 ∷ []) three_unsent-IsValid (omega arith) refl
      refl

abbrev session : Session
session = record { response = 64; done = some 128 }

abbrev responses : Responses
responses = record { accepts = λ _ _. true; after_refusal = λ _ b. b }

abbrev channel : Channel
channel = record { conn = connected; sessions = (5, session) ∷ []; next_id = 6 }

-- A response of five bytes has arrived, to a request that is not known.
abbrev stray : Channel
stray = record channel { conn = received }

stray_response_misread_example :
    (d : Channel) × (Client.recv_step codec responses (λ _. 255) (Client.response 8 5) stray
      ≡ Client.goes Client.header_len stray)
    × (Client.recv_step codec responses (λ _. 255) Client.header_len stray
        ≡ Client.goes (Client.header 1) d)
    × (unread d.conn.read_buf ≡ 9 ∷ [])
unfolding find bytes_u32
stray_response_misread_example =
    stray_response_misread codec responses (λ _. 255) stray [] arrived-IsValid (omega arith) 8 1
      (9 ∷ []) (omega arith) (omega arith) refl refl
