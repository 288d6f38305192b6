-- ===== src/Rpc/Exchange.antt =====
-- Both ends together: calls on a channel one after another, what they ask of a server, and the
-- replies that are due to them.
pub mod Table
pub mod Calls
pub mod Answered
use Prim.Native.String.{String}
use xuanqiong.Base.{ℕ, suc, ◌<◌, ◌≡◌, true, Option, none, some, List, [], ◌∷◌, length}
use xuanqiong.Util.Input.{int32_max}
use xuanqiong.Rpc.Codec.{Codec, Services}
use xuanqiong.Rpc.Server.{response_header, find_target}
use xuanqiong.Rpc.Server.Requests.{Asked}
use xuanqiong.Rpc.Client.{Session, Channel, Responses, request_header, call_method}
use xuanqiong.Rpc.Client.Replies.{Reply}

-- A call: what the caller passes, the method that it means, and the bytes that this makes of the
-- request.
pub record Call : Type 0 where
  pub service : String
  pub name : String
  pub body : List ℕ
  pub session : Session
  pub method : ℕ
  pub reply : List ℕ

-- The calls, one after another; `none`: one of them does not return.
abbrev pub after_call : (Channel → Option Channel) → Option Channel → Option Channel
after_call go none = none
after_call go (some h) = go h

unfoldable pub call_all : Codec → Channel → List Call → Option Channel
unfolding call_method
call_all codec h [] = some h
call_all codec h (c ∷ cs) =
    after_call (λ d. call_all codec d cs) (call_method codec h c.service c.name c.body c.session)

module _ (codec : Codec) where
  -- The request of a call with an id, and the response to it.
  abbrev pub asked : ℕ → Call → Asked
  asked id c = record {
    head = request_header id c.service c.name;
    head_bytes = codec.print_header (request_header id c.service c.name);
    method = c.method;
    body = c.body;
    reply = c.reply;
  }

  abbrev pub replied : ℕ → Call → Reply
  replied id c =
      let head = response_header (request_header id c.service c.name) in
      record {
        head = head;
        head_bytes = codec.print_header head;
        body = c.reply;
        session = c.session;
      }

  -- Those of calls with ids from `id` on.
  unfoldable pub all_asked : ℕ → List Call → List Asked
  all_asked id [] = []
  all_asked id (c ∷ cs) = asked id c ∷ all_asked (suc id) cs

  unfoldable pub all_replied : ℕ → List Call → List Reply
  all_replied id [] = []
  all_replied id (c ∷ cs) = replied id c ∷ all_replied (suc id) cs

  module _ (services : Services) (messages : Responses) where
    -- The server has the method and it replies; the messages are short, both headers are parsed
    -- to what was printed, and the caller's response message takes the reply.
    pub record IsCall (id : ℕ) (c : Call) : Type 0 where
      pub found : find_target codec services (request_header id c.service c.name) ≡ some c.method
      pub serves : services.serve c.method c.body ≡ some c.reply
      pub accepts : messages.accepts c.session.response c.reply ≡ true
      pub body_short : length c.body < int32_max
      pub reply_short : length c.reply < int32_max
      pub head_short : length (asked id c).head_bytes < int32_max
      pub back_short : length (replied id c).head_bytes < int32_max
      pub parses : codec.parse_header (asked id c).head_bytes ≡ some (asked id c).head
      pub back_parses : codec.parse_header (replied id c).head_bytes ≡ some (replied id c).head

    abbrev pub AllCalls : ℕ → List Call → Type 0
    AllCalls id [] = Unit {0}
    AllCalls id (c ∷ cs) = IsCall id c × AllCalls (suc id) cs

-- What is to be handed to the callers.
unfoldable pub replies : List Call → List (Session × List ℕ)
replies [] = []
replies (c ∷ cs) = (c.session, c.reply) ∷ replies cs
