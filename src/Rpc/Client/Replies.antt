-- ===== src/Rpc/Client/Replies.antt =====
-- What the rounds of the client's `recv_fn` are about: a list of responses, their frames, the sessions
-- that wait for them, and how far one was read.
use xuanqiong.Base.{ℕ, ◌+◌, ◌-◌, ◌*◌, ◌%◌, ◌≤◌, ◌<◌, ◌≡◌, true, some, List, [], ◌∷◌, ◌++◌, length}
use xuanqiong.Base.Words.{bytes_u32}
use xuanqiong.Util.Block.{block_size}
use xuanqiong.Util.Input.{int32_max}
use xuanqiong.Rpc.Codec.{Codec, Header}
use xuanqiong.Rpc.Stream.Reading.{Reading}
use xuanqiong.Rpc.Client.{
  Session, Channel, Responses, find, erase, Place, header_len, header, response_len, response,
  Outcome, waits, goes, handles,
}

-- A response: its header, as a message and as bytes, its own bytes, and the session of its id.
pub record Reply : Type 0 where
  pub head : Header
  pub head_bytes : List ℕ
  pub body : List ℕ
  pub session : Session

-- It can be read.
pub record IsReply (codec : Codec) (responses : Responses) (q : Reply) : Type 0 where
  pub head_short : length q.head_bytes < int32_max
  pub body_short : length q.body < int32_max
  pub parses : codec.parse_header q.head_bytes ≡ some q.head
  pub accepts : responses.accepts q.session.response q.body ≡ true

abbrev pub AllReplies : Codec → Responses → List Reply → Type 0
AllReplies codec responses [] = Unit {0}
AllReplies codec responses (q ∷ qs) = IsReply codec responses q × AllReplies codec responses qs

-- Each finds its session, once those before it were settled; and the table when all were.
abbrev pub Pending : List Reply → List (ℕ × Session) → Type 0
Pending [] ss = Unit {0}
Pending (q ∷ qs) ss =
    (find q.head.request_id ss ≡ some q.session) × Pending qs (erase q.head.request_id ss)

unfoldable pub settled : List Reply → List (ℕ × Session) → List (ℕ × Session)
settled [] ss = ss
settled (q ∷ qs) ss = settled qs (erase q.head.request_id ss)

-- What is to be handed to the sessions.
unfoldable pub deliveries : List Reply → List (Session × List ℕ)
deliveries [] = []
deliveries (q ∷ qs) = (q.session, q.body) ∷ deliveries qs

-- Their frames.
unfoldable pub frames : List Reply → List ℕ
frames [] = []
frames (q ∷ qs) =
    bytes_u32 (length q.head_bytes)
    ++ (q.head_bytes ++ (bytes_u32 (length q.body) ++ (q.body ++ frames qs)))

-- Where the next byte is the `p`-th of the stream: no length reaches from one block into another.
abbrev pub Aligned : ℕ → List Reply → Type 0
Aligned p [] = Unit {0}
Aligned p (q ∷ qs) =
    (p % block_size ≤ block_size - 4)
    × ((p + 4 + length q.head_bytes) % block_size ≤ block_size - 4)
    × Aligned (p + 4 + length q.head_bytes + 4 + length q.body) qs

-- How far a response has been read, and the response.
pub data Spot : Type 0 where
  at_start : Spot
  in_header at_response in_response : Reply → Spot

abbrev pub place : Spot → Place
place at_start = header_len
place (in_header q) = header (length q.head_bytes)
place (at_response q) = response_len q.head
place (in_response q) = response q.head.request_id (length q.body)

-- The responses that are not yet handled, where `qs` follow.
abbrev pub open_replies : Spot → List Reply → List Reply
open_replies at_start qs = qs
open_replies (in_header q) qs = q ∷ qs
open_replies (at_response q) qs = q ∷ qs
open_replies (in_response q) qs = q ∷ qs

-- The bytes that are still to be read.
abbrev pub due : Spot → List Reply → List ℕ
due at_start qs = frames qs
due (in_header q) qs = q.head_bytes ++ (bytes_u32 (length q.body) ++ (q.body ++ frames qs))
due (at_response q) qs = bytes_u32 (length q.body) ++ (q.body ++ frames qs)
due (in_response q) qs = q.body ++ frames qs

abbrev pub Placed : Spot → ℕ → List Reply → Type 0
Placed at_start p qs = Aligned p qs
Placed (in_header q) p qs =
    ((p + length q.head_bytes) % block_size ≤ block_size - 4)
    × Aligned (p + length q.head_bytes + 4 + length q.body) qs
Placed (at_response q) p qs = (p % block_size ≤ block_size - 4) × Aligned (p + 4 + length q.body) qs
Placed (in_response q) p qs = Aligned (p + length q.body) qs

-- How many rounds are left.
abbrev pub rounds_left : Spot → List Reply → ℕ
rounds_left at_start qs = 4 * length qs
rounds_left (in_header q) qs = 3 + 4 * length qs
rounds_left (at_response q) qs = 2 + 4 * length qs
rounds_left (in_response q) qs = 1 + 4 * length qs

-- The coroutine within the responses, with `p` bytes of the stream before it and `future` still to
-- arrive, on a channel that was `h` before; `table` is what the sessions are to be in the end.
pub record Going (codec : Codec) (responses : Responses) (h : Channel) (table : List (ℕ × Session))
    (future : List ℕ) (s : Spot) (qs : List Reply) (p : ℕ) (d : Channel) : Type 0 where
  pub reading : Reading future (due s qs) p d.conn
  pub placed : Placed s p qs
  pub readable : AllReplies codec responses (open_replies s qs)
  pub pending : Pending (open_replies s qs) d.sessions
  pub ends : settled (open_replies s qs) d.sessions ≡ table
  pub next : d.next_id ≡ h.next_id
  pub unwritten : d.conn.write_buf ≡ h.conn.write_buf

-- What a round does there.
pub data Round (codec : Codec) (responses : Responses) (h : Channel) (table : List (ℕ × Session))
    (future : List ℕ) (s : Spot) (qs : List Reply) (d : Channel) : Outcome → Type 0 where
  rests :
      (future ≡ [] → (s ≡ at_start) × (qs ≡ [])) → Round codec responses h table future s qs d waits
  moves :
      {e : Channel} (t : Spot) (rs : List Reply) (p : ℕ)
      → Going codec responses h table future t rs p e
      → rounds_left t rs < rounds_left s qs
      → deliveries (open_replies t rs) ≡ deliveries (open_replies s qs)
      → Round codec responses h table future s qs d (goes (place t) e)
  settles :
      {e : Channel} (q : Reply) (p : ℕ)
      → Going codec responses h table future at_start qs p e
      → rounds_left at_start qs < rounds_left s qs
      → deliveries (open_replies s qs) ≡ (q.session, q.body) ∷ deliveries qs
      → Round codec responses h table future s qs d (handles q.session q.body e)
