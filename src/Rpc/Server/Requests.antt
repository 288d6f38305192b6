-- ===== src/Rpc/Server/Requests.antt =====
-- What the rounds of the server's `recv_fn` are about: a list of requests, their frames, and how far
-- one was read.
use xuanqiong.Base.{ℕ, ◌+◌, ◌-◌, ◌*◌, ◌%◌, ◌≤◌, ◌<◌, ◌≡◌, some, List, [], ◌∷◌, ◌++◌, length}
use xuanqiong.Base.Words.{bytes_u32}
use xuanqiong.Util.Block.{block_size}
use xuanqiong.Util.Input.{int32_max}
use xuanqiong.Rpc.Codec.{Codec, Services, Header, magic_num, version_num}
use xuanqiong.Rpc.Stream.{frame}
use xuanqiong.Rpc.Server.{
  Place, header_len, header, request_len, request, response_header, find_target,
}

-- A request: its header, as a message and as bytes, the method that it names, its own bytes, and
-- the response's.
pub record Asked : Type 0 where
  pub head : Header
  pub head_bytes : List ℕ
  pub method : ℕ
  pub body : List ℕ
  pub reply : List ℕ

-- The server serves it.
pub record IsServed (codec : Codec) (services : Services) (q : Asked) : Type 0 where
  pub head_short : length q.head_bytes < int32_max
  pub body_short : length q.body < int32_max
  pub parses : codec.parse_header q.head_bytes ≡ some q.head
  pub magic : q.head.magic ≡ magic_num
  pub version : q.head.version ≡ version_num
  pub found : find_target codec services q.head ≡ some q.method
  pub serves : services.serve q.method q.body ≡ some q.reply

abbrev pub AllServed : Codec → Services → List Asked → Type 0
AllServed codec services [] = Unit {0}
AllServed codec services (q ∷ qs) = IsServed codec services q × AllServed codec services qs

-- Their frames, and the frames that answer them.
unfoldable pub requests : List Asked → List ℕ
requests [] = []
requests (q ∷ qs) =
    bytes_u32 (length q.head_bytes)
    ++ (q.head_bytes ++ (bytes_u32 (length q.body) ++ (q.body ++ requests qs)))

abbrev pub response_of : Codec → Asked → List ℕ
response_of codec q = frame (codec.print_header (response_header q.head)) q.reply

unfoldable pub responses : Codec → List Asked → List ℕ
responses codec [] = []
responses codec (q ∷ qs) = response_of codec q ++ responses codec qs

-- Where the next byte is the `p`-th of the stream: no length reaches from one block into another.
abbrev pub Aligned : ℕ → List Asked → Type 0
Aligned p [] = Unit {0}
Aligned p (q ∷ qs) =
    (p % block_size ≤ block_size - 4)
    × ((p + 4 + length q.head_bytes) % block_size ≤ block_size - 4)
    × Aligned (p + 4 + length q.head_bytes + 4 + length q.body) qs

-- How far a request has been read.
pub data Spot : Type 0 where
  at_start : Spot
  in_header at_request in_request : Asked → Spot

abbrev pub place : Spot → Place
place at_start = header_len
place (in_header q) = header (length q.head_bytes)
place (at_request q) = request_len q.head
place (in_request q) = request q.head q.method (length q.body)

-- The bytes that are still to be read, where `qs` follow.
abbrev pub due : Spot → List Asked → List ℕ
due at_start qs = requests qs
due (in_header q) qs = q.head_bytes ++ (bytes_u32 (length q.body) ++ (q.body ++ requests qs))
due (at_request q) qs = bytes_u32 (length q.body) ++ (q.body ++ requests qs)
due (in_request q) qs = q.body ++ requests qs

-- The bytes that are still to be answered.
abbrev pub owed : Codec → Spot → List Asked → List ℕ
owed codec at_start qs = responses codec qs
owed codec (in_header q) qs = response_of codec q ++ responses codec qs
owed codec (at_request q) qs = response_of codec q ++ responses codec qs
owed codec (in_request q) qs = response_of codec q ++ responses codec qs

abbrev pub Served : Codec → Services → Spot → List Asked → Type 0
Served codec services at_start qs = AllServed codec services qs
Served codec services (in_header q) qs = IsServed codec services q × AllServed codec services qs
Served codec services (at_request q) qs = IsServed codec services q × AllServed codec services qs
Served codec services (in_request q) qs = IsServed codec services q × AllServed codec services qs

abbrev pub Placed : Spot → ℕ → List Asked → Type 0
Placed at_start p qs = Aligned p qs
Placed (in_header q) p qs =
    ((p + length q.head_bytes) % block_size ≤ block_size - 4)
    × Aligned (p + length q.head_bytes + 4 + length q.body) qs
Placed (at_request q) p qs = (p % block_size ≤ block_size - 4) × Aligned (p + 4 + length q.body) qs
Placed (in_request q) p qs = Aligned (p + length q.body) qs

-- How many rounds are left.
abbrev pub rounds_left : Spot → List Asked → ℕ
rounds_left at_start qs = 4 * length qs
rounds_left (in_header q) qs = 3 + 4 * length qs
rounds_left (at_request q) qs = 2 + 4 * length qs
rounds_left (in_request q) qs = 1 + 4 * length qs
