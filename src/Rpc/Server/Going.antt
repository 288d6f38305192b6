-- ===== src/Rpc/Server/Going.antt =====
-- The state of the server's `recv_fn` within the frames of a list of requests, of which any part may
-- have arrived, and what a round is to do there.
use xuanqiong.Base.{ℕ, ◌<◌, ◌≡◌, List, [], ◌++◌}
use xuanqiong.Util.Input.{unread}
use xuanqiong.Util.Output.{unsent}
use xuanqiong.Util.Output.Inv.{IsValid}
use xuanqiong.Net.Connection.{Connection}
use xuanqiong.Rpc.Codec.{Codec, Services}
use xuanqiong.Rpc.Stream.Reading.{Reading}
use xuanqiong.Rpc.Server.{Outcome, waits, goes, answers}
use xuanqiong.Rpc.Server.Requests.{
  Asked, Spot, at_start, place, due, owed, Served, Placed, rounds_left,
}

-- The coroutine within the requests: at a spot, with `p` bytes of the stream before it, `future`
-- still to arrive, and `total` to have been put into the write buffer in the end.
pub record Going (codec : Codec) (services : Services) (future total : List ℕ) (s : Spot)
    (qs : List Asked) (p : ℕ) (c : Connection) : Type 0 where
  pub reading : Reading future (due s qs) p c
  pub placed : Placed s p qs
  pub served : Served codec services s qs
  pub writable : IsValid c.write_buf
  pub answered : unsent c.write_buf ++ owed codec s qs ≡ total

-- What a round does there.
pub data Round (codec : Codec) (services : Services) (future total : List ℕ) (s : Spot)
    (qs : List Asked) (c : Connection) : Outcome → Type 0 where
  rests :
      (future ≡ [] → (s ≡ at_start) × (qs ≡ []) × (unread c.read_buf ≡ []))
      → Round codec services future total s qs c waits
  moves :
      {d : Connection} (t : Spot) (rs : List Asked) (p : ℕ)
      → Going codec services future total t rs p d
      → rounds_left t rs < rounds_left s qs
      → Round codec services future total s qs c (goes (place t) d)
  replies :
      {d : Connection} (p : ℕ)
      → Going codec services future total at_start qs p d
      → rounds_left at_start qs < rounds_left s qs
      → Round codec services future total s qs c (answers d)
