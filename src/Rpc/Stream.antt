-- ===== src/Rpc/Stream.antt =====
-- How both ends use the streams of a connection: a length, a message under a limit, and a message
-- behind its length.
pub mod Laws
pub mod Reading
use xuanqiong.Base.{
  ℕ, zero, suc, ◌+◌, ◌-◌, ◌*◌, Bool, true, false, Option, none, some, List, [], ◌∷◌, ◌++◌, length,
  take, drop, leb, if◌then◌else◌,
}
use xuanqiong.Base.Memory.{slice}
use xuanqiong.Base.Words.{read_u32, bytes_u32}
use xuanqiong.Util.Input.{InputBuffer, Copy, fetch_uint32, push_limit}
use xuanqiong.Util.Input.Fetch.{copied}
use xuanqiong.Util.Output.{OutputBuffer, append}
use xuanqiong.Rpc.Codec.{Codec}

-- The value of a `uint32_t` variable after the copies into it; `stack` is the memory from it on.
unfoldable pub fetched_value : (ℕ → ℕ) → List Copy → ℕ
fetched_value stack copies = read_u32 (slice (copied stack copies) 0 4)

-- `push_limit`, and a parser that succeeds: the bytes that it reads, and the buffer then.
unfoldable pub read_message : Codec → InputBuffer → ℕ → Option (List ℕ × InputBuffer)
unfolding push_limit
read_message codec b n = codec.read_stream (push_limit b n)

infixl 5 ◌>>=◌
abbrev ◌>>=◌ : {A B : Type 0} → Option A → (A → Option B) → Option B
none >>= f = none
some a >>= f = f a

-- The length of a message by `append`, and the message.
unfoldable pub send_message : Codec → OutputBuffer → List ℕ → Option OutputBuffer
unfolding append bytes_u32
send_message codec b xs = do b' ← append b (bytes_u32 (length xs)); codec.write_stream b' xs

-- A header and a body, each behind its length.
unfoldable pub send_frame : Codec → OutputBuffer → List ℕ → List ℕ → Option OutputBuffer
unfolding send_message
send_frame codec b header body = do b' ← send_message codec b header; send_message codec b' body

-- The bytes of that.
unfoldable pub frame : List ℕ → List ℕ → List ℕ
frame header body = bytes_u32 (length header) ++ header ++ bytes_u32 (length body) ++ body
