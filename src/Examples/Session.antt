-- ===== src/Examples/Session.antt =====
-- The server's coroutine over two requests of which the bytes come five at a time.
use xuanqiong.Base.{
  ◌≡◌, refl, sym, ap, false, some, List, [], ◌∷◌, ◌++◌, length, ℕ, zero, suc, replicate, arith,
}
use xuanqiong.Base.Words.{bytes_u32}
use xuanqiong.Util.Input.{unread}
use xuanqiong.Util.Input
use xuanqiong.Util.Input.Inv
use xuanqiong.Util.Output.{unsent}
use xuanqiong.Util.Output.Inv.{IsValid}
use xuanqiong.Net.Connection.{Connection, closed}
use xuanqiong.Rpc.Server.{header_len, find_target}
use xuanqiong.Rpc.Server.Requests.{Asked, AllServed, Aligned, requests, responses}
use xuanqiong.Rpc.Server.Loop.{paused, recv_fn}
use xuanqiong.Rpc.Server.Stop.{IsWriter}
use xuanqiong.Net.Poll.Kernel.{Positive}
use xuanqiong.Rpc.Server.Session.{requests_answered}
use xuanqiong.Examples.Runtime.{echo_header, codec, contract}
use xuanqiong.Examples.Data.{three_unsent-IsValid, connected}
use xuanqiong.Rpc.Codec.{Services}

abbrev pub services : Services
services = record {
  find_service = λ _. some 0;
  find_method = λ _ _. some 0;
  serve = λ _ xs. some xs;
}

abbrev fresh : Connection
fresh = record connected { read_buf = Input.init }

-- A request to echo bytes.
abbrev echo : ℕ → List ℕ → Asked
echo id xs = record {
  head = echo_header id;
  head_bytes = 3 ∷ id ∷ [];
  method = 0;
  body = xs;
  reply = xs;
}

abbrev asked : List Asked
asked = echo 4 (7 ∷ []) ∷ echo 5 [] ∷ []

abbrev arriving : List ℕ
arriving = 2 ∷ 0 ∷ 0 ∷ 0 ∷ 3 ∷ 4 ∷ 1 ∷ 0 ∷ 0 ∷ 0 ∷ 7 ∷ 2 ∷ 0 ∷ 0 ∷ 0 ∷ 3 ∷ 5 ∷ 0 ∷ 0 ∷ 0 ∷ 0 ∷ []

abbrev fives : List ℕ
fives = replicate 21 5

-- No writing coroutine waits.
abbrev pub idle : Connection → Connection × List ℕ
idle c = (c, [])

pub idle-IsWriter : IsWriter idle
idle-IsWriter = record {
  keeps = λ c. refl;
  stays = λ c. refl;
  sends = λ c v. refl;
  valid = λ c v. v;
}

asked-AllServed : AllServed codec services asked
unfolding find_target
asked-AllServed = (
  record {
    head_short = omega arith;
    body_short = omega arith;
    parses = refl;
    magic = refl;
    version = refl;
    found = refl;
    serves = refl;
  },
  (
    record {
      head_short = omega arith;
      body_short = omega arith;
      parses = refl;
      magic = refl;
      version = refl;
      found = refl;
      serves = refl;
    },
    record {},
  ),
)

requests-asked : requests asked ≡ arriving
unfolding requests bytes_u32
requests-asked = refl

asked-Aligned : Aligned 0 asked
asked-Aligned = (omega arith, omega arith, (omega arith, omega arith, record {}))

pub replicate-Positive : (k : ℕ) → Positive (replicate k 5)
replicate-Positive zero = record {}
replicate-Positive (suc k) = (omega arith, replicate-Positive k)

requests_answered_example :
    (d : Connection) × (out : List ℕ) × (recv_fn codec services idle
        (λ _. 255)
        9
        fives
        arriving
        header_len
        fresh
        []
      ≡ some (paused header_len d out))
    × (out ++ unsent d.write_buf ≡ unsent fresh.write_buf ++ responses codec asked)
    × (unread d.read_buf ≡ [])
    × Inv.IsValid d.read_buf
    × IsValid d.write_buf
    × (closed d ≡ false)
unfolding Input.init
requests_answered_example =
    requests_answered codec services idle (λ _. 255) contract idle-IsWriter 9 fives arriving asked
      fresh Inv.init-IsValid three_unsent-IsValid refl asked-AllServed asked-Aligned
      (sym requests-asked) (omega (arith, ap length requests-asked)) (replicate-Positive 21)
      (omega arith) (omega arith)
