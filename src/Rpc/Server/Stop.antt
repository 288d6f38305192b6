-- ===== src/Rpc/Server/Stop.antt =====
-- Where the loop of the server's `recv_fn` stops, given only what has arrived.
use xuanqiong.Base.{
  ℕ, zero, suc, ◌≤◌, ◌<◌, ◌≡◌, refl, sym, ap, ◌∙◌, subst, Option, some, List, [], ◌++◌,
  append_assoc, arith,
}
use xuanqiong.Util.Input.{unread}
use xuanqiong.Util.Input.Inv
use xuanqiong.Util.Output.{unsent}
use xuanqiong.Util.Output.Inv.{IsValid}
use xuanqiong.Net.Connection.{Connection, closed}
use xuanqiong.Rpc.Codec.{Codec, Services}
use xuanqiong.Rpc.Codec.Contract.{Contract}
use xuanqiong.Rpc.Server.{Outcome}
use xuanqiong.Rpc.Server.Requests.{Asked, responses, Spot, at_start, place, rounds_left}
use xuanqiong.Rpc.Server.Rounds.{round_lem}
use xuanqiong.Rpc.Server.Going.{Going, Round, rests, moves, replies}
use xuanqiong.Rpc.Server.Loop.{Halt, paused, after_round, recv_loop}

-- The writing coroutine gives bytes from the front of the write buffer to the kernel, and leaves the
-- read buffer and the socket.
pub record IsWriter (write : Connection → Connection × List ℕ) : Type 0 where
  pub keeps : (c : Connection) → (write c).0.read_buf ≡ c.read_buf
  pub stays : (c : Connection) → closed (write c).0 ≡ closed c
  pub sends :
      (c : Connection)
      → IsValid c.write_buf
      → unsent c.write_buf ≡ (write c).1 ++ unsent (write c).0.write_buf
  pub valid : (c : Connection) → IsValid c.write_buf → IsValid (write c).0.write_buf

module _ (codec : Codec) (services : Services) (write : Connection → Connection × List ℕ)
    (stack : ℕ → ℕ) (contract : Contract codec) (writer : IsWriter write) where
  -- The bytes given to the kernel are those that `out` and `total` tell, so far.
  pub record Stop (future out total : List ℕ) (left : ℕ) (r : Option Halt) : Type 0 where
    pub spot : Spot
    pub rest : List Asked
    pub at : ℕ
    pub conn : Connection
    pub sent : List ℕ
    pub to_send : List ℕ
    pub stopped : r ≡ some (paused (place spot) conn sent)
    pub going : Going codec services future to_send spot rest at conn
    pub account : sent ++ to_send ≡ out ++ total
    pub fewer : rounds_left spot rest ≤ left
    pub over : future ≡ [] → (spot ≡ at_start) × (rest ≡ []) × (unread conn.read_buf ≡ [])

  Stop-weaken :
      {future out total out' total' : List ℕ} {l m : ℕ} {r : Option Halt}
      → Stop future out total l r
      → l ≤ m
      → out ++ total ≡ out' ++ total'
      → Stop future out' total' m r
  Stop-weaken s h e = record {
    spot = s.spot;
    rest = s.rest;
    at = s.at;
    conn = s.conn;
    sent = s.sent;
    to_send = s.to_send;
    stopped = s.stopped;
    going = s.going;
    account = s.account ∙ e;
    fewer = (let f = s.fewer in omega arith);
    over = s.over;
  }

  -- The writing coroutine runs between two requests.
  written :
      {future total : List ℕ} {qs : List Asked} {p : ℕ} {c : Connection}
      → Going codec services future total at_start qs p c
      → Going codec services future
          (unsent (write c).0.write_buf ++ responses codec qs)
          at_start
          qs
          p
          (write c).0
  written {future} {total} {qs} {p} {c} g =
      let k = sym (writer.keeps c) in
      record {
        reading = record {
          readable = subst Inv.IsValid k g.reading.readable;
          begins = ap (λ b. b.cur.begin) (sym k) ∙ g.reading.begins;
          comes = ap (λ b. unread b ++ future) (sym k) ∙ g.reading.comes;
          small = g.reading.small;
          opened = writer.stays c ∙ g.reading.opened;
        };
        placed = g.placed;
        served = g.served;
        writable = writer.valid c g.writable;
        answered = refl;
      }

  -- The loop stops from any spot, if it has `fuel` rounds.
  unfoldable pub Stops : ℕ → List ℕ → Type 0
  Stops fuel future =
      (s : Spot) (qs : List Asked) (p : ℕ) (c : Connection) (total out : List ℕ)
      → Going codec services future total s qs p c
      → rounds_left s qs < fuel
      → Stop future out total (rounds_left s qs)
          (recv_loop codec services write stack fuel (place s) c out)

  after_lem :
      {future : List ℕ} (fuel : ℕ) (s : Spot) (qs : List Asked) (p : ℕ) (c : Connection)
      (total out : List ℕ) {o : Outcome}
      → Stops fuel future
      → Going codec services future total s qs p c
      → rounds_left s qs < suc fuel
      → Round codec services future total s qs c o
      → Stop future out total (rounds_left s qs) (
          after_round codec services write stack
            (recv_loop codec services write stack fuel)
            (place s)
            c
            out
            o)
  unfolding Stops
  after_lem fuel s qs p c total out ih g l (rests h) = record {
    spot = s;
    rest = qs;
    at = p;
    conn = c;
    sent = out;
    to_send = total;
    stopped = refl;
    going = g;
    account = refl;
    fewer = omega arith;
    over = h;
  }
  after_lem fuel s qs p c total out ih g l (moves {d} t rs p' g' f) =
      Stop-weaken (ih t rs p' d total out g' (omega arith)) (omega arith) refl
  after_lem fuel s qs p c total out ih g l (replies {d} p' g' f) =
      let e = write d in
      Stop-weaken
        (ih at_start qs p' e.0 (unsent e.0.write_buf ++ responses codec qs) (out ++ e.1)
          (written g') (omega arith))
        (omega arith)
        (append_assoc out e.1 (unsent e.0.write_buf ++ responses codec qs)
          ∙ ap (λ z. out ++ z)
              (sym (append_assoc e.1 (unsent e.0.write_buf) (responses codec qs))
                ∙ ap (λ z. z ++ responses codec qs) (sym (writer.sends d g'.writable))
                ∙ g'.answered))

  pub loop_lem : (future : List ℕ) (fuel : ℕ) → Stops fuel future
  unfolding recv_loop Stops
  loop_lem future zero s qs p c total out g l = absurd (omega arith)
  loop_lem future (suc fuel) s qs p c total out g l =
      after_lem fuel s qs p c total out (loop_lem future fuel) g l
        (round_lem codec services stack contract future total s qs g)
