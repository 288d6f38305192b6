-- ===== src/Rpc/Client/Lifetime/Rounds.antt =====
-- What a round of the client's `recv_fn` can do to the table of sessions.
use xuanqiong.Base.{
  ℕ, ◌≡◌, refl, Bool, Bool-cases, inl, inr, true, false, Option, none, some, List, if◌then◌else◌,
}
use xuanqiong.Util.Input.{InputBuffer, Copy, fetch_uint32}
use xuanqiong.Net.Connection.{closed}
use xuanqiong.Rpc.Codec.{Codec, Header}
use xuanqiong.Rpc.Stream.{read_message}
use xuanqiong.Rpc.Client.{
  Session, Channel, Responses, find, erase, Place, header_len, header, response_len, response,
  Outcome, waits, goes, handles, stops, fault, leave, gate, with_u32, with_header, deliver, settle,
  recv_step,
}
use xuanqiong.Rpc.Client.Lifetime.{id_of}

-- The table and the next id are as they were.
unfoldable pub Kept : Channel → Channel → Type 0
Kept h d = (d.sessions ≡ h.sessions) × (d.next_id ≡ h.next_id)

-- The session of an id was taken out.
unfoldable pub Taken : ℕ → Channel → Channel → Type 0
Taken id h d = (d.sessions ≡ erase id h.sessions) × (d.next_id ≡ h.next_id)

-- What a round can do to the table.
pub data Touched (p : Place) (h : Channel) : Outcome → Type 0 where
  rests : Touched p h waits
  keeps : {q : Place} {d : Channel} → Kept h d → Touched p h (goes q d)
  refuses : {q : Place} {d : Channel} (id : ℕ) → Taken id h d → Touched p h (goes q d)
  hands :
      {s : Session} {xs : List ℕ} {d : Channel}
      → find (id_of p) h.sessions ≡ some s
      → Taken (id_of p) h d
      → Touched p h (handles s xs d)
  leaves : {d : Channel} → Kept h d → Touched p h (stops d)
  faults : Touched p h fault

Touched-choice :
    (b : Bool) (p : Place) (h : Channel) (o o' : Outcome)
    → Touched p h o
    → Touched p h o'
    → Touched p h (if b then o else o')
Touched-choice true p h o o' t t' = t
Touched-choice false p h o o' t t' = t'

leave-Kept : (p : Place) (h d : Channel) → Kept h d → Touched p h (leave d)
unfolding leave Kept
leave-Kept p h d k = elim (Bool-cases (closed d.conn)) [
  | inl e ↦ rw e (leaves k)
  | inr e ↦ rw e (leaves k)
]

gate-Touched :
    (n : ℕ) (p : Place) (h : Channel) (o : Outcome) → Touched p h o → Touched p h (gate n h o)
unfolding Kept
gate-Touched n p h o t =
    Touched-choice _ p h _ o (Touched-choice _ p h _ waits (leave-Kept p h h (refl, refl)) rests) t

u32-Touched :
    (stack : ℕ → ℕ) (p : Place) (h : Channel) (failed : Channel → Outcome)
    (k : ℕ → Channel → Outcome) (r : Option (Bool × List Copy × InputBuffer))
    → ((d : Channel) → Kept h d → Touched p h (failed d))
    → ((n : ℕ) (d : Channel) → Kept h d → Touched p h (k n d))
    → Touched p h (with_u32 stack h failed k r)
unfolding Kept
u32-Touched stack p h failed k none f g = faults
u32-Touched stack p h failed k (some (false, copies, b)) f g = f _ (refl, refl)
u32-Touched stack p h failed k (some (true, copies, b)) f g = g _ _ (refl, refl)

header-Touched :
    (codec : Codec) (p : Place) (h : Channel) (r : Option (List ℕ × InputBuffer))
    → Touched p h (with_header codec h r)
unfolding Kept
header-Touched codec p h none = faults
header-Touched codec p h (some (xs, b)) = go (codec.parse_header xs) refl
  where
    go :
        (q : Option Header)
        → codec.parse_header xs ≡ q
        → Touched p h (with_header codec h (some (xs, b)))
    go none e = rw (e, with_header) (leave-Kept p h _ (refl, refl))
    go (some head) e = rw (e, with_header) (keeps (refl, refl))

deliver-Touched :
    (messages : Responses) (h : Channel) (id n : ℕ) (s : Session) (limited : InputBuffer)
    (r : Option (List ℕ × InputBuffer))
    → find id h.sessions ≡ some s
    → Touched
        (response id n)
        h
        (deliver messages (record h { sessions = erase id h.sessions }) s limited r)
unfolding deliver Taken
deliver-Touched messages h id n s limited none f = faults
deliver-Touched messages h id n s limited (some (xs, b)) f =
    Touched-choice _ (response id n) h _ _ (hands f (refl, refl)) (refuses id (refl, refl))

settle-Touched :
    (codec : Codec) (messages : Responses) (h : Channel) (id n : ℕ) (r : Option Session)
    → find id h.sessions ≡ r
    → Touched (response id n) h (settle codec messages h id n r)
unfolding settle Kept
settle-Touched codec messages h id n none f = keeps (refl, refl)
settle-Touched codec messages h id n (some s) f =
    deliver-Touched messages h id n s _ (read_message codec h.conn.read_buf n) f

pub step-Touched :
    (codec : Codec) (messages : Responses) (stack : ℕ → ℕ) (p : Place) (h : Channel)
    → Touched p h (recv_step codec messages stack p h)
unfolding recv_step
step-Touched codec messages stack header_len h = gate-Touched 4 header_len h _ (
    u32-Touched stack header_len h (λ d. leave d) (λ n d. goes (header n) d)
      (fetch_uint32 h.conn.read_buf) (λ d k. leave-Kept header_len h d k) (λ n d k. keeps k))
step-Touched codec messages stack (header n) h =
    gate-Touched n (header n) h _
      (header-Touched codec (header n) h (read_message codec h.conn.read_buf n))
step-Touched codec messages stack (response_len head) h = gate-Touched 4 (response_len head) h _ (
    u32-Touched stack (response_len head) h (λ d. goes header_len d)
      (λ n d. goes (response head.request_id n) d) (fetch_uint32 h.conn.read_buf) (λ d k. keeps k)
      (λ n d k. keeps k))
step-Touched codec messages stack (response id n) h =
    gate-Touched n (response id n) h _
      (settle-Touched codec messages h id n (find id h.sessions) refl)
