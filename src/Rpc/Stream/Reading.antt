-- ===== src/Rpc/Stream/Reading.antt =====
-- A connection that reads a known stream of bytes, of which any part may have arrived: a length, and
-- a message.
use xuanqiong.Base.{
  ℕ, ◌+◌, ◌-◌, ◌%◌, ◌^◌, ◌≤◌, ◌<◌, ◌≡◌, refl, sym, ap, ◌∙◌, ◌⊎◌, inl, inr, false, true, some, List,
  [], ◌∷◌, ◌++◌, length, length-append, take, drop, take-append-drop, take-append_ge,
  drop-append_ge, take-append, drop-append, append_assoc, length-take, min, dec_lt, arith,
}
use xuanqiong.Base.Words.{bytes_u32}
use xuanqiong.Util.Block.{block_size}
use xuanqiong.Util.Input.{InputBuffer, Copy, unread, int32_max, fetch_uint32, pop_limit, get_buffer}
use xuanqiong.Util.Input.Inv.{IsValid, read_bytes_count}
use xuanqiong.Util.Input.Position.{four_available}
use xuanqiong.Net.Connection.{Connection, closed, read_bytes}
use xuanqiong.Net.Poll.{Awaiter, async_read}
use xuanqiong.Net.Poll.Read.{async_read_lem}
use xuanqiong.Net.Poll.Kernel.{offered, offered_lem}
use xuanqiong.Rpc.Codec.{Codec}
use xuanqiong.Rpc.Codec.Contract.{Contract}
use xuanqiong.Rpc.Stream.{fetched_value, read_message}
use xuanqiong.Rpc.Stream.Laws.{fetch_sent, read_message_lem}

-- Bytes that were expected, whole: what is left behind them.
pub split_front :
    (u f xs m : List ℕ)
    → u ++ f ≡ xs ++ m
    → length xs ≤ length u
    → (u ≡ xs ++ drop (length xs) u) × (drop (length xs) u ++ f ≡ m)
split_front u f xs m e h = (
  sym (take-append-drop (length xs) u)
      ∙ ap (λ t. t ++ drop (length xs) u)
          (sym (take-append_ge (length xs) u f h) ∙ ap (take (length xs)) e ∙ take-append xs m),
  sym (drop-append_ge (length xs) u f h) ∙ ap (drop (length xs)) e ∙ drop-append xs m,
)

pub nil_front : (u f : List ℕ) → u ++ f ≡ [] → u ≡ []
nil_front [] f e = refl
nil_front (x ∷ u) f e = absurd (omega (arith, ap length e))

pub length-bytes_u32 : (n : ℕ) (xs : List ℕ) → length (bytes_u32 n ++ xs) ≡ 4 + length xs
unfolding bytes_u32
length-bytes_u32 n xs = omega arith

bytes_u32-length : (n : ℕ) → length (bytes_u32 n) ≡ 4
unfolding bytes_u32
bytes_u32-length n = refl

-- With `p` bytes of the stream behind it, `todo` is left of it, and `future` of that to arrive.
pub record Reading (future todo : List ℕ) (p : ℕ) (c : Connection) : Type 0 where
  pub readable : IsValid c.read_buf
  pub begins : c.read_buf.cur.begin ≡ p % block_size
  pub comes : unread c.read_buf ++ future ≡ todo
  pub small : length todo < 2 ^ 64
  pub opened : closed c ≡ false

-- The counter tells the unread bytes.
pub counts :
    {future todo : List ℕ} {p : ℕ} {c : Connection}
    → Reading future todo p c
    → (length (unread c.read_buf) < 2 ^ 64)
      × (read_bytes c ≡ length (unread c.read_buf))
      × (length (unread c.read_buf) + length future ≡ length todo)
counts {future} {todo} {p} {c} g =
    let sum : length (unread c.read_buf) + length future ≡ length todo =
      sym (length-append (unread c.read_buf) future) ∙ ap length g.comes in
    let few : length (unread c.read_buf) < 2 ^ 64 = omega (arith, g.small) in
    (few, read_bytes_count c.read_buf g.readable few, sum)

-- Nothing is left of the stream.
pub Reading-end :
    {future : List ℕ} {p : ℕ} {c : Connection}
    → Reading future [] p c
    → (unread c.read_buf ≡ []) × (read_bytes c ≡ 0)
Reading-end {future} {p} {c} g =
    let none_left = nil_front (unread c.read_buf) future g.comes in
    let (few, count, sum) = counts g in (none_left, count ∙ ap length none_left)

abbrev pub with_input : Connection → InputBuffer → Connection
with_input c b = record c { read_buf = b }

-- Where too few bytes have arrived: some are to come.
abbrev pub Short : ℕ → List ℕ → Connection → Type 0
Short n future c = (read_bytes c < n) × (0 < length future)

-- A length that does not reach from one block into another.
pub next_length :
    {future : List ℕ} {p : ℕ} {c : Connection} (n : ℕ) (more : List ℕ) (stack : ℕ → ℕ)
    → n < 2 ^ 32
    → p % block_size ≤ block_size - 4
    → Reading future (bytes_u32 n ++ more) p c
    → Short 4 future c
      ⊎ ((4 ≤ read_bytes c)
          × (copies : List Copy) × (b : InputBuffer) × (fetch_uint32 c.read_buf
              ≡ some (true, copies, b))
          × (fetched_value stack copies ≡ n)
          × Reading future more (p + 4) (with_input c b))
next_length {future} {p} {c} n more stack small place g =
    let (few, count, sum) = counts g in
    let l = length-bytes_u32 n more in
    elim (dec_lt (read_bytes c) 4) [
      | yes short ↦ inl (short, omega arith)
      | no long ↦
          let (u, f) =
            split_front (unread c.read_buf) future (bytes_u32 n) more g.comes
              (omega (arith, bytes_u32-length n)) in
          let whole =
            four_available c.read_buf g.readable.chain (omega (arith, g.begins)) (omega arith) in
          let (copies, b, e, val, t, w, at) =
            fetch_sent c.read_buf stack n _ g.readable (omega arith) whole small u in
          inr (
            omega arith,
            copies,
            b,
            e,
            val,
            record {
              readable = w;
              begins = at ∙ omega (arith, g.begins);
              comes = ap (λ z. z ++ future) t ∙ f;
              small = omega (arith, g.small);
              opened = g.opened;
            },
          )
    ]

-- A message of a known length.
pub next_message :
    {future : List ℕ} {p : ℕ} {c : Connection} (codec : Codec) (contract : Contract codec)
    (xs more : List ℕ)
    → length xs < int32_max
    → Reading future (xs ++ more) p c
    → Short (length xs) future c
      ⊎ ((length xs ≤ read_bytes c)
          × (b : InputBuffer) × (read_message codec c.read_buf (length xs) ≡ some (xs, b))
          × Reading future more (p + length xs) (with_input c (pop_limit b)))
next_message {future} {p} {c} codec contract xs more small g =
    let (few, count, sum) = counts g in
    let l = length-append xs more in
    elim (dec_lt (read_bytes c) (length xs)) [
      | yes short ↦ inl (short, omega arith)
      | no long ↦
          let (u, f) = split_front (unread c.read_buf) future xs more g.comes (omega arith) in
          let (b, e, t, w, at) =
            read_message_lem codec contract c.read_buf xs _ g.readable small u in
          inr (
            omega arith,
            b,
            e,
            record {
              readable = w;
              begins = at ∙ omega (arith, g.begins);
              comes = ap (λ z. z ++ future) t ∙ f;
              small = omega (arith, g.small);
              opened = g.opened;
            },
          )
    ]

-- A call of `async_read` that the kernel answers with some of the bytes to come.
pub async_read-Reading :
    {future todo : List ℕ} {p : ℕ} {c : Connection} (n : ℕ)
    → Reading future todo p c
    → let k = min n (get_buffer c.read_buf).1 in
      (a : Awaiter) × (async_read c (offered (take k future)) ≡ some a)
      × Reading (drop k future) todo p a.conn
      × (a.conn.write_buf ≡ c.write_buf)
      × (a.resumed_write ≡ false)
async_read-Reading {future} {todo} {p} {c} n g =
    let m = (get_buffer c.read_buf).1 in
    let k = min n m in
    let (h, seg, run) = offered_lem m (take k future) (omega (arith, length-take k future)) in
    let (a, e, u, v, w, o, q, r, at) = async_read_lem c (offered (take k future)) g.readable h in
    let open_still : closed a.conn ≡ false = o ∙ rw (g.opened, run) refl in
    (
      a,
      e,
      record {
        readable = v;
        begins = at ∙ g.begins;
        comes =
            ap (λ z. z ++ drop k future) (u ∙ ap (λ z. unread c.read_buf ++ z) seg)
            ∙ append_assoc (unread c.read_buf) (take k future) (drop k future)
            ∙ ap (λ z. unread c.read_buf ++ z) (take-append-drop k future)
            ∙ g.comes;
        small = g.small;
        opened = open_still;
      },
      w,
      q ∙ open_still,
    )
