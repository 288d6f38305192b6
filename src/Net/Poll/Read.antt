-- ===== src/Net/Poll/Read.antt =====
-- `async_read`: every byte that ::read delivered is readable, in order.
use xuanqiong.Base.{
  ℕ, ◌+◌, ◌-◌, ◌≤◌, ◌<◌, ◌≡◌, sym, ap, ap₂, Bool-cases, subst, ◌||◌, ◌∙◌, ◌⊎◌, inl, inr, Bool, true,
  false, not, ◌&&◌, List, [], ◌∷◌, ◌++◌, Option, some, length, length-append, arith, ◌==◌,
  if◌then◌else◌,
}
use xuanqiong.Base.Int.{pos}
use xuanqiong.Util.Input.{InputBuffer, get_buffer, fill, unread}
use xuanqiong.Util.Input
use xuanqiong.Util.Input.Inv.{IsValid}
use xuanqiong.Util.Input.Recv.{recv_add-fill, fill-fill, fill-nil}
use xuanqiong.Util.Input.Position.{recv_add-begin}
use xuanqiong.Net.Connection.{Connection, closed, recv_add}
use xuanqiong.Net.Connection
use xuanqiong.Net.Socket
use xuanqiong.Net.Poll.{
  ReadResult, got, eof, again, interrupted, failed, Awaiter, read_loop, read_done, finish_read,
  async_read,
}

-- The results are such as ::read may return where `n` bytes are asked for, and last to the end of
-- the loop: a read returns one byte at least and no more than fit.
abbrev pub Answers : ℕ → List ReadResult → Type 0
Answers n [] = n ≡ 0
Answers n (got xs ∷ rs) = (n ≡ 0) ⊎ ((0 < length xs) × (length xs ≤ n) × Answers (n - length xs) rs)
Answers n (eof ∷ rs) = Unit {0}
Answers n (again ∷ rs) = Unit {0}
Answers n (interrupted ∷ rs) = (n ≡ 0) ⊎ Answers n rs
Answers n (failed ∷ rs) = Unit {0}

-- The bytes that the loop reads, `n` at most.
unfoldable pub delivered : ℕ → List ReadResult → List ℕ
delivered n [] = []
delivered n (got xs ∷ rs) = if n == 0 then [] else xs ++ delivered (n - length xs) rs
delivered n (eof ∷ rs) = []
delivered n (again ∷ rs) = []
delivered n (interrupted ∷ rs) = if n == 0 then [] else delivered n rs
delivered n (failed ∷ rs) = []

-- Whether the loop ends at the end of the stream or at an error.
unfoldable pub ends : ℕ → List ReadResult → Bool
ends n [] = false
ends n (got xs ∷ rs) = if n == 0 then false else ends (n - length xs) rs
ends n (eof ∷ rs) = not (n == 0)
ends n (again ∷ rs) = false
ends n (interrupted ∷ rs) = if n == 0 then false else ends n rs
ends n (failed ∷ rs) = not (n == 0)

-- The connection closed if the loop says so.
abbrev close_if : Bool → Connection → Connection
close_if b c = if b then Connection.close c else c

-- The connection with `xs` written at index `i` of its read buffer.
abbrev filled : Connection → ℕ → List ℕ → Connection
filled c i xs = record c { read_buf = fill c.read_buf i xs }

filled-nil : (c : Connection) (i : ℕ) → filled c i [] ≡ c
filled-nil c i = ap (λ b. record c { read_buf = b }) (fill-nil c.read_buf i)

filled-filled :
    (c : Connection) (i : ℕ) (xs ys : List ℕ)
    → filled (filled c i xs) (i + length xs) ys ≡ filled c i (xs ++ ys)
filled-filled c i xs ys = ap (λ b. record c { read_buf = b }) (fill-fill c.read_buf i xs ys)

-- What the loop returns at the connection `c`, where it read `xs` to index `i`.
abbrev looped : Bool → Connection → ℕ → ℕ → List ℕ → Option (Connection × ℕ)
looped b c i n xs = some (close_if b (filled c i xs), n + length xs)

looped-nil : (b : Bool) (c : Connection) (i n : ℕ) → some (close_if b c, n) ≡ looped b c i n []
looped-nil b c i n = ap₂ (λ d k. some (close_if b d, k)) (sym (filled-nil c i)) (omega arith)

looped-append :
    (b : Bool) (c : Connection) (i n : ℕ) (xs ys : List ℕ)
    → looped b (filled c i xs) (i + length xs) (n + length xs) ys ≡ looped b c i n (xs ++ ys)
looped-append b c i n xs ys =
    ap₂ (λ d k. some (close_if b d, k)) (filled-filled c i xs ys)
      (omega (arith, length-append xs ys))

not_zero : (m : ℕ) → (m == 0) ≡ false → m ≡ 0 → ⊥
not_zero m p z = ground arith

read_loop_lem :
    (rs : List ReadResult) (c : Connection) (i m n : ℕ)
    → Answers m rs
    → (read_loop c i m n rs ≡ looped (ends m rs) c i n (delivered m rs))
      × (length (delivered m rs) ≤ m)
unfolding read_loop delivered ends
read_loop_lem [] c i m n h = rw h (looped-nil false c i n, omega arith)
read_loop_lem (got xs ∷ rs) c i m n h = elim (Bool-cases (m == 0)) [
  | inl z ↦ rw z (looped-nil false c i n, omega arith)
  | inr p ↦ rw p (elim h [
    | inl z ↦ absurd (not_zero m p z)
    | inr (some_bytes, fits, more) ↦
        let (e, l) =
          read_loop_lem rs (filled c i xs) (i + length xs) (m - length xs) (n + length xs) more in
        (
          e ∙ looped-append (ends (m - length xs) rs) c i n xs (delivered (m - length xs) rs),
          omega (arith, length-append xs (delivered (m - length xs) rs)),
        )
  ])
]
read_loop_lem (eof ∷ rs) c i m n h = elim (Bool-cases (m == 0)) [
  | inl z ↦ rw z (looped-nil false c i n, omega arith)
  | inr p ↦ rw p (looped-nil true c i n, omega arith)
]
read_loop_lem (again ∷ rs) c i m n h = (looped-nil false c i n, omega arith)
read_loop_lem (interrupted ∷ rs) c i m n h = elim (Bool-cases (m == 0)) [
  | inl z ↦ rw z (looped-nil false c i n, omega arith)
  | inr p ↦
      rw p (elim h [ inl z ↦ absurd (not_zero m p z) | inr more ↦ read_loop_lem rs c i m n more ])
]
read_loop_lem (failed ∷ rs) c i m n h = elim (Bool-cases (m == 0)) [
  | inl z ↦ rw z (looped-nil false c i n, omega arith)
  | inr p ↦ rw p (looped-nil true c i n, omega arith)
]

read_done_lem :
    (c : Connection) (i n : ℕ) (xs : List ℕ) (b : Bool)
    → let a = read_done (close_if b (filled c i xs), n) in
      (a.conn.read_buf ≡ Input.recv_add (fill c.read_buf i xs) (pos n))
      × (a.conn.write_buf ≡ c.write_buf)
      × (closed a.conn ≡ (closed c || b))
      × (a.resumed_write ≡ (closed c || b))
      × (a.should_suspend ≡ (not (closed c || b) && n == 0))
unfolding read_done recv_add Connection.close Socket.close
read_done_lem c i n xs true = ground arith
read_done_lem c i n xs false = ground arith

-- For a valid read buffer and results of ::read such as it may give (no more bytes than asked
-- for, lasting to the end of the loop): `async_read` returns; every byte delivered, and no other,
-- is unread behind what was unread before, in order; the read buffer is valid, and the write
-- buffer as it was. The connection is closed if it was or if the stream ended or failed, and
-- exactly then the writing coroutine was resumed. The reading coroutine is to wait exactly if the
-- connection is open and nothing was delivered. The index of the first unread byte in its block
-- is as it was.
pub async_read_lem :
    (c : Connection) (rs : List ReadResult)
    → IsValid c.read_buf
    → Answers (get_buffer c.read_buf).1 rs
    → let xs = delivered (get_buffer c.read_buf).1 rs in
      (a : Awaiter) × (async_read c rs ≡ some a)
      × (unread a.conn.read_buf ≡ unread c.read_buf ++ xs)
      × IsValid a.conn.read_buf
      × (a.conn.write_buf ≡ c.write_buf)
      × (closed a.conn ≡ (closed c || ends (get_buffer c.read_buf).1 rs))
      × (a.resumed_write ≡ closed a.conn)
      × (a.should_suspend ≡ (not (closed a.conn) && length xs == 0))
      × (a.conn.read_buf.cur.begin ≡ c.read_buf.cur.begin)
unfolding async_read finish_read
async_read_lem c rs v h =
    let m = (get_buffer c.read_buf).1 in
    let i = (get_buffer c.read_buf).0 in
    let xs = delivered m rs in
    let (e, l) = read_loop_lem rs c i m 0 h in
    let (u, w) = recv_add-fill c.read_buf xs v l in
    let z : 0 + length xs ≡ length xs = omega arith in
    let (r, t, k, p, q) = read_done_lem c i (length xs) xs (ends m rs) in
    (
      read_done (close_if (ends m rs) (filled c i xs), length xs),
      ap finish_read (e ∙ ap (λ k. some (close_if (ends m rs) (filled c i xs), k)) z),
      ap unread r ∙ u,
      subst IsValid (sym r) w,
      t,
      k,
      p ∙ sym k,
      q ∙ ap (λ b. not b && length xs == 0) (sym k),
      ap (λ b. b.cur.begin) r ∙ recv_add-begin c.read_buf xs,
    )
