-- ===== src/Rpc/Codec/Contract.antt =====
-- What is taken of the protobuf runtime: that it uses a stream as the stream's interface says.
use xuanqiong.Base.{
  ℕ, ◌+◌, ◌%◌, length-append, ◌-◌, ◌≤◌, ◌<◌, ◌≡◌, sym, ap, ◌∙◌, subst, none, some, List, [], ◌++◌,
  length, take, drop, append-nil, append_assoc, arith,
}
use xuanqiong.Util.Input.{InputBuffer, int32_max, unread}
use xuanqiong.Util.Input
use xuanqiong.Util.Input.Inv
use xuanqiong.Util.Input.Stream.{Delivers, next-Delivers, next-IsValid}
use xuanqiong.Util.Input.Position.{next-begin}
use xuanqiong.Util.Block.{block_size}
use xuanqiong.Util.Input.Drain.{at_end, after_next}
use xuanqiong.Util.Output.{OutputBuffer, next, fill, back_up, unsent}
use xuanqiong.Util.Output.Inv.{IsValid}
use xuanqiong.Util.Output.Write.{back_up-fill-next, fill-next}
use xuanqiong.Rpc.Codec.{Codec}

-- The bytes that calls of `next` hand out, the last of which fails, and the stream then.
pub data Parsed : InputBuffer → List ℕ → InputBuffer → Type 0 where
  ends : {b d : InputBuffer} → (Input.next b).0 ≡ none → d ≡ (Input.next b).1 → Parsed b [] d
  hands :
      {b d : InputBuffer} {xs ys zs : List ℕ}
      → (Input.next b).0 ≡ some xs
      → Parsed (Input.next b).1 ys d
      → zs ≡ xs ++ ys
      → Parsed b zs d

-- The bytes written by filling the regions that calls of `next` offer, each whole but the last,
-- whose rest is given back, and the stream then.
pub data Written : OutputBuffer → List ℕ → OutputBuffer → Type 0 where
  nothing : {b : OutputBuffer} → Written b [] b
  whole :
      {b d : OutputBuffer} {ys zs : List ℕ} (xs : List ℕ)
      → length xs ≡ (next b).1
      → Written (fill (next b).2 (next b).0 xs) ys d
      → zs ≡ xs ++ ys
      → Written b zs d
  part :
      {b d : OutputBuffer} {xs : List ℕ}
      → length xs ≤ (next b).1
      → d ≡ back_up (fill (next b).2 (next b).0 xs) ((next b).1 - length xs)
      → Written b xs d

-- A parser that succeeds reads a limited stream until `next` fails, and a printer writes the bytes
-- that the message serializes to.
pub record Contract (codec : Codec) : Type 0 where
  pub reads :
      (b : InputBuffer)
      → Inv.IsValid b
      → b.limit < int32_max
      → (xs : List ℕ) × (d : InputBuffer) × (codec.read_stream b ≡ some (xs, d)) × Parsed b xs d
  pub writes :
      (b : OutputBuffer) (xs : List ℕ)
      → IsValid b
      → (d : OutputBuffer) × (codec.write_stream b xs ≡ some d) × Written b xs d

-- Where such a parser has read a stream with a limit, it has read the unread bytes up to the limit.
pub Parsed_lem :
    {b d : InputBuffer} {zs : List ℕ}
    → Parsed b zs d
    → Inv.IsValid b
    → b.limit < int32_max
    → (zs ≡ take b.limit (unread b)) × (unread d ≡ drop b.limit (unread b)) × Inv.IsValid d
Parsed_lem (ends {b} e f) v h =
    let (same, why) = subst (Delivers b) (ap (λ t. (t, (Input.next b).1)) e) (next-Delivers b v) in
    let (t, u) = at_end b why in rw (f, same) (t, u, v)
Parsed_lem (hands {b} {d} {xs} {ys} e p f) v h =
    let deliver : Delivers b (some xs, (Input.next b).1) =
      subst (Delivers b) (ap (λ t. (t, (Input.next b).1)) e) (next-Delivers b v) in
    let (l, t, r) = after_next b xs (Input.next b).1 h deliver in
    let (q, u, w) = Parsed_lem p deliver.5 (omega arith) in
    (f ∙ ap (λ z. xs ++ z) q ∙ sym t, u ∙ sym r, w)

-- It has moved on in its block by the bytes that it read.
pub Parsed-begin :
    {b d : InputBuffer} {zs : List ℕ}
    → Parsed b zs d
    → Inv.IsValid b
    → d.cur.begin ≡ (b.cur.begin + length zs) % block_size
Parsed-begin (ends {b} e f) v =
    let (same, why) = subst (Delivers b) (ap (λ t. (t, (Input.next b).1)) e) (next-Delivers b v) in
    ap (λ z. z.cur.begin) (f ∙ same) ∙ (let p = v.chain.partly in omega arith)
Parsed-begin (hands {b} {d} {xs} {ys} e p f) v =
    let n = next-begin b xs v e in
    let r = Parsed-begin p (next-IsValid b v) in
    omega (arith, n, r, ap length f, length-append xs ys)

-- What was written stands behind the unsent bytes.
pub Written_lem :
    {b d : OutputBuffer} {zs : List ℕ}
    → Written b zs d
    → IsValid b
    → (unsent d ≡ unsent b ++ zs) × IsValid d
Written_lem (nothing {b}) v = (sym (append-nil (unsent b)), v)
Written_lem (whole {b} {d} {ys} xs l w e) v =
    let (u, v') = fill-next b xs v l in
    let (t, v'') = Written_lem w v' in
    (t ∙ ap (λ z. z ++ ys) u ∙ append_assoc (unsent b) xs ys ∙ ap (λ z. unsent b ++ z) (sym e), v'')
Written_lem (part {b} {d} {xs} l e) v = let (pos, u, w) = back_up-fill-next b xs v l in rw e (u, w)
