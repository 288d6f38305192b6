-- ===== src/Util/Input/Drain.antt =====
-- Reading a message: `next` called until it fails, as a parser does under a limit.
use xuanqiong.Base.{
  ℕ, zero, suc, ◌-◌, ◌≤◌, ◌<◌, ◌≡◌, refl, sym, ap, ◌∙◌, ◌⊎◌, inl, inr, Option, none, some, List, [],
  ◌++◌, arith, length, take, drop, take-all, drop-all, take-append_le, drop-append_le,
}
use xuanqiong.Util.Input.{InputBuffer, int32_max, next, push_limit, pop_limit, unread}
use xuanqiong.Util.Input.Inv.{IsValid, IsValid-with_limit}
use xuanqiong.Util.Input.Stream.{Delivers, next-Delivers}

prepend : List ℕ → Option (List ℕ × InputBuffer) → Option (List ℕ × InputBuffer)
prepend xs none = none
prepend xs (some (ys, b)) = some (xs ++ ys, b)

abbrev Reader : Type 0
Reader = InputBuffer → Option (List ℕ × InputBuffer)

-- What to do with the result of `next`: stop, or go on with `rest`.
drain_after : Reader → Option (List ℕ) × InputBuffer → Option (List ℕ × InputBuffer)
drain_after rest (none, b) = some ([], b)
drain_after rest (some xs, b) = prepend xs (rest b)

-- Every byte that calls of `next` hand out until one returns false, and the state then.
unfoldable pub drain : ℕ → Reader
unfolding drain_after prepend
drain zero b = none
drain (suc fuel) b = drain_after (drain fuel) (next b)

-- The reader `f` hands out what the limit of `b` allows.
abbrev pub ReadsAll : Reader → InputBuffer → Type 0
ReadsAll f b =
    (b' : InputBuffer) × (f b ≡ some (take b.limit (unread b), b'))
    × (unread b' ≡ drop b.limit (unread b))
    × IsValid b'

abbrev Result : InputBuffer → Option (List ℕ × InputBuffer) → Type 0
Result b r =
    (b' : InputBuffer) × (r ≡ some (take b.limit (unread b), b'))
    × (unread b' ≡ drop b.limit (unread b))
    × IsValid b'

-- Where `next` fails, there is nothing to hand out.
pub at_end :
    (b : InputBuffer)
    → (unread b ≡ []) ⊎ (b.limit ≡ 0)
    → ([] ≡ take b.limit (unread b)) × (unread b ≡ drop b.limit (unread b))
at_end b (inl e) =
    let n : length (unread b) ≤ b.limit = omega (arith, ap length e) in
    (sym (take-all b.limit (unread b) n ∙ e), e ∙ sym (drop-all b.limit (unread b) n))
at_end b (inr e) = (ap (λ k. take k (unread b)) (sym e), ap (λ k. drop k (unread b)) (sym e))

stopped : (b : InputBuffer) → IsValid b → (unread b ≡ []) ⊎ (b.limit ≡ 0) → Result b (some ([], b))
stopped b v w = let (t, d) = at_end b w in (b, ap (λ xs. some (xs, b)) t, d, v)

-- What a successful call of `next` under a limit hands out, and what is left to hand out.
pub after_next :
    (b : InputBuffer) (xs : List ℕ) (b' : InputBuffer)
    → b.limit < int32_max
    → Delivers b (some xs, b')
    → (b'.limit < b.limit)
      × (take b.limit (unread b) ≡ xs ++ take b'.limit (unread b'))
      × (drop b.limit (unread b) ≡ drop b'.limit (unread b'))
after_next b xs b' h (e, pos, len, lim, count, v') =
    let l : b'.limit ≡ b.limit - length xs = ground arith in
    (
      omega arith,
      rw (e, take-append_le b.limit xs (unread b') (omega arith), l),
      rw (e, drop-append_le b.limit xs (unread b') (omega arith), l),
    )

-- One call of `next` and a reader that reads all the rest read all.
drain_step :
    (f : Reader) (b : InputBuffer)
    → IsValid b
    → b.limit < int32_max
    → ((b' : InputBuffer) → IsValid b' → b'.limit < b.limit → ReadsAll f b')
    → (r : Option (List ℕ) × InputBuffer) → Delivers b r
    → Result b (drain_after f r)
unfolding drain_after prepend
drain_step f b v h ih (none, b') (e, w) = rw e (stopped b v w)
drain_step f b v h ih (some xs, b') deliver =
    let (l, t, d) = after_next b xs b' h deliver in
    let (c, got, rest, w) = ih b' deliver.5 l in (c, rw (got, t), rest ∙ sym d, w)

-- Under a limit that is not INT32_MAX, and with more fuel than the limit, calling `next` until it
-- fails hands out the unread bytes up to the limit, in order, and leaves exactly the others unread.
pub drain_lem :
    (fuel : ℕ) (b : InputBuffer)
    → IsValid b
    → b.limit < int32_max
    → b.limit < fuel
    → ReadsAll (drain fuel) b
unfolding drain
drain_lem zero b v h k = absurd (omega arith)
drain_lem (suc fuel) b v h k =
    drain_step (drain fuel) b v h (λ b' v' h'. drain_lem fuel b' v' (omega arith) (omega arith))
      (next b) (next-Delivers b v)

-- For a valid read buffer, `n` below INT32_MAX and more fuel than `n`: `push_limit` of `n`, calls
-- of `next` until it fails, and `pop_limit` hand out the first `n` unread bytes (all, if they are
-- fewer), in order; exactly the others stay unread, no limit is set, and the buffer is valid.
pub drain-push_limit :
    (b : InputBuffer) (n fuel : ℕ)
    → IsValid b
    → n < int32_max
    → n < fuel
    → (b' : InputBuffer) × (drain fuel (push_limit b n) ≡ some (take n (unread b), b'))
      × (unread (pop_limit b') ≡ drop n (unread b))
      × ((pop_limit b').limit ≡ int32_max)
      × IsValid (pop_limit b')
unfolding push_limit pop_limit
drain-push_limit b n fuel v h k =
    let (b', e, u, w) = drain_lem fuel (push_limit b n) (IsValid-with_limit b n v) h k in
    (b', e, u, refl, IsValid-with_limit b' int32_max w)
