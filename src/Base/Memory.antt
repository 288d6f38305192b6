-- ===== src/Base/Memory.antt =====
-- A byte array as a function from indices to bytes: reading a range, and memcpy into it.
use Prim.Native.Nat.{ℕ, zero, suc, ◌+◌, ◌-◌, ◌≤◌, ◌<◌}
use mathlib.Core.Path.{◌≡◌, refl, ap, ap₂, ◌∙◌, fun_ext}
use mathlib.Core.List.{List, [], ◌∷◌, ◌++◌}
use native.Mathlib.Omega.{arith}
use xuanqiong.Base.Tests.{ltb, if◌then◌else◌}
use xuanqiong.Base.Lists.{length, get_or, take, drop, get_or-append, get_or_beyond}

-- The `n` bytes from index `b` on.
abbrev pub slice : (ℕ → ℕ) → ℕ → ℕ → List ℕ
slice d b zero = []
slice d b (suc n) = d b ∷ slice d (suc b) n

-- The array after memcpy of `xs` to index `o`.
unfoldable pub store : (ℕ → ℕ) → ℕ → List ℕ → ℕ → ℕ
store d o xs i = if ltb i o then d i else get_or xs (i - o) (d i)

pub length-slice : (d : ℕ → ℕ) (b n : ℕ) → length (slice d b n) ≡ n
length-slice d b zero = refl
length-slice d b (suc n) = ap suc (length-slice d (suc b) n)

slice_ext :
    (f g : ℕ → ℕ) (b n : ℕ) → ((i : ℕ) → b ≤ i → i < b + n → f i ≡ g i) → slice f b n ≡ slice g b n
slice_ext f g b zero h = refl
slice_ext f g b (suc n) h =
    ap₂ ◌∷◌ (h b (omega arith) (omega arith))
      (slice_ext f g (suc b) n (λ i p q. h i (omega arith) (omega arith)))

pub slice-add : (d : ℕ → ℕ) (b m n : ℕ) → slice d b (m + n) ≡ slice d b m ++ slice d (b + m) n
slice-add d b zero n = ap₂ (slice d) (omega arith) (omega arith)
slice-add d b (suc m) n =
    ap (slice d b) {x = suc m + n} {y = suc (m + n)} (omega arith)
    ∙ ap (λ t. d b ∷ t)
        (slice-add d (suc b) m n
          ∙ ap (λ k. slice d (suc b) m ++ slice d k n) {x = suc b + m} {y = b + suc m}
              (omega arith))

pub take-slice : (d : ℕ → ℕ) (b m n : ℕ) → m ≤ n → take m (slice d b n) ≡ slice d b m
take-slice d b zero n h = refl
take-slice d b (suc m) zero h = absurd (omega arith)
take-slice d b (suc m) (suc n) h = ap (λ t. d b ∷ t) (take-slice d (suc b) m n (omega arith))

-- A copy leaves what lies below it.
pub slice-store_below :
    (d : ℕ → ℕ) (o : ℕ) (xs : List ℕ) (b n : ℕ) → b + n ≤ o → slice (store d o xs) b n ≡ slice d b n
unfolding store
slice-store_below d o xs b n h = slice_ext _ _ b n (λ i p q. ground arith)

store-cons :
    (d : ℕ → ℕ) (o x : ℕ) (xs : List ℕ) (i : ℕ)
    → suc o ≤ i
    → store d o (x ∷ xs) i ≡ store d (suc o) xs i
unfolding store
store-cons d o x xs i h = let e : i - o ≡ suc (i - suc o) = omega arith in rw e (ground arith)

store_first : (d : ℕ → ℕ) (o x : ℕ) (xs : List ℕ) → store d o (x ∷ xs) o ≡ x
unfolding store
store_first d o x xs = let e : o - o ≡ 0 = omega arith in rw e (ground arith)

-- What was copied is read back.
pub slice-store : (d : ℕ → ℕ) (o : ℕ) (xs : List ℕ) → slice (store d o xs) o (length xs) ≡ xs
slice-store d o [] = refl
slice-store d o (x ∷ xs) = ap₂ ◌∷◌ (store_first d o x xs) (
    slice_ext _ _ (suc o) (length xs) (λ i p q. store-cons d o x xs i p) ∙ slice-store d (suc o) xs)

-- The end of a range, its first `m` bytes dropped.
pub drop-slice : (d : ℕ → ℕ) (b m n : ℕ) → drop m (slice d b (m + n)) ≡ slice d (b + m) n
drop-slice d b zero n = ap₂ (slice d) (omega arith) (omega arith)
drop-slice d b (suc m) n =
    ap (λ k. drop (suc m) (slice d b k)) {x = suc m + n} {y = suc (m + n)} (omega arith)
    ∙ drop-slice d (suc b) m n
    ∙ ap (λ k. slice d k n) (omega arith)

-- A copy right after a copy is one copy.
pub store-store :
    (d : ℕ → ℕ) (o : ℕ) (xs ys : List ℕ)
    → store (store d o xs) (o + length xs) ys ≡ store d o (xs ++ ys)
unfolding store
store-store d o xs ys = fun_ext λ i.
    let e : i - o - length xs ≡ i - (o + length xs) = omega arith in
    rw get_or-append (rw e (ground (arith, get_or_beyond xs (i - o) (d i))))

pub store-nil : (d : ℕ → ℕ) (o : ℕ) → store d o [] ≡ d
unfolding store
store-nil d o = fun_ext λ i. ground arith
