-- ===== src/Net/Poll/Kernel.antt =====
-- What the kernel may return to the calls of ::read in one `async_read`: the bytes that have arrived,
-- and then that there are no more.
use xuanqiong.Base.{
  ℕ, zero, suc, ◌≤◌, ◌<◌, ◌≡◌, refl, inr, false, List, [], ◌∷◌, append-nil, length, suc-ne-zero,
  arith,
}
use xuanqiong.Net.Poll.{ReadResult, got, again}
use xuanqiong.Net.Poll.Read.{Answers, delivered, ends}

unfoldable pub offered : List ℕ → List ReadResult
offered [] = again ∷ []
offered (x ∷ xs) = got (x ∷ xs) ∷ again ∷ []

-- They are delivered in full.
pub offered_lem :
    (m : ℕ) (xs : List ℕ)
    → length xs ≤ m
    → Answers m (offered xs) × (delivered m (offered xs) ≡ xs) × (ends m (offered xs) ≡ false)
unfolding offered delivered ends
offered_lem m [] h = (record {}, refl, refl)
offered_lem zero (x ∷ xs) h = absurd (omega arith)
offered_lem (suc m) (x ∷ xs) h = (
  inr (omega arith, h, record {}),
  rw (suc-ne-zero m) (append-nil (x ∷ xs)),
  rw (suc-ne-zero m) refl,
)

-- At each call of a list, one byte at least has arrived.
abbrev pub Positive : List ℕ → Type 0
Positive [] = Unit {0}
Positive (n ∷ ns) = (0 < n) × Positive ns
