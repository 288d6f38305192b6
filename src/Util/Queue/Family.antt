-- ===== src/Util/Queue/Family.antt =====
-- Sums over the threads, and counts over a range of indices.
use xuanqiong.Base.{
  ℕ, zero, suc, ◌+◌, ◌≤◌, ◌<◌, ◌≡◌, refl, Bool, true, false, if◌then◌else◌, arith, dec_lt,
  ℕ_discrete, Option, some, ◌≢◌, ◌⊎◌, inl, inr, sym, ap, ◌∙◌,
}
use xuanqiong.Util.Queue.{set}

-- How many of the `n` indices from `b` on have a mark.
pub tally : (ℕ → Bool) → ℕ → ℕ → ℕ
tally f b zero = 0
tally f b (suc n) = (if f (b + n) then 1 else 0) + tally f b n

pub tally-le : (f : ℕ → Bool) (b n : ℕ) → tally f b n ≤ n
unfolding tally
tally-le f b zero = omega arith
tally-le f b (suc n) = ground (arith, tally-le f b n)

-- A mark outside the range does not count, and a new one inside counts one.
pub tally-set_above :
    (f : ℕ → Bool) (b n h : ℕ) → b + n ≤ h → tally (set f h true) b n ≡ tally f b n
unfolding tally
tally-set_above f b zero h l = refl
tally-set_above f b (suc n) h l = ground (arith, tally-set_above f b n h)

pub tally-set_below : (f : ℕ → Bool) (b n h : ℕ) → h < b → tally (set f h true) b n ≡ tally f b n
unfolding tally
tally-set_below f b zero h l = refl
tally-set_below f b (suc n) h l = ground (arith, tally-set_below f b n h l)

pub tally-set :
    (f : ℕ → Bool) (b n h : ℕ)
    → b ≤ h
    → h < b + n
    → f h ≡ false
    → tally (set f h true) b n ≡ suc (tally f b n)
unfolding tally
tally-set f b zero h l o e = absurd (omega arith)
tally-set f b (suc n) h l o e = elim (dec_lt h (b + n)) [
  | yes below ↦ ground (arith, tally-set f b n h l below e)
  | no last ↦ ground (arith, tally-set_above f b n h)
]

-- A full range is marked everywhere.
pub tally_full : (f : ℕ → Bool) (b n h : ℕ) → tally f b n ≡ n → b ≤ h → h < b + n → f h ≡ true
unfolding tally
tally_full f b zero h e l o = absurd (omega arith)
tally_full f b (suc n) h e l o = elim (dec_lt h (b + n)) [
  | yes below ↦ ground (arith, tally-le f b n, tally_full f b n h)
  | no last ↦ ground (arith, tally-le f b n)
]

-- No mark, no count.
pub tally_none : (b n : ℕ) → tally (λ _. false) b n ≡ 0
unfolding tally
tally_none b zero = refl
tally_none b (suc n) = omega (arith, tally_none b n)

-- The sum of a weight over the first `n` threads.
module _ {A : Type 0} (w : A → ℕ) where
  pub total : ℕ → (ℕ → A) → ℕ
  total zero f = 0
  total (suc n) f = w (f n) + total n f

  total-set_above : (n : ℕ) (f : ℕ → A) (i : ℕ) (a : A) → n ≤ i → total n (set f i a) ≡ total n f
  unfolding total
  total-set_above zero f i a h = refl
  total-set_above (suc n) f i a h = ground (arith, total-set_above n f i a)

  pub total-set :
      (n : ℕ) (f : ℕ → A) (i : ℕ) (a : A) → i < n → total n (set f i a) + w (f i) ≡ total n f + w a
  unfolding total
  total-set zero f i a h = absurd (omega arith)
  total-set (suc n) f i a h = elim (dec_lt i n) [
    | yes below ↦ ground (arith, total-set n f i a below)
    | no last ↦ ground (arith, total-set_above n f i a)
  ]

  pub total_none : (n : ℕ) (f : ℕ → A) → ((i : ℕ) → w (f i) ≡ 0) → total n f ≡ 0
  unfolding total
  total_none zero f h = refl
  total_none (suc n) f h = omega (arith, h n, total_none n f h)

  -- A thread's weight is part of the sum.
  pub total-ge : (n : ℕ) (f : ℕ → A) (i : ℕ) → i < n → w (f i) ≤ total n f
  unfolding total
  total-ge zero f i h = absurd (omega arith)
  total-ge (suc n) f i h = elim (dec_lt i n) [
    | yes below ↦ omega (arith, total-ge n f i below)
    | no last ↦ ground arith
  ]

-- A family changed at `i`, read at `j`.
pub set-cases {ℓ} :
    {A : Type ℓ} (f : ℕ → A) (i : ℕ) (a : A) (j : ℕ)
    → ((i ≡ j) × (set f i a j ≡ a)) ⊎ ((i ≢ j) × (set f i a j ≡ f j))
set-cases f i a j = elim (ℕ_discrete i j) [
  | yes e ↦ inl (e, ground arith)
  | no d ↦ inr (d, ground arith)
]

-- Each index has one owner, also after `i` changed, which owns what it did or what nobody owned.
pub one_owner :
    {A : Type 0} (own : A → Option ℕ) (f : ℕ → A) (i : ℕ) (a : A)
    → ((j l t : ℕ) → own (f j) ≡ some t → own (f l) ≡ some t → j ≡ l)
    → ((t j : ℕ) → own a ≡ some t → (own (f i) ≡ some t) ⊎ (own (f j) ≢ some t))
    → (j l t : ℕ) → own (set f i a j) ≡ some t
    → own (set f i a l) ≡ some t
    → j ≡ l
one_owner own f i a unique new j l t x y = elim (set-cases f i a j) [
  | inl (e, p) ↦ elim (set-cases f i a l) [
    | inl (d, q) ↦ sym e ∙ d
    | inr (d, q) ↦ sym e ∙ owner l (sym (ap own p) ∙ x) (sym (ap own q) ∙ y)
  ]
  | inr (e, p) ↦ elim (set-cases f i a l) [
    | inl (d, q) ↦ sym (owner j (sym (ap own q) ∙ y) (sym (ap own p) ∙ x)) ∙ d
    | inr (d, q) ↦ unique j l t (sym (ap own p) ∙ x) (sym (ap own q) ∙ y)
  ]
]
  where
    owner : (k : ℕ) → own a ≡ some t → own (f k) ≡ some t → i ≡ k
    owner k u v = elim (new t k u) [ inl old ↦ unique i k t old v | inr nobody ↦ absurd (nobody v) ]
