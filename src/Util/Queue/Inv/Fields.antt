-- ===== src/Util/Queue/Inv/Fields.antt =====
-- A move of thread `i` keeps each field of the invariant.
use xuanqiong.Base.{
  ℕ, suc, ◌+◌, ◌*◌, ◌<◌, ◌≡◌, ◌≢◌, ◌⊎◌, inl, inr, sym, ap, ◌∙◌, true, false, some, arith,
}
use xuanqiong.Util.Queue.{Memory, chunk_size, Pc, push_load, set, Move, call_push}
use xuanqiong.Util.Queue.Family.{set-cases, one_owner}
use xuanqiong.Util.Queue.Inv.{writes, reads, IsFresh, IsSound, Inv}
use xuanqiong.Util.Queue.Inv.Own.{guard, Move-own}
use xuanqiong.Util.Queue.Inv.Others.{Move-Grows, Move-value, IsFresh-Grows}

-- The index that a push has taken after a move is the one before it, or the end of the queue.
writes-Move :
    {m m' : Memory} {p p' : Pc} (t : ℕ)
    → Move m p m' p'
    → writes p' ≡ some t
    → (writes p ≡ some t) ⊎ ((t ≡ m.tail_index) × (m'.tail_index ≡ suc t))
writes-Move t call_push e = ground arith
writes-Move t mv e = ground (arith, guard mv)

reads-Move :
    {m m' : Memory} {p p' : Pc} (h : ℕ)
    → Move m p m' p'
    → reads p' ≡ some h
    → (reads p ≡ some h) ⊎ ((h ≡ m.head_index) × (m'.head_index ≡ suc h))
reads-Move h call_push e = ground arith
reads-Move h mv e = ground (arith, guard mv)

-- An index that a thread has taken lies before the end.
writes_below : (m : Memory) (p : Pc) (t : ℕ) → IsFresh m p → writes p ≡ some t → t < m.tail_index
writes_below m (push_load v) t f e = ground arith
writes_below m p t f e = ground arith

reads_below : (m : Memory) (p : Pc) (h : ℕ) → IsFresh m p → reads p ≡ some h → h < m.head_index
reads_below m (push_load v) h f e = ground arith
reads_below m p h f e = ground arith

-- No slot of an index that a push still writes is ready after a move: of the mover's own, and of
-- another thread's.
mine_unready :
    {m m' : Memory} {p p' : Pc}
    → Move m p m' p'
    → (t k o : ℕ) → IsFresh m p
    → writes p' ≡ some t
    → m'.ready k o ≡ true
    → (m.ready k o ≡ true → IsSound m k o)
    → (writes p ≡ some t → m.ready k o ≡ true → chunk_size * k + o ≢ t)
    → chunk_size * k + o ≢ t
mine_unready call_push t k o f w r s u = ground arith
mine_unready mv t k o f w r s u = ground (arith, guard mv)

others_unready :
    {m m' : Memory} {p p' : Pc}
    → Move m p m' p'
    → (t k o : ℕ) → IsFresh m p
    → writes p ≢ some t
    → m'.ready k o ≡ true
    → (m.ready k o ≡ true → chunk_size * k + o ≢ t)
    → chunk_size * k + o ≢ t
others_unready call_push t k o f w r u = u r
others_unready mv t k o f w r u = ground (arith, guard mv)

mine_uncounted :
    {m m' : Memory} {p p' : Pc}
    → Move m p m' p'
    → (h : ℕ) → reads p' ≡ some h
    → m.counted h ≡ false
    → m'.counted h ≡ false
mine_uncounted call_push h r u = u
mine_uncounted mv h r u = ground (arith, guard mv)

new_uncounted :
    {m m' : Memory} {p p' : Pc}
    → Move m p m' p'
    → (h : ℕ) → h ≡ m.head_index
    → m'.head_index ≡ suc h
    → (m.counted h ≡ true → h < m.head_index)
    → m'.counted h ≡ false
new_uncounted call_push h e g u = ground arith
new_uncounted mv h e g u = ground (arith, guard mv)

others_uncounted :
    {m m' : Memory} {p p' : Pc}
    → Move m p m' p'
    → (h : ℕ) → reads p ≢ some h
    → m.counted h ≡ false
    → m'.counted h ≡ false
others_uncounted call_push h d u = u
others_uncounted mv h d u = ground (arith, guard mv)

module _ {m m' : Memory} {pc : ℕ → Pc} {p p' : Pc} (inv : Inv m pc) (i : ℕ) (mv : Move m p m' p')
    (here : pc i ≡ p) where
  open inv use {
    order, tail_low, head_low, sound, unready, one_writer, one_reader, tallied, counted_below,
    uncounted, fresh,
  }

  own : IsFresh m p
  own = rw (← here) (fresh i)

  -- Another thread's index is another index.
  apart : (j t : ℕ) → i ≢ j → writes (pc j) ≡ some t → writes p ≢ some t
  apart j t d e w = d (one_writer i j t (ap writes here ∙ w) e)

  pub Move-unready :
      (j t k o : ℕ) → writes (set pc i p' j) ≡ some t → m'.ready k o ≡ true → chunk_size * k + o ≢ t
  Move-unready j t k o w r = elim (set-cases pc i p' j) [
    | inl (e, q) ↦
        mine_unready mv t k o own (sym (ap writes q) ∙ w) r (sound k o)
          (λ u. unready i t k o (ap writes here ∙ u))
    | inr (d, q) ↦
        let mine = sym (ap writes q) ∙ w in
        others_unready mv t k o own (apart j t d mine) r (unready j t k o mine)
  ]

  pub Move-one_writer :
      (j l t : ℕ) → writes (set pc i p' j) ≡ some t → writes (set pc i p' l) ≡ some t → j ≡ l
  Move-one_writer = one_owner writes pc i p' one_writer (λ t j w. elim (writes-Move t mv w) [
    | inl old ↦ inl (ap writes here ∙ old)
    | inr (e, _) ↦ inr (λ u. absurd (omega (arith, writes_below m (pc j) t (fresh j) u, e)))
  ])

  pub Move-one_reader :
      (j l h : ℕ) → reads (set pc i p' j) ≡ some h → reads (set pc i p' l) ≡ some h → j ≡ l
  Move-one_reader = one_owner reads pc i p' one_reader (λ h j w. elim (reads-Move h mv w) [
    | inl old ↦ inl (ap reads here ∙ old)
    | inr (e, _) ↦ inr (λ u. absurd (omega (arith, reads_below m (pc j) h (fresh j) u, e)))
  ])

  pub Move-fresh : (j : ℕ) → IsFresh m' (set pc i p' j)
  Move-fresh j = elim (set-cases pc i p' j) [
    | inl (e, q) ↦ rw q (Move-own inv mv own)
    | inr (d, q) ↦ rw q (
        IsFresh-Grows (pc j) (Move-Grows mv own) order
          (λ w t e l b. Move-value mv own w t l b (apart j t d e)) (fresh j))
  ]

  pub Move-uncounted : (j h : ℕ) → reads (set pc i p' j) ≡ some h → m'.counted h ≡ false
  Move-uncounted j h w = elim (set-cases pc i p' j) [
    | inl (e, q) ↦ elim (reads-Move h mv (sym (ap reads q) ∙ w)) [
      | inl old ↦ mine_uncounted mv h (sym (ap reads q) ∙ w) (uncounted i h (ap reads here ∙ old))
      | inr (z, grown) ↦ new_uncounted mv h z grown (counted_below h)
    ]
    | inr (d, q) ↦
        let mine = sym (ap reads q) ∙ w in
        others_uncounted mv h (λ u. d (one_reader i j h (ap reads here ∙ u) mine))
          (uncounted j h mine)
  ]
