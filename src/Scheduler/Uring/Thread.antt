-- ===== src/Scheduler/Uring/Thread.antt =====
-- scheduler/uring_exector.cc: the loop of the executor's thread over completions, each of which names
-- its connection in `user_data`, with the coroutines that it resumes. What a coroutine does, when it
-- is resumed, with its connection is an argument.
use xuanqiong.Base.{
  if_false, ℕ, ◌≡◌, ◌≢◌, ◌&&◌, not, true, refl, ap, ◌++◌, Bool-cases, inl, inr, ◌∙◌, ◌<◌, ◌^◌, Bool,
  false, Option, none, some, List, map, [], ◌∷◌, ◌==◌, if◌then◌else◌, arith,
}
use xuanqiong.Base.Int.{ℤ}
use xuanqiong.Net.Uring.{UringConnection}
use xuanqiong.Scheduler.Event.{EventType, user_data, event_type, conn_part, user_data_parts}
use xuanqiong.Scheduler.Epoll.{Side}
use xuanqiong.Scheduler.Epoll.Thread.{resume_all}
use xuanqiong.Util.Output.Inv.{IsValid}
use xuanqiong.Scheduler.Uring.Outcome.{sent, woken, seen, Completes, IsPlausible, handle_cqe_lem}
use xuanqiong.Scheduler.Uring.{Completed, handle_cqe}
use xuanqiong.Scheduler.Batch.{Turn, update, handle_all, own, handle_all-own, thread}

module _ (fuel : ℕ) (resume : Side → UringConnection → UringConnection) where
  abbrev after_completion : Option Completed → Option UringConnection × Bool
  after_completion none = (none, false)
  after_completion (some d) = (some (resume_all resume d.resumed d.conn), d.cleared)

  -- A completion of an event type with a result; `none`: the loop of a write buffer does not end.
  unfoldable pub uring_handle :
      EventType × ℤ → Option UringConnection → Option UringConnection × Bool
  unfolding handle_cqe resume_all
  uring_handle e none = (none, false)
  uring_handle (t, n) (some c) = after_completion (handle_cqe fuel c t n)

  -- The thread.
  unfoldable pub uring_thread :
      List (Turn (Option UringConnection) (EventType × ℤ))
      → (ℕ → Option UringConnection) × Bool
      → (ℕ → Option UringConnection) × Bool
  unfolding uring_handle thread
  uring_thread = thread uring_handle (λ _. false)

-- What a completion's `user_data` and result say; a null connection is passed over.
unfoldable pub cqe_entry : ℕ × ℤ → Option ℕ × (EventType × ℤ)
unfolding conn_part event_type
cqe_entry (u, n) =
    if conn_part u == 0 then (none, (event_type u, n)) else (some (conn_part u), (event_type u, n))

-- An operation that completes: its type, the address of its connection, and its result.
pub record Operation : Type 0 where
  pub type : EventType
  pub conn : ℕ
  pub result : ℤ

-- Its completion.
unfoldable pub cqe : Operation → ℕ × ℤ
unfolding user_data
cqe o = (user_data o.type o.conn, o.result)

abbrev pub Addresses : List Operation → Type 0
Addresses [] = Unit {0}
Addresses (o ∷ os) = (0 < o.conn) × (o.conn < 2 ^ 56) × Addresses os

cqe_entry-cqe :
    (o : Operation)
    → 0 < o.conn
    → o.conn < 2 ^ 56
    → cqe_entry (cqe o) ≡ (some o.conn, (o.type, o.result))
unfolding cqe_entry cqe
cqe_entry-cqe o p h =
    let (t, c, _) = user_data_parts o.type o.conn h in
    let some_conn : (o.conn == 0) ≡ false = ground arith in rw (t, c, some_conn) refl

-- None of them is on a connection.
abbrev pub Elsewhere : ℕ → List Operation → Type 0
Elsewhere i [] = Unit {0}
Elsewhere i (o ∷ os) = (i ≢ o.conn) × Elsewhere i os

elsewhere : (i k : ℕ) → i ≢ k → (i == k) ≡ false
elsewhere i k d = ground (arith, d)

cleared_off : (flag : Bool) {c : Bool} → c ≡ true → (flag && not c) ≡ false
cleared_off flag e = ground (arith, e)

module _ (fuel : ℕ) (resume : Side → UringConnection → UringConnection) where
  -- The entries of a batch in which one operation is on its connection.
  abbrev pub entries : List Operation → List (Option ℕ × (EventType × ℤ))
  entries os = map (λ o. cqe_entry (cqe o)) os

  own-others :
      (i : ℕ) (os : List Operation) (a : Option UringConnection)
      → Addresses os
      → Elsewhere i os
      → own (uring_handle fuel resume) (λ _. false) i (entries os) a ≡ a
  unfolding own
  own-others i [] a v d = refl
  own-others i (o ∷ os) a v d =
      rw (cqe_entry-cqe o v.0 v.1, elsewhere i o.conn d.0) (own-others i os a v.2 d.1)

  own-one :
      (before after : List Operation) (o : Operation) (a : Option UringConnection)
      → Addresses (before ++ o ∷ after)
      → Elsewhere o.conn before
      → Elsewhere o.conn after
      → own (uring_handle fuel resume) (λ _. false) o.conn (entries (before ++ o ∷ after)) a
        ≡ (uring_handle fuel resume (o.type, o.result) a).0
  unfolding own
  own-one [] after o a v d d' =
      let here : (o.conn == o.conn) ≡ true = ground arith in
      rw (cqe_entry-cqe o v.0 v.1, here) (own-others o.conn after _ v.2 d')
  own-one (p ∷ before) after o a v d d' =
      rw (cqe_entry-cqe p v.0 v.1, elsewhere o.conn p.conn d.0)
        (own-one before after o a v.2 d.1 d')

  -- The flag, once clear, stays so.
  flag_clear :
      (os : List Operation) (m : ℕ → Option UringConnection)
      → Addresses os
      → (handle_all (uring_handle fuel resume) (λ _. false) (entries os) (m, false)).1 ≡ false
  unfolding handle_all
  flag_clear [] m v = refl
  flag_clear (o ∷ os) m v = rw (cqe_entry-cqe o v.0 v.1) (flag_clear os _ v.2)

  flag_one :
      (before after : List Operation) (o : Operation) (m : ℕ → Option UringConnection) (flag : Bool)
      → Addresses (before ++ o ∷ after)
      → Elsewhere o.conn before
      → (uring_handle fuel resume (o.type, o.result) (m o.conn)).1 ≡ true
      → (handle_all
          (uring_handle fuel resume)
          (λ _. false)
          (entries (before ++ o ∷ after))
          (m, flag)).1
        ≡ false
  unfolding handle_all update
  flag_one [] after o m flag v d c =
      let s = uring_handle fuel resume (o.type, o.result) (m o.conn) in
      ap (λ x. (handle_all (uring_handle fuel resume) (λ _. false) (x ∷ entries after) (m, flag)).1)
        (cqe_entry-cqe o v.0 v.1)
      ∙ ap
          (λ b.
            (handle_all (uring_handle fuel resume) (λ _. false) (entries after)
              (update o.conn s.0 m, b)).1)
          (cleared_off flag c)
      ∙ flag_clear after (update o.conn s.0 m) v.2
  flag_one (p ∷ before) after o m flag v d c =
      let s = uring_handle fuel resume (p.type, p.result) (m p.conn) in
      let kept = if_false (o.conn == p.conn) s.0 (m o.conn) (elsewhere o.conn p.conn d.0) in
      ap
        (λ x.
          (handle_all (uring_handle fuel resume) (λ _. false) (x ∷ entries (before ++ o ∷ after))
            (m, flag)).1)
        (cqe_entry-cqe p v.0 v.1)
      ∙ flag_one before after o (update p.conn s.0 m) (flag && not s.1) v.2 d.1
          (ap (λ x. (uring_handle fuel resume (o.type, o.result) x).1) kept ∙ c)

  -- Let the coroutines that are resumed touch only their own connection, and let a batch of
  -- completions be of operations on connections whose addresses are below 2 ^ 56 and not null.
  -- Take one of them that is alone in the batch on its connection, where the write buffer is
  -- valid; the bytes that it reports as sent are unsent and on their way, an error does not bring
  -- those on their way to 2 ^ 64, and there is fuel. After the batch, its connection is as
  -- follows, and then as the coroutines that are resumed leave it, in order. It is closed exactly
  -- if it was or a read gave 0 bytes; exactly the bytes that were sent are dropped, and the
  -- buffer is valid; those on their way are less by them, or more by the amount of an error; the
  -- bytes that a read gave are received. A write resumes the writing coroutine, and a read the
  -- reading one, which at the end of the stream comes after the writing one if no bytes were on
  -- their way. For the executor's own connection none of this happens, and the flag is clear
  -- after the batch.
  pub batch_completion :
      (before after : List Operation) (o : Operation) (m : ℕ → Option UringConnection) (flag : Bool)
      (c : UringConnection)
      → Addresses (before ++ o ∷ after)
      → Elsewhere o.conn before
      → Elsewhere o.conn after
      → m o.conn ≡ some c
      → IsValid c.conn.write_buf
      → IsPlausible c (seen c o.type) o.result
      → sent (seen c o.type) o.result < fuel
      → let r =
          handle_all
            (uring_handle fuel resume)
            (λ _. false)
            (entries (before ++ o ∷ after))
            (m, flag) in
        (d : UringConnection) × (r.0 o.conn
          ≡ some (resume_all resume (woken (c.back_left == 0) (seen c o.type) o.result) d))
        × Completes c (seen c o.type) o.result d
        × ((c.conn.is_dummy && r.1) ≡ false)
  unfolding uring_handle
  batch_completion before after o m flag c v d d' here valid p l =
      let (x, e, told) = handle_cqe_lem fuel c o.type o.result valid p l in
      let handled =
        ap (uring_handle fuel resume (o.type, o.result)) here
        ∙ ap (after_completion fuel resume) e in
      (
        x,
        handle_all-own (uring_handle fuel resume) (λ _. false) (entries (before ++ o ∷ after)) m
              flag o.conn
            ∙ own-one before after o (m o.conn) v d d'
            ∙ ap (λ s. s.0) handled,
        told,
        elim (Bool-cases c.conn.is_dummy) [
          | inl own ↦
              ap (λ b. c.conn.is_dummy && b)
                (flag_one before after o m flag v d (ap (λ s. s.1) handled ∙ own))
              ∙ rw own refl
          | inr other ↦ rw other refl
        ],
      )
