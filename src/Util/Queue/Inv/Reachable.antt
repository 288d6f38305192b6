-- ===== src/Util/Queue/Inv/Reachable.antt =====
-- The invariant holds at the start, and after every step.
use xuanqiong.Base.{ℕ, ◌*◌, ◌≡◌, refl, sym, ap, ◌∙◌, arith, inl, inr}
use xuanqiong.Util.Queue.{
  Memory, chunk_size, init, Pc, idle, fault, set, Move, System, Step, act, crash, Reach, start,
  later,
}
use xuanqiong.Util.Queue.Family.{tally_none, set-cases, one_owner}
use xuanqiong.Util.Queue.Inv.{writes, reads, IsFresh, Inv}
use xuanqiong.Util.Queue.Inv.Shared.{
  Move-order, Move-tail_low, Move-head_low, Move-counted_below, Move-IsSound, Move-tallied,
}
use xuanqiong.Util.Queue.Inv.Fields.{
  Move-unready, Move-one_writer, Move-one_reader, Move-fresh, Move-uncounted,
}

init-Inv : Inv init (λ _. idle)
init-Inv = record {
  order = omega arith;
  tail_low = omega arith;
  head_low = omega arith;
  sound = λ k o e. absurd (ground arith);
  unready = λ i t k o e f. absurd (ground arith);
  one_writer = λ i j t e f. absurd (ground arith);
  one_reader = λ i j t e f. absurd (ground arith);
  tallied = λ k. sym (tally_none (chunk_size * k) chunk_size);
  counted_below = λ h e. absurd (ground arith);
  uncounted = λ i h e. refl;
  fresh = λ i. tt;
}

pub Move-Inv :
    {m m' : Memory} {pc : ℕ → Pc} {p p' : Pc}
    → Inv m pc
    → (i : ℕ) → Move m p m' p'
    → pc i ≡ p
    → Inv m' (set pc i p')
Move-Inv {m} {m'} {pc} {p} {p'} inv i mv here = record {
  order = Move-order mv own inv.order;
  tail_low = Move-tail_low mv own inv.tail_low;
  head_low = Move-head_low mv own inv.head_low;
  sound = λ k o.
      Move-IsSound mv own k o (inv.sound k o) (λ t w. inv.unready i t k o (ap writes here ∙ w));
  unready = Move-unready inv i mv here;
  one_writer = Move-one_writer inv i mv here;
  one_reader = Move-one_reader inv i mv here;
  tallied =
      λ k. Move-tallied mv own (λ h r. inv.uncounted i h (ap reads here ∙ r)) k (inv.tallied k);
  counted_below = λ h. Move-counted_below mv own h (inv.counted_below h);
  uncounted = Move-uncounted inv i mv here;
  fresh = Move-fresh inv i mv here;
}
  where
    own : IsFresh m p
    own = rw (← here) (inv.fresh i)

-- A thread that stops at a fault leaves the memory as it was.
fault-Inv : {m : Memory} {pc : ℕ → Pc} → Inv m pc → (i : ℕ) → Inv m (set pc i fault)
fault-Inv {m} {pc} inv i = record {
  order = inv.order;
  tail_low = inv.tail_low;
  head_low = inv.head_low;
  sound = inv.sound;
  unready = λ j t k o w. ground (arith, inv.unready j t k o);
  one_writer = one_owner writes pc i fault inv.one_writer (λ t j w. absurd (ground arith));
  one_reader = one_owner reads pc i fault inv.one_reader (λ t j w. absurd (ground arith));
  tallied = inv.tallied;
  counted_below = inv.counted_below;
  uncounted = λ j h r. ground (arith, inv.uncounted j h);
  fresh =
      λ j. elim (set-cases pc i fault j) [ inl (e, q) ↦ rw q tt | inr (d, q) ↦ rw q (inv.fresh j) ];
}

-- Every step keeps the invariant.
pub Step-Inv : {n : ℕ} {s t : System} → Step n s t → Inv s.mem s.pc → Inv t.mem t.pc
Step-Inv (act i l a mv) inv = Move-Inv inv i mv refl
Step-Inv (crash i l a) inv = fault-Inv inv i

pub Reach-Inv : {n : ℕ} {s : System} → Reach n s → Inv s.mem s.pc
Reach-Inv start = init-Inv
Reach-Inv (later r st) = Step-Inv st (Reach-Inv r)
