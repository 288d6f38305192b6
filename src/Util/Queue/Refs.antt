-- ===== src/Util/Queue/Refs.antt =====
-- The count of references to a chunk, and what a pop that loses its race leaves in it.
use xuanqiong.Base.{
  ℕ, ◌+◌, ◌≤◌, ◌<◌, ◌≡◌, ◌≢◌, refl, inl, inr, Bool, false, ◌==◌, ◌&&◌, if◌then◌else◌, arith,
}
use xuanqiong.Util.Queue.{
  Memory, Pc, idle, pop_next, pop_retire, pop_delete, pop_claim, pop_seek, pop_follow, pop_leave,
  pop_wait, pop_take, pop_read, pop_release, fault, set, Move, call_push, pop_here_first, pop_here,
  drop_ref, add_read, add_read_first, System, Step, act, crash, Reach, start, later,
}
use xuanqiong.Util.Queue.Family.{set-cases, total, total-set, total-ge, total_none}
use xuanqiong.Util.Queue.Inv.Own.{guard}

-- Whether a thread holds a reference to chunk `k`, as a number.
abbrev pub holds : ℕ → Pc → ℕ
holds k (pop_claim c h) = if c == k then 1 else 0
holds k (pop_seek c r h) = if c == k then 1 else 0
holds k (pop_follow c r h) = if c == k then 1 else 0
holds k (pop_leave c r h) = if c == k then 1 else 0
holds k (pop_wait c r h) = if c == k && r == c then 1 else 0
holds k (pop_take c r h) = if c == k && r == c then 1 else 0
holds k (pop_read c r h v) = if c == k && r == c then 1 else 0
holds k (pop_release c h v) = if c == k then 1 else 0
holds k p = 0

-- At `pop_leave` the chunk reached is not the one held.
abbrev Left : Pc → Type 0
Left (pop_leave c r h) = r ≢ c
Left p = Unit {0}

Left-own : {m m' : Memory} {p p' : Pc} → Move m p m' p' → Left p'
Left-own call_push = tt
Left-own (pop_here g d) = d
Left-own mv = ground arith

-- What a move adds to the count of a chunk, the mover's references and the lost ones.
balance :
    {m m' : Memory} {p p' : Pc}
    → Move m p m' p'
    → (k : ℕ) → Left p
    → holds k p ≤ m.ref_count k
    → m'.ref_count k + holds k p + m.lost k ≡ m.ref_count k + holds k p' + m'.lost k
balance call_push k d l = omega arith
balance (drop_ref {c} {r} {h}) k d l = ground arith
balance (add_read {c} {r} {h} {v} g) k d l = ground arith
balance (pop_here_first {c} {r} {h} g e) k d l = ground arith
balance (add_read_first {c} {r} {h} {v} e) k d l = ground arith
balance mv k d l = ground (arith, guard mv)

-- The references that threads hold and those that were lost are counted.
pub record Counts (n : ℕ) (s : System) : Type 0 where
  pub left : (i : ℕ) → Left (s.pc i)
  pub enough : (k : ℕ) → total (holds k) n s.pc + s.mem.lost k ≤ s.mem.ref_count k

holds-fault :
    (k n : ℕ) (pc : ℕ → Pc) (i : ℕ)
    → i < n
    → total (holds k) n (set pc i fault) ≤ total (holds k) n pc
holds-fault k n pc i l = omega (arith, total-set (holds k) n pc i fault l)

pub Step-Counts : {n : ℕ} {s t : System} → Step n s t → Counts n s → Counts n t
Step-Counts {n} {s} (act i {m} {p} l a mv) c = record {
  left = λ j. elim (set-cases s.pc i p j) [
    | inl (e, q) ↦ rw q (Left-own mv)
    | inr (d, q) ↦ rw q (c.left j)
  ];
  enough = λ k.
      let own = total-ge (holds k) n s.pc i l in
      omega (
        arith,
        c.enough k,
        total-set (holds k) n s.pc i p l,
        balance mv k (c.left i) (omega (arith, own, c.enough k)),
      );
}
Step-Counts {n} {s} (crash i l a) c = record {
  left =
      λ j. elim (set-cases s.pc i fault j) [ inl (e, q) ↦ rw q tt | inr (d, q) ↦ rw q (c.left j) ];
  enough = λ k. omega (arith, c.enough k, holds-fault k n s.pc i l);
}

pub Reach-Counts : {n : ℕ} {s : System} → Reach n s → Counts n s
Reach-Counts {n} start = record {
  left = λ i. tt;
  enough = λ k. omega (arith, total_none (holds k) n (λ _. idle) (λ i. refl));
}
Reach-Counts (later r st) = Step-Counts st (Reach-Counts r)

-- Steps from a state.
pub data Steps (n : ℕ) (s : System) : System → Type 0 where
  stay : Steps n s s
  more : {t u : System} → Steps n s t → Step n t u → Steps n s u

-- A thread that has passed the test of the references of chunk `k`.
abbrev pub passed : ℕ → Pc → Bool
passed k (pop_next c h) = c == k
passed k (pop_retire c) = c == k
passed k (pop_delete c) = c == k
passed k p = false

-- A state in which a reference to the chunk at the head was lost, and no thread is past the test.
pub record IsStuck (k : ℕ) (s : System) : Type 0 where
  pub at_head : s.mem.head_chunk ≡ k
  pub some_lost : 0 < s.mem.lost k
  pub none_passed : (i : ℕ) → passed k (s.pc i) ≡ false

stuck-Move :
    {m m' : Memory} {p p' : Pc} (k : ℕ)
    → Move m p m' p'
    → m.head_chunk ≡ k
    → 0 < m.lost k
    → 0 < m.ref_count k
    → passed k p ≡ false
    → (m'.head_chunk ≡ k) × (0 < m'.lost k) × (passed k p' ≡ false)
stuck-Move k call_push h l r d = ground arith
stuck-Move k mv h l r d = ground (arith, guard mv)

IsStuck-Step : {n : ℕ} {s t : System} (k : ℕ) → Step n s t → Counts n s → IsStuck k s → IsStuck k t
IsStuck-Step {n} {s} k (act i {m} {p} l a mv) c st =
    let (h, b, d) =
      stuck-Move k mv st.at_head st.some_lost (omega (arith, c.enough k, st.some_lost))
        (st.none_passed i) in
    record {
      at_head = h;
      some_lost = b;
      none_passed = λ j. elim (set-cases s.pc i p j) [
        | inl (e, q) ↦ rw q d
        | inr (e, q) ↦ rw q (st.none_passed j)
      ];
    }
IsStuck-Step {n} {s} k (crash i l a) c st = record {
  at_head = st.at_head;
  some_lost = st.some_lost;
  none_passed = λ j. elim (set-cases s.pc i fault j) [
    | inl (e, q) ↦ rw q refl
    | inr (e, q) ↦ rw q (st.none_passed j)
  ];
}

IsStuck-Steps :
    {n : ℕ} {s t : System} (k : ℕ)
    → Counts n s
    → IsStuck k s
    → Steps n s t
    → Counts n t × IsStuck k t
IsStuck-Steps k c st stay = (c, st)
IsStuck-Steps k c st (more ss step) =
    let (d, u) = IsStuck-Steps k c st ss in (Step-Counts step d, IsStuck-Step k step d u)

-- In a state that the accesses of the threads lead to, let chunk `k` be at the head, let a `pop`
-- have failed to exchange `head_index_` after it counted a reference to `k`, and let no thread be
-- past the test of the references of `k`. Then after any further accesses chunk `k` is still at
-- the head, and its references are not 0: it is never released.
pub lost_reference_stuck :
    {n : ℕ} {s t : System} (k : ℕ)
    → Reach n s
    → IsStuck k s
    → Steps n s t
    → (t.mem.head_chunk ≡ k) × (0 < t.mem.ref_count k)
lost_reference_stuck k r st ss =
    let (d, u) = IsStuck-Steps k (Reach-Counts r) st ss in
    (u.at_head, omega (arith, d.enough k, u.some_lost))
