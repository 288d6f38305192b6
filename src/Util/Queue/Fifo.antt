-- ===== src/Util/Queue/Fifo.antt =====
-- The queue as its users see it: a list of tasks, put at the end and taken from the front.
use xuanqiong.Base.{
  ℕ, zero, suc, ◌+◌, ◌-◌, ◌≤◌, ◌<◌, ◌≡◌, refl, sym, ap, ap₂, ◌∙◌, subst, Option, none, some, List,
  [], ◌∷◌, ◌++◌, ◌==◌, if◌then◌else◌, arith,
}
use xuanqiong.Util.Queue.{
  Memory, init, Pc, popped, empty, set, Move, push_win, none_left, pop_win, System, act, crash,
  Reach, start, later,
}
use xuanqiong.Util.Queue.Inv.{IsFresh}
use xuanqiong.Util.Queue.Inv.Reachable.{Reach-Inv}

-- The values of `f` at the `n` indices from `a` on.
abbrev pub window : (ℕ → ℕ) → ℕ → ℕ → List ℕ
window f a zero = []
window f a (suc n) = f a ∷ window f (suc a) n

-- The tasks of the indices that pushes have taken and pops have not.
unfoldable pub tasks : Memory → List ℕ
tasks m = window m.pushed m.head_index (m.tail_index - m.head_index)

-- What a step does to that list.
pub data Effect : Type 0 where
  silent : Effect
  puts : ℕ → Effect
  takes : ℕ → Effect

-- A list of tasks on its own.
unfoldable pub serve : Effect → List ℕ → Option (List ℕ)
serve silent q = some q
serve (puts v) q = some (q ++ v ∷ [])
serve (takes v) [] = none
serve (takes v) (x ∷ q) = if v == x then some q else none

abbrev pub and_then : (List ℕ → Option (List ℕ)) → Option (List ℕ) → Option (List ℕ)
and_then f none = none
and_then f (some q) = f q

-- The effects in order, the last first.
unfoldable pub serve_all : List Effect → Option (List ℕ)
unfolding serve
serve_all [] = some []
serve_all (e ∷ es) = and_then (serve e) (serve_all es)

-- A push puts its task as it takes an index, and a pop takes one as it takes an index; which one, is
-- the task that it returns (`pop_value`).
unfoldable pub effect : {m m' : Memory} {p p' : Pc} → Move m p m' p' → Effect
effect (push_win {v} g) = puts v
effect {m} (pop_win {c} {h} g) = takes (m.pushed h)
effect _ = silent

-- The effects of the steps that led to a state, the last first.
unfoldable pub trace : {n : ℕ} {s : System} → Reach n s → List Effect
unfolding effect
trace start = []
trace (later r (act i l a mv)) = effect mv ∷ trace r
trace (later r (crash i l a)) = trace r

window_ext :
    (f g : ℕ → ℕ) (a n : ℕ) → ((t : ℕ) → t < a + n → f t ≡ g t) → window f a n ≡ window g a n
window_ext f g a zero h = refl
window_ext f g a (suc n) h =
    ap₂ ◌∷◌ (h a (omega arith)) (window_ext f g (suc a) n (λ t l. h t (omega arith)))

window-suc : (f : ℕ → ℕ) (a n : ℕ) → window f a (suc n) ≡ window f a n ++ f (a + n) ∷ []
window-suc f a zero = ap (λ k. f k ∷ []) (omega arith)
window-suc f a (suc n) =
    ap (λ q. f a ∷ q)
      (window-suc f (suc a) n ∙ ap (λ k. window f (suc a) n ++ f k ∷ []) (omega arith))

-- Taking an index at the end puts a task there.
put_lem :
    (m : Memory) (v t : ℕ)
    → m.head_index ≤ m.tail_index
    → m.tail_index ≡ t
    → serve (puts v) (tasks m)
      ≡ some (tasks (record m { tail_index = suc t; pushed = set m.pushed t v }))
unfolding serve tasks
put_lem m v t o e =
    let n = m.tail_index - m.head_index in
    let f = set m.pushed t v in
    let old : window m.pushed m.head_index n ≡ window f m.head_index n =
      window_ext m.pushed f m.head_index n (λ k l. before k (omega arith)) in
    let size : suc t - m.head_index ≡ suc n = omega arith in
    let last : f (m.head_index + n) ≡ v = ap f (omega arith) ∙ at_end t in
    ap some (
      ap (λ q. q ++ v ∷ []) old
      ∙ ap (λ x. window f m.head_index n ++ x ∷ []) (sym last)
      ∙ sym (window-suc f m.head_index n)
      ∙ ap (window f m.head_index) (sym size))
  where
    before : (k : ℕ) → k < t → m.pushed k ≡ set m.pushed t v k
    before k l = ground arith

    at_end : (t : ℕ) → set m.pushed t v t ≡ v
    at_end t = ground arith

-- Taking the index at the front takes its task.
take_lem :
    (m : Memory) (h : ℕ)
    → h < m.tail_index
    → m.head_index ≡ h
    → serve (takes (m.pushed h)) (tasks m) ≡ some (tasks (record m { head_index = suc h }))
unfolding serve tasks
take_lem m h l e =
    let size : m.tail_index - m.head_index ≡ suc (m.tail_index - suc h) = omega arith in
    rw (size, e) (ground arith)

Move-serves :
    {m m' : Memory} {p p' : Pc}
    → (mv : Move m p m' p') → IsFresh m p
    → m.head_index ≤ m.tail_index
    → serve (effect mv) (tasks m) ≡ some (tasks m')
unfolding effect serve tasks
Move-serves {m} (push_win {v} {c} {t} g) f o = put_lem m v t o g
Move-serves {m} (pop_win {c} {h} g) f o = take_lem m h f.2 g
Move-serves mv f o = refl

-- The end, taken as the front: nothing is left.
none_lem : (m : Memory) (h : ℕ) → m.tail_index ≡ h → h ≤ m.head_index → tasks m ≡ []
unfolding tasks
none_lem m h e l = let z : m.tail_index - m.head_index ≡ 0 = omega arith in rw z refl

init-tasks : some [] ≡ some (tasks init)
unfolding tasks
init-tasks = refl

-- Whatever the order of the threads' accesses that led to a state of the queue: let every
-- successful exchange of `tail_index_` put its task at the end of a list, and every successful
-- exchange of `head_index_` take the task of its index off the front. Then the list, empty at
-- first, can be so served throughout, and holds in the end the tasks of the indices that pushes
-- have taken and pops have not.
pub tasks_served : {n : ℕ} {s : System} (r : Reach n s) → serve_all (trace r) ≡ some (tasks s.mem)
unfolding serve_all trace
tasks_served start = init-tasks
tasks_served (later r (act i l a mv)) =
    let inv = Reach-Inv r in
    ap (and_then (serve (effect mv))) (tasks_served r) ∙ Move-serves mv (inv.fresh i) inv.order
tasks_served (later r (crash i l a)) = tasks_served r

-- In every state that the accesses of the threads lead to: a `pop` that returns a task with index
-- `h` returns the task of the `push` that took the index `h`; and both heads and tails are in
-- order, `h` below `head_index_`, which is at most `tail_index_`.
pub pop_value :
    {n : ℕ} {s : System} (i h v : ℕ)
    → Reach n s
    → s.pc i ≡ popped h v
    → (v ≡ s.mem.pushed h) × (h < s.mem.head_index) × (s.mem.head_index ≤ s.mem.tail_index)
pop_value {n} {s} i h v r e =
    let inv = Reach-Inv r in
    let f : IsFresh s.mem (popped h v) = subst (IsFresh s.mem) e (inv.fresh i) in
    (f.1, f.0, inv.order)

none_left_lem : {m m' : Memory} {p : Pc} → Move m p m' empty → IsFresh m p → tasks m ≡ []
none_left_lem {m} (none_left {c} {h} g) f = none_lem m h g f.1

-- When, in a state that the accesses of the threads lead to, the next access of a `pop` is the
-- load that makes it return false, the queue is empty at that load: every index that a push has
-- taken was taken by a pop.
pub pop_empty :
    {n : ℕ} {s : System} (i : ℕ) {m : Memory}
    → Reach n s
    → Move s.mem (s.pc i) m empty
    → tasks s.mem ≡ []
pop_empty i r mv = none_left_lem mv ((Reach-Inv r).fresh i)
