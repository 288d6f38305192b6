-- ===== src/Scheduler/Batch.antt =====
-- scheduler/epoll_exector.cc, scheduler/kqueue_executor.cc and scheduler/uring_exector.cc: the loop of
-- an executor's thread, and in it the loop over the entries that the kernel reports. The three have
-- the same shape; how an entry is handled is an argument. Connections are named by their addresses.
use xuanqiong.Base.{
  ℕ, ◌≡◌, refl, ap, ◌∙◌, Bool, true, not, ◌&&◌, Option, none, some, List, [], ◌∷◌, ◌==◌,
  if◌then◌else◌, arith,
}

-- What stands at an address.
unfoldable pub update : {A : Type 0} → ℕ → A → (ℕ → A) → ℕ → A
update i a m j = if j == i then a else m j

module _ {A E : Type 0} where
  -- `handle` gives what stands at the entry's address then, and whether `should_notify_` is cleared;
  -- `wakes` whether an entry with no address clears it, which otherwise is passed over.
  module _ (handle : E → A → A × Bool) (wakes : E → Bool) where
    -- The loop over the entries.
    unfoldable pub handle_all : List (Option ℕ × E) → (ℕ → A) × Bool → (ℕ → A) × Bool
    unfolding update
    handle_all [] (m, flag) = (m, flag)
    handle_all ((none, e) ∷ es) (m, flag) = handle_all es (m, flag && not (wakes e))
    handle_all ((some i, e) ∷ es) (m, flag) =
        let (a, clears) = handle e (m i) in handle_all es (update i a m, flag && not clears)

    -- What the entries of one address make of what stands there.
    unfoldable pub own : ℕ → List (Option ℕ × E) → A → A
    own j [] a = a
    own j ((none, e) ∷ es) a = own j es a
    own j ((some i, e) ∷ es) a = own j es (if j == i then (handle e a).0 else a)

    pub update-own :
        (i j : ℕ) (e : E) (m : ℕ → A)
        → update i (handle e (m i)).0 m j ≡ (if j == i then (handle e (m j)).0 else m j)
    unfolding update
    update-own i j e m = ground arith

    -- The other addresses' entries do not matter.
    pub handle_all-own :
        (es : List (Option ℕ × E)) (m : ℕ → A) (flag : Bool) (j : ℕ)
        → (handle_all es (m, flag)).0 j ≡ own j es (m j)
    unfolding handle_all own update
    handle_all-own [] m flag j = refl
    handle_all-own ((none, e) ∷ es) m flag j = handle_all-own es m (flag && not (wakes e)) j
    handle_all-own ((some i, e) ∷ es) m flag j =
        let s = handle e (m i) in
        let ih = handle_all-own es (update i s.0 m) (flag && not s.1) j in
        ih ∙ ap (own j es) (update-own i j e m)

-- A pass of the thread's loop: whether `stop_` is found set at its head, the tasks that are popped, and
-- the entries that the kernel reports, where the wait does not fail.
pub record Turn (A E : Type 0) : Type 0 where
  pub stops : Bool
  pub tasks : List ((ℕ → A) → ℕ → A)
  pub waited : Option (List (Option ℕ × E))

unfoldable pub run_tasks : {A : Type 0} → List ((ℕ → A) → ℕ → A) → (ℕ → A) → ℕ → A
run_tasks [] m = m
run_tasks (t ∷ ts) m = run_tasks ts (t m)

module _ {A E : Type 0} (handle : E → A → A × Bool) (wakes : E → Bool) where
  -- `should_notify_` was set before the wait.
  abbrev pub after_wait : (ℕ → A) → Option (List (Option ℕ × E)) → (ℕ → A) × Bool
  after_wait m none = (m, true)
  after_wait m (some es) = handle_all handle wakes es (m, true)

  unfoldable pub thread : List (Turn A E) → (ℕ → A) × Bool → (ℕ → A) × Bool
  unfolding handle_all run_tasks
  thread [] (m, flag) = (m, flag)
  thread (t ∷ ts) (m, flag) =
      let rest = thread ts (after_wait (run_tasks t.tasks m) t.waited) in
      if t.stops then (m, flag) else rest
