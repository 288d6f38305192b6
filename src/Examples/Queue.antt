-- ===== src/Examples/Queue.antt =====
-- The queue of tasks in a few of its runs.
use xuanqiong.Base.{ℕ, ◌*◌, ◌≤◌, ◌<◌, ◌≡◌, refl, true, false, some, [], ◌∷◌, ◌-◌, arith}
use xuanqiong.Util.Queue.{
  Memory, Pc, set, Move, call_push, load_tail, load_tail_index, push_win, fits, write_value,
  store_ready, call_pop, load_head, load_head_index, none_left, some_left, not_read, add_ref,
  pop_win, pop_lose, pop_here_first, is_ready, load_value, add_read_first, drop_ref_last, touches,
  alive, System, act, Reach, start, later,
}
use xuanqiong.Util.Queue.Fifo.{tasks, serve_all, trace, tasks_served, pop_value, pop_empty}
use xuanqiong.Util.Queue.Slots.{slot_bounds, delete_lem}
use xuanqiong.Util.Queue.Refs.{stay, passed, IsStuck, lost_reference_stuck}
use xuanqiong.Util.Queue.Deleted.{pop_delete_reached, deleted_chunk_touched}

-- A move of thread `i`.
by :
    {n : ℕ} {s : System} {m : Memory} {p : Pc} (i : ℕ)
    → i < n
    → Reach n s
    → alive s.mem (touches (s.pc i)) ≡ true
    → Move s.mem (s.pc i) m p
    → Reach n (record { mem = m; pc = set s.pc i p })
by i l r a mv = later r (act i l a mv)

-- Two threads: the first has pushed 5, ended the call, and pushed 6.
abbrev two_pushed : (s : System) × Reach 2 s
two_pushed = (
  _,
  by 0 (omega arith)
      (by 0 (omega arith)
        (by 0 (omega arith)
          (by 0 (omega arith)
            (by 0 (omega arith)
              (by 0 (omega arith)
                (by 0 (omega arith)
                  (by 0 (omega arith)
                    (by 0 (omega arith)
                      (by 0 (omega arith)
                        (by 0 (omega arith)
                          (by 0 (omega arith)
                            (by 0 (omega arith)
                              (by 0 (omega arith) (start) refl (call_push {v = 5})) refl
                              (load_tail))
                            refl (load_tail_index))
                          refl (push_win refl))
                        refl (fits (omega arith)))
                      refl (write_value))
                    refl (store_ready))
                  refl (call_push {v = 6}))
                refl (load_tail))
              refl (load_tail_index))
            refl (push_win refl))
          refl (fits (omega arith)))
        refl (write_value))
      refl (store_ready),
)

-- The second has popped a task of them.
abbrev one_popped : (s : System) × Reach 2 s
one_popped = (
  _,
  by 1 (omega arith)
      (by 1 (omega arith)
        (by 1 (omega arith)
          (by 1 (omega arith)
            (by 1 (omega arith)
              (by 1 (omega arith)
                (by 1 (omega arith)
                  (by 1 (omega arith)
                    (by 1 (omega arith)
                      (by 1 (omega arith)
                        (by 1 (omega arith) (by 1 (omega arith) (two_pushed.1) refl (call_pop)) refl
                          (load_head))
                        refl (load_head_index))
                      refl (some_left (omega arith)))
                    refl (not_read (omega arith)))
                  refl (add_ref))
                refl (pop_win refl))
              refl (pop_here_first (omega arith) refl))
            refl (is_ready refl))
          refl (load_value))
        refl (add_read_first refl))
      refl (drop_ref_last),
)

-- One task was pushed, both threads have counted a reference and one has won.
abbrev race_lost : (s : System) × Reach 2 s
race_lost = (
  _,
  by 1 (omega arith)
      (by 0 (omega arith)
        (by 0 (omega arith)
          (by 0 (omega arith)
            (by 0 (omega arith)
              (by 0 (omega arith)
                (by 0 (omega arith)
                  (by 1 (omega arith)
                    (by 1 (omega arith)
                      (by 1 (omega arith)
                        (by 1 (omega arith)
                          (by 1 (omega arith)
                            (by 1 (omega arith)
                              (by 0 (omega arith)
                                (by 0 (omega arith)
                                  (by 0 (omega arith)
                                    (by 0 (omega arith)
                                      (by 0 (omega arith)
                                        (by 0 (omega arith)
                                          (by 0 (omega arith)
                                            (by 0 (omega arith)
                                              (by 0 (omega arith)
                                                (by 0 (omega arith)
                                                  (by 0 (omega arith)
                                                    (by 0 (omega arith)
                                                      (by 0 (omega arith) (start) refl
                                                        (call_push {v = 5}))
                                                      refl (load_tail))
                                                    refl (load_tail_index))
                                                  refl (push_win refl))
                                                refl (fits (omega arith)))
                                              refl (write_value))
                                            refl (store_ready))
                                          refl (call_pop))
                                        refl (load_head))
                                      refl (load_head_index))
                                    refl (some_left (omega arith)))
                                  refl (not_read (omega arith)))
                                refl (add_ref))
                              refl (call_pop))
                            refl (load_head))
                          refl (load_head_index))
                        refl (some_left (omega arith)))
                      refl (not_read (omega arith)))
                    refl (add_ref))
                  refl (pop_win refl))
                refl (pop_here_first (omega arith) refl))
              refl (is_ready refl))
            refl (load_value))
          refl (add_read_first refl))
        refl (drop_ref_last))
      refl (pop_lose),
)

-- The last task was popped, and the other thread looks for one.
abbrev looking : (s : System) × Reach 2 s
looking = (
  _,
  by 0 (omega arith)
      (by 0 (omega arith)
        (by 0 (omega arith)
          (by 1 (omega arith)
            (by 1 (omega arith)
              (by 1 (omega arith)
                (by 1 (omega arith)
                  (by 1 (omega arith)
                    (by 1 (omega arith)
                      (by 1 (omega arith)
                        (by 1 (omega arith)
                          (by 1 (omega arith)
                            (by 1 (omega arith)
                              (by 1 (omega arith)
                                (by 1 (omega arith)
                                  (by 0 (omega arith)
                                    (by 0 (omega arith)
                                      (by 0 (omega arith)
                                        (by 0 (omega arith)
                                          (by 0 (omega arith)
                                            (by 0 (omega arith)
                                              (by 0 (omega arith) (start) refl (call_push {v = 5}))
                                              refl (load_tail))
                                            refl (load_tail_index))
                                          refl (push_win refl))
                                        refl (fits (omega arith)))
                                      refl (write_value))
                                    refl (store_ready))
                                  refl (call_pop))
                                refl (load_head))
                              refl (load_head_index))
                            refl (some_left (omega arith)))
                          refl (not_read (omega arith)))
                        refl (add_ref))
                      refl (pop_win refl))
                    refl (pop_here_first (omega arith) refl))
                  refl (is_ready refl))
                refl (load_value))
              refl (add_read_first refl))
            refl (drop_ref_last))
          refl (call_pop))
        refl (load_head))
      refl (load_head_index),
)

-- The first thread has taken an index and not yet written its slot.
abbrev writing : (s : System) × Reach 2 s
writing = (
  _,
  by 0 (omega arith)
      (by 0 (omega arith)
        (by 0 (omega arith)
          (by 0 (omega arith) (by 0 (omega arith) (start) refl (call_push {v = 5})) refl
            (load_tail))
          refl (load_tail_index))
        refl (push_win refl))
      refl (fits (omega arith)),
)

two_pushed-tasks : tasks two_pushed.0.mem ≡ 5 ∷ 6 ∷ []
unfolding tasks
two_pushed-tasks = refl

one_popped-tasks : tasks one_popped.0.mem ≡ 6 ∷ []
unfolding tasks
one_popped-tasks = refl

tasks_served_example : serve_all (trace one_popped.1) ≡ some (tasks one_popped.0.mem)
tasks_served_example = tasks_served one_popped.1

pop_value_example : (one_popped.0.mem.value 0 0 ≡ 5) × (0 < 1) × (1 ≤ 2)
pop_value_example = pop_value 1 0 5 one_popped.1 refl

pop_empty_example : tasks looking.0.mem ≡ []
pop_empty_example = pop_empty 0 looking.1 (none_left refl)

slot_bounds_example : (4096 * 0 ≤ 0) × (0 - 4096 * 0 < 4096)
slot_bounds_example = slot_bounds 0 0 0 writing.1 refl

race_lost-IsStuck : IsStuck 0 race_lost.0
race_lost-IsStuck = record { at_head = refl; some_lost = omega arith; none_passed = not_passed }
  where
    not_passed : (i : ℕ) → passed 0 (race_lost.0.pc i) ≡ false
    not_passed i = ground arith

lost_reference_stuck_example : (race_lost.0.mem.head_chunk ≡ 0) × (0 < race_lost.0.mem.ref_count 0)
lost_reference_stuck_example = lost_reference_stuck 0 race_lost.1 race_lost-IsStuck stay

delete_lem_example :
    ((pop_delete_reached 2 (omega arith)).0.mem.counted 7 ≡ true)
    × (7 < (pop_delete_reached 2 (omega arith)).0.mem.head_index)
delete_lem_example =
    delete_lem 0 0 7 (pop_delete_reached 2 (omega arith)).1 (pop_delete_reached 2 (omega arith)).2
      (omega arith) (omega arith)

deleted_chunk_touched_example :
    (s : System) × Reach 2 s × (touches (s.pc 1) ≡ some 0) × (s.mem.freed 0 ≡ true)
deleted_chunk_touched_example = deleted_chunk_touched 2 (omega arith)
