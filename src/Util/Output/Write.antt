-- ===== src/Util/Output/Write.antt =====
-- Writing: `append`, and `next` with a write and a `back_up`, put bytes behind the unsent ones.
use xuanqiong.Base.{
  ℕ, zero, suc, ◌+◌, ◌-◌, ◌%◌, ◌^◌, ◌≤◌, ◌<◌, ◌≡◌, refl, sym, ap, ◌∙◌, some, List, [], ◌∷◌, ◌++◌,
  append-nil, append_assoc, arith, length, take, drop, take-append-drop, length-take, length-drop,
  min,
}
use xuanqiong.Base.Words.{add64, sub64, sub64-add64}
use xuanqiong.Util.Block.{
  block_size, extended, stored-extended, last_of-begin-le, last_of-end-le, last_of-set_last,
  first_set-set_last, later_set-set_last,
}
use xuanqiong.Util.Output.{
  OutputBuffer, last_block, with_last, ensure_room, unsent, append_step, append_loop, append, next,
  fill, back_up,
}
use xuanqiong.Util.Output.Inv.{
  IsLinked, IsValid, IsLinked-with_counters, grown_chain, ensure_room_lem, ensure_room-counters,
  counted_grown,
}

-- The last block extended by bytes that fit.
extended_chain :
    (b : OutputBuffer) (xs : List ℕ)
    → IsLinked b
    → (last_block b).end + length xs ≤ block_size
    → (unsent (with_last b (extended (last_block b) xs)) ≡ unsent b ++ xs)
      × IsLinked (with_last b (extended (last_block b) xs))
extended_chain b xs v h =
    grown_chain b (extended (last_block b) xs) xs v refl refl h
      (stored-extended (last_block b) xs (last_of-begin-le b.cur b.later v.linked v.started))

append_step_lem :
    (b : OutputBuffer) (xs : List ℕ)
    → IsValid b
    → let part = take (block_size - (last_block b).end) xs in
      (unsent (append_step b xs) ≡ unsent b ++ part)
      × IsValid (append_step b xs)
      × ((last_block (append_step b xs)).end < block_size)
unfolding append_step
append_step_lem b xs v =
    let part = take (block_size - (last_block b).end) xs in
    let c = with_last b (extended (last_block b) part) in
    let d = record c { to_write_bytes = add64 c.to_write_bytes (length part) } in
    let (e, w) =
      extended_chain b part v.chain (fits (last_of-end-le b.cur b.later v.chain.linked)) in
    let (e', w', r) = ensure_room_lem d (IsLinked-with_counters c _ _ w) in
    (
      e' ∙ e,
      record {
        chain = w';
        counted =
            (ensure_room-counters d).0
            ∙ counted_grown b.to_write_bytes (unsent b) (unsent (ensure_room d)) part v.counted
                (e' ∙ e);
      },
      r,
    )
  where
    fits :
        (last_block b).end ≤ block_size
        → (last_block b).end + length (take (block_size - (last_block b).end) xs) ≤ block_size
    fits h = omega (arith, length-take (block_size - (last_block b).end) xs)

-- The loop returns with `xs` behind the unsent bytes.
abbrev Appends : ℕ → OutputBuffer → List ℕ → Type 0
Appends fuel b xs =
    (b' : OutputBuffer) × (append_loop fuel b xs ≡ some b')
    × (unsent b' ≡ unsent b ++ xs)
    × IsValid b'

append_loop-cons :
    (fuel : ℕ) (b : OutputBuffer) (x : ℕ) (xs : List ℕ)
    → IsValid b
    → Appends fuel (append_step b (x ∷ xs)) (drop (block_size - (last_block b).end) (x ∷ xs))
    → Appends (suc fuel) b (x ∷ xs)
unfolding append_loop
append_loop-cons fuel b x xs v (c, g, u, w) =
    let n = block_size - (last_block b).end in
    (
      c,
      g,
      u
          ∙ ap (λ t. t ++ drop n (x ∷ xs)) (append_step_lem b (x ∷ xs) v).0
          ∙ append_assoc (unsent b) (take n (x ∷ xs)) (drop n (x ∷ xs))
          ∙ ap (λ t. unsent b ++ t) (take-append-drop n (x ∷ xs)),
      w,
    )

-- From a state whose last block has room, every round takes a byte at least.
append_loop_room :
    (fuel : ℕ) (b : OutputBuffer) (xs : List ℕ)
    → IsValid b
    → (last_block b).end < block_size
    → length xs < fuel
    → Appends fuel b xs
unfolding append_loop
append_loop_room zero b xs v r h = absurd (omega arith)
append_loop_room (suc fuel) b [] v r h = (b, refl, sym (append-nil (unsent b)), v)
append_loop_room (suc fuel) b (x ∷ xs) v r h =
    let n = block_size - (last_block b).end in
    let s = append_step_lem b (x ∷ xs) v in
    append_loop-cons fuel b x xs v (
      append_loop_room fuel (append_step b (x ∷ xs)) (drop n (x ∷ xs)) s.1 s.2
        (shorter r h (length-drop n (x ∷ xs))))
  where
    shorter :
        {l m e : ℕ} → e < block_size → suc m < suc fuel → l ≡ suc m - (block_size - e) → l < fuel
    shorter r h e = omega arith

-- The first round may find the last block full and take none.
append_loop_lem :
    (fuel : ℕ) (b : OutputBuffer) (xs : List ℕ)
    → IsValid b
    → length xs < fuel
    → Appends (suc fuel) b xs
unfolding append_loop
append_loop_lem fuel b [] v h = (b, refl, sym (append-nil (unsent b)), v)
append_loop_lem fuel b (x ∷ xs) v h =
    let n = block_size - (last_block b).end in
    let s = append_step_lem b (x ∷ xs) v in
    append_loop-cons fuel b x xs v (
      append_loop_room fuel (append_step b (x ∷ xs)) (drop n (x ∷ xs)) s.1 s.2
        (omega (arith, length-drop n (x ∷ xs))))

-- For a valid write buffer: `append` returns, having put the bytes behind the unsent ones, and
-- the buffer is valid.
pub append_lem :
    (b : OutputBuffer) (xs : List ℕ)
    → IsValid b
    → (b' : OutputBuffer) × (append b xs ≡ some b') × (unsent b' ≡ unsent b ++ xs) × IsValid b'
unfolding append
append_lem b xs v =
    let e : length xs + 2 ≡ suc (length xs + 1) = omega arith in
    rw e (append_loop_lem (length xs + 1) b xs v (omega arith))

-- A region of `next` at `d`, written and given back past `xs`, is the last block extended by `xs`.
region_lem :
    (d : OutputBuffer) (xs : List ℕ)
    → (last_block d).end + length xs ≤ block_size
    → let l = last_block d in
      let size = block_size - l.end in
      let b' = record (with_last d (record l { end = l.end + size })) {
        to_write_bytes = add64 d.to_write_bytes size;
        total_bytes = add64 d.total_bytes size;
      } in
      back_up (fill b' l.end xs) (size - length xs) ≡ record (with_last d (extended l xs)) {
        to_write_bytes = sub64 (add64 d.to_write_bytes size) (size - length xs);
        total_bytes = sub64 (add64 d.total_bytes size) (size - length xs);
      }
unfolding fill back_up
region_lem d xs h =
    let l = last_block d in
    let size = block_size - l.end in
    let m : min (size - length xs) (l.end + size) ≡ size - length xs = omega arith in
    let e : l.end + size - (size - length xs) ≡ l.end + length xs = omega arith in
    simp (last_of-set_last, first_set-set_last, later_set-set_last, m, e)

-- For a valid write buffer and bytes that fit into the region that `next` offers, which is not
-- empty: written from its start, and with the unused part given back by `back_up`, they stand
-- behind the unsent ones, and the buffer is valid.
pub back_up-fill-next :
    (b : OutputBuffer) (xs : List ℕ)
    → IsValid b
    → length xs ≤ (next b).1
    → let (i, size, b') = next b in
      let b'' = back_up (fill b' i xs) (size - length xs) in
      (0 < size) × (unsent b'' ≡ unsent b ++ xs) × IsValid b''
unfolding next
back_up-fill-next b xs v h =
    let d = ensure_room b in
    let (e, w, r) = ensure_room_lem b v.chain in
    let size = block_size - (last_block d).end in
    let (e', w') = extended_chain d xs w (omega arith) in
    let counters = ensure_room-counters b in
    rw (region_lem d xs (omega arith)) (
      omega arith,
      e' ∙ ap (λ t. t ++ xs) e,
      record {
        chain =
            IsLinked-with_counters (with_last d (extended (last_block d) xs))
              (sub64 (add64 d.to_write_bytes size) (size - length xs))
              (sub64 (add64 d.total_bytes size) (size - length xs)) w';
        counted =
            sub64-add64 d.to_write_bytes size (length xs) (omega arith) (omega arith)
            ∙ counted_grown d.to_write_bytes (unsent d)
                (unsent (with_last d (extended (last_block d) xs))) xs
                (counters.0 ∙ v.counted ∙ ap (λ t. length t % 2 ^ 64) (sym e)) e';
      },
    )

-- A region of `next` at `d` that is filled is the last block extended by what fills it.
region_full :
    (d : OutputBuffer) (xs : List ℕ)
    → (last_block d).end + length xs ≡ block_size
    → let l = last_block d in
      let size = block_size - l.end in
      let b' = record (with_last d (record l { end = l.end + size })) {
        to_write_bytes = add64 d.to_write_bytes size;
        total_bytes = add64 d.total_bytes size;
      } in
      fill b' l.end xs ≡ record (with_last d (extended l xs)) {
        to_write_bytes = add64 d.to_write_bytes (length xs);
        total_bytes = add64 d.total_bytes (length xs);
      }
unfolding fill
region_full d xs h =
    let l = last_block d in
    let e : block_size - l.end ≡ length xs = omega arith in
    simp (last_of-set_last, first_set-set_last, later_set-set_last, e)

-- A region from `next` that is filled holds its bytes behind the unsent ones.
pub fill-next :
    (b : OutputBuffer) (xs : List ℕ)
    → IsValid b
    → length xs ≡ (next b).1
    → let (i, size, b') = next b in
      (unsent (fill b' i xs) ≡ unsent b ++ xs) × IsValid (fill b' i xs)
unfolding next
fill-next b xs v h =
    let d = ensure_room b in
    let (e, w, r) = ensure_room_lem b v.chain in
    let (e', w') = extended_chain d xs w (omega arith) in
    let counters = ensure_room-counters b in
    rw (region_full d xs (omega arith)) (
      e' ∙ ap (λ t. t ++ xs) e,
      record {
        chain =
            IsLinked-with_counters (with_last d (extended (last_block d) xs))
              (add64 d.to_write_bytes (length xs)) (add64 d.total_bytes (length xs)) w';
        counted =
            counted_grown d.to_write_bytes (unsent d)
              (unsent (with_last d (extended (last_block d) xs))) xs
              (counters.0 ∙ v.counted ∙ ap (λ t. length t % 2 ^ 64) (sym e)) e';
      },
    )

-- `next` always offers a byte at least.
pub next_size : (b : OutputBuffer) → IsValid b → 0 < (next b).1
unfolding next
next_size b v = let (e, w, r) = ensure_room_lem b v.chain in omega arith
