-- ===== src/Util/Input/Recv.antt =====
-- Receiving: what is written at `get_buffer` and counted by `recv_add` becomes readable.
use xuanqiong.Base.{
  suc, ==_iff, Bool-cases, lt→ltb, append-nil, ℕ, ◌+◌, ◌-◌, ◌%◌, ◌^◌, ◌≤◌, ◌<◌, ◌≡◌, refl, sym, ap,
  ◌∙◌, inl, inr, List, [], ◌∷◌, ◌++◌, arith, length, length-append, ◌==◌, if◌then◌else◌,
}
use xuanqiong.Base.Memory.{store, slice-store_below, store-store, store-nil}
use xuanqiong.Base.Words.{add64, add64_count}
use xuanqiong.Base.Int.{pos}
use xuanqiong.Util.Block.{
  BufferBlock, block_size, stored, extended, first_set-set_last, later_set-set_last,
  pending-set_last, last_of-set_last, last_of-append, Linked-set_last, Linked-append,
  last_of-end-le, last_of-begin-le, stored-extended, first_set, later_set, new_block,
  first_set-last_of, later_set-last_of, first_set_bounds, pending-add_block,
}
use xuanqiong.Util.Input.{
  InputBuffer, get_buffer, fill, recv_add, received, unread, last_block, with_last, add_block,
}
use xuanqiong.Util.Input.Inv.{IsLinked, IsValid}

-- The state once `xs` lies at the end of the last block and is counted there.
abbrev grown : InputBuffer → List ℕ → InputBuffer
grown b xs = record (with_last b (extended (last_block b) xs)) {
  read_bytes = add64 b.read_bytes (length xs);
}

received-fill :
    (b : InputBuffer) (xs : List ℕ)
    → received (fill b (last_block b).end xs) (length xs) ≡ (
        if (last_block b).end + length xs == block_size then add_block (grown b xs) else grown b xs)
unfolding received fill
received-fill b xs = rw (last_of-set_last, first_set-set_last, later_set-set_last)

-- The chain once its last block is replaced by one that holds `xs` after the old bytes.
grown_chain :
    (b : InputBuffer) (l : BufferBlock) (xs : List ℕ)
    → IsValid b
    → l.begin ≡ (last_block b).begin
    → l.end ≡ (last_block b).end + length xs
    → l.end < block_size
    → stored l ≡ stored (last_block b) ++ xs
    → (unread (with_last b l) ≡ unread b ++ xs) × IsLinked (with_last b l)
grown_chain b l xs v e f r g =
    let (k, m) = first_set_bounds b.cur b.later l e (omega arith) in
    let s = v.chain.started in
    let p = v.chain.partly in
    (
      pending-set_last b.cur b.later l xs g,
      record {
        linked = Linked-set_last b.cur b.later l v.chain.linked e (omega arith);
        room = rw (last_of-set_last b.cur b.later l) r;
        started = omega arith;
        partly = omega arith;
      },
    )

-- The same where the last block is now full, and a new one was linked behind it.
filled_chain :
    (b : InputBuffer) (l : BufferBlock) (xs : List ℕ)
    → IsValid b
    → l.begin ≡ (last_block b).begin
    → l.end ≡ (last_block b).end + length xs
    → l.end ≡ block_size
    → stored l ≡ stored (last_block b) ++ xs
    → (unread (add_block (with_last b l)) ≡ unread b ++ xs) × IsLinked (add_block (with_last b l))
filled_chain b l xs v e f r g =
    let c = first_set b.cur b.later l in
    let cs = later_set b.later l in
    let (k, m) = first_set_bounds b.cur b.later l e (omega arith) in
    let s = v.chain.started in
    let p = v.chain.partly in
    (
      pending-add_block (c ∷ cs) ∙ pending-set_last b.cur b.later l xs g,
      record {
        linked =
            Linked-append c cs (Linked-set_last b.cur b.later l v.chain.linked e (omega arith))
              (rw (last_of-set_last b.cur b.later l) r);
        room = rw (last_of-append c cs new_block) (omega arith);
        started = omega arith;
        partly = omega arith;
      },
    )

count_grown :
    (r : ℕ) (us vs xs : List ℕ)
    → r ≡ length us % 2 ^ 64
    → vs ≡ us ++ xs
    → add64 r (length xs) ≡ length vs % 2 ^ 64
count_grown r us vs xs h e =
    omega (arith, ap length e, length-append us xs, add64_count (length us) (length xs))

-- A write of nothing changes no byte in use.
fill_nothing :
    (b : InputBuffer)
    → IsValid b
    → (unread (fill b (last_block b).end []) ≡ unread b) × IsValid (fill b (last_block b).end [])
unfolding fill
fill_nothing b v =
    let l = last_block b in
    let s = last_of-begin-le b.cur b.later v.chain.linked v.chain.started in
    let (e, w) =
      grown_chain b (record l { memory = store l.memory l.end [] }) [] v refl (omega arith)
        v.chain.room
        (slice-store_below l.memory l.end [] l.begin (l.end - l.begin) (omega arith)
          ∙ sym (append-nil (stored l))) in
    let e' = e ∙ append-nil (unread b) in
    (e', record { chain = w; counted = v.counted ∙ ap (λ t. length t % 2 ^ 64) (sym e') })

grown_lem :
    (b : InputBuffer) (xs : List ℕ)
    → IsValid b
    → length xs ≤ (get_buffer b).1
    → (unread (received (fill b (last_block b).end xs) (length xs)) ≡ unread b ++ xs)
      × IsValid (received (fill b (last_block b).end xs) (length xs))
unfolding get_buffer
grown_lem b xs v h =
    rw (received-fill b xs) elim (Bool-cases ((last_block b).end + length xs == block_size)) [
      | inl full ↦ rw full (done (filled_chain b l xs v refl refl ((==_iff _ _).0 full) grows))
      | inr part ↦ rw part (
          done (
            grown_chain b l xs v refl refl
              (ground (arith, last_of-end-le b.cur b.later v.chain.linked)) grows))
    ]
  where
    l : BufferBlock
    l = extended (last_block b) xs

    grows : stored l ≡ stored (last_block b) ++ xs
    grows =
        stored-extended (last_block b) xs
          (last_of-begin-le b.cur b.later v.chain.linked v.chain.started)

    done :
        {g : InputBuffer}
        → (unread g ≡ unread b ++ xs) × IsLinked g
        → let g' = record g { read_bytes = add64 b.read_bytes (length xs) } in
          (unread g' ≡ unread b ++ xs) × IsValid g'
    done {g} (e, w) = (
      e,
      record {
        chain = record { linked = w.linked; room = w.room; started = w.started; partly = w.partly };
        counted = count_grown b.read_bytes (unread b) (unread g) xs v.counted e;
      },
    )

-- For a valid read buffer: bytes written where `get_buffer` says, no more than it allows, and
-- counted by `recv_add`, stand behind what was unread before, and the buffer is valid.
pub recv_add-fill :
    (b : InputBuffer) (xs : List ℕ)
    → IsValid b
    → length xs ≤ (get_buffer b).1
    → let b' = recv_add (fill b (get_buffer b).0 xs) (pos (length xs)) in
      (unread b' ≡ unread b ++ xs) × IsValid b'
unfolding recv_add get_buffer
recv_add-fill b [] v h = let (e, w) = fill_nothing b v in (e ∙ sym (append-nil (unread b)), w)
recv_add-fill b (x ∷ xs) v h =
    rw (lt→ltb 0 (suc (length xs)) (omega arith)) (grown_lem b (x ∷ xs) v h)

-- Writes one right after the other are one write; a write of nothing is none.
pub fill-fill :
    (b : InputBuffer) (i : ℕ) (xs ys : List ℕ)
    → fill (fill b i xs) (i + length xs) ys ≡ fill b i (xs ++ ys)
unfolding fill
fill-fill b i xs ys = simp (last_of-set_last, first_set-set_last, later_set-set_last, store-store)

pub fill-nil : (b : InputBuffer) (i : ℕ) → fill b i [] ≡ b
unfolding fill
fill-nil b i = simp store-nil (λ j. record b {
  cur = first_set-last_of b.cur b.later j;
  later = later_set-last_of b.cur b.later j;
})
