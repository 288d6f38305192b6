-- ===== src/Util/Queue/Inv/Own.antt =====
-- What a move says of the local variables of the thread that makes it, and of those of the others.
use xuanqiong.Base.{ℕ, ◌+◌, ◌-◌, ◌*◌, ◌≤◌, ◌≡◌, ◌≢◌, sym, ap, ◌∙◌, true, arith}
use xuanqiong.Util.Queue.{
  Memory, chunk_size, Pc, Move, call_push, push_win, fits, full, extend_win, extend_lose, push_here,
  push_beyond, none_left, some_left, all_read, no_refs, retire_win, pop_win, pop_here_first,
  pop_here, pop_beyond, is_ready, load_value,
}
use xuanqiong.Util.Queue.Family.{tally_full}
use xuanqiong.Util.Queue.Inv.{Within, Beyond, IsFresh, Inv}

-- The premise of a move.
abbrev pub Guard : {m m' : Memory} {p p' : Pc} → Move m p m' p' → Type 0
Guard {m} (push_win {v} {c} {t} _) = m.tail_index ≡ t
Guard (fits {v} {c} {t} _) = Within c t
Guard (full {v} {c} {t} _) = Beyond c t
Guard {m} (extend_win {v} {c} {t} _) = m.tail_chunk ≡ c
Guard {m} (extend_lose {v} {c} {t} _) = m.tail_chunk ≢ c
Guard (push_here {v} {w} {t} _) = Within w t
Guard (push_beyond {v} {w} {t} _) = Beyond w t
Guard {m} (none_left {c} {h} _) = m.tail_index ≡ h
Guard {m} (some_left {c} {h} _) = m.tail_index ≢ h
Guard {m} (all_read {c} {h} _) = m.read_count c ≡ chunk_size
Guard {m} (no_refs {c} {h} _) = m.ref_count c ≡ 0
Guard {m} (retire_win {c} _) = m.head_chunk ≡ c
Guard {m} (pop_win {c} {h} _) = m.head_index ≡ h
Guard (pop_here_first {c} {r} {h} _ _) = Within r h
Guard (pop_here {c} {r} {h} _ _) = Within r h
Guard (pop_beyond {c} {r} {h} _) = Beyond r h
Guard {m} (is_ready {c} {r} {h} _) = m.ready r (h - chunk_size * r) ≡ true
Guard _ = Unit {0}

pub guard : {m m' : Memory} {p p' : Pc} (mv : Move m p m' p') → Guard mv
guard (push_win g) = g
guard (fits g) = g
guard (full g) = g
guard (extend_win g) = g
guard (extend_lose g) = g
guard (push_here g) = g
guard (push_beyond g) = g
guard (none_left g) = g
guard (some_left g) = g
guard (all_read g) = g
guard (no_refs g) = g
guard (retire_win g) = g
guard (pop_win g) = g
guard (pop_here_first g _) = g
guard (pop_here g _) = g
guard (pop_beyond g) = g
guard (is_ready g) = g
guard _ = tt

module _ {m : Memory} {pc : ℕ → Pc} (inv : Inv m pc) where
  open inv use {order, tail_low, head_low, sound, tallied, counted_below}

  -- Every index of a chunk that was read as often as it has slots was taken by a pop.
  pub read_full : (c : ℕ) → m.read_count c ≡ chunk_size → Beyond c m.head_index
  read_full c e =
      let last = chunk_size * c + 4095 in
      let mark =
        tally_full m.counted (chunk_size * c) chunk_size last (sym (tallied c) ∙ e) (omega arith)
          (omega arith) in
      omega (arith, counted_below last mark)

  -- A ready slot holds the task of its index.
  pub value_at :
      (r h : ℕ)
      → chunk_size * r ≤ h
      → m.ready r (h - chunk_size * r) ≡ true
      → m.value r (h - chunk_size * r) ≡ m.pushed h
  value_at r h l e = (sound r (h - chunk_size * r) e).0 ∙ ap m.pushed (omega arith)

  pub Move-own : {m' : Memory} {p p' : Pc} → Move m p m' p' → IsFresh m p → IsFresh m' p'
  Move-own call_push f = tt
  Move-own (all_read {c} g) f = (f, read_full c g)
  Move-own (load_value {c} {r} {h}) f = (f.0, f.1, value_at r h f.0.0 f.2)
  Move-own mv f = ground (arith, guard mv)
