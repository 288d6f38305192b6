-- ===== src/Examples/Input.antt =====
-- The read buffer at concrete inputs.
use xuanqiong.Base.{ℕ, ◌+◌, ◌≤◌, ◌<◌, ◌≡◌, refl, true, some, List, [], ◌∷◌, length, arith}
use xuanqiong.Base.Int.{pos}
use xuanqiong.Util.Input.{
  InputBuffer, Copy, int32_max, get_buffer, fill, recv_add, unread, next, back_up, fetch_uint32,
  skip, push_limit, pop_limit,
}
use xuanqiong.Util.Input.Inv.{IsValid}
use xuanqiong.Util.Input.Recv.{recv_add-fill}
use xuanqiong.Util.Input.Drain.{drain, drain-push_limit}
use xuanqiong.Util.Input.Stream.{Delivers, next-Delivers, back_up-next}
use xuanqiong.Util.Input.Fetch.{copied}
use xuanqiong.Util.Input.Straddle.{fetch_uint32_split_corrupts}
use xuanqiong.Util.Input.Skip.{skip_lem}
use xuanqiong.Examples.Data.{two_read, two_read-IsValid, split, split-IsValid}

abbrev xs : List ℕ
xs = 7 ∷ 8 ∷ []

recv_add-fill_example :
    let b = recv_add (fill two_read (get_buffer two_read).0 xs) (pos 2) in
    (unread b ≡ 3 ∷ 4 ∷ 5 ∷ 6 ∷ 7 ∷ 8 ∷ []) × IsValid b
unfolding get_buffer
recv_add-fill_example = recv_add-fill two_read xs two_read-IsValid (omega arith)

drain-push_limit_example :
    (b : InputBuffer) × (drain 4 (push_limit two_read 3) ≡ some (3 ∷ 4 ∷ 5 ∷ [], b))
    × (unread (pop_limit b) ≡ 6 ∷ [])
    × ((pop_limit b).limit ≡ int32_max)
    × IsValid (pop_limit b)
drain-push_limit_example =
    drain-push_limit two_read 3 4 two_read-IsValid (omega arith) (omega arith)

next-Delivers_example : Delivers two_read (next two_read)
next-Delivers_example = next-Delivers two_read two_read-IsValid

back_up-next_example :
    let b = (next two_read).1 in (unread (back_up b 1) ≡ 6 ∷ unread b) × IsValid (back_up b 1)
unfolding next
back_up-next_example =
    back_up-next two_read (3 ∷ 4 ∷ 5 ∷ 6 ∷ []) 1 two_read-IsValid refl (omega arith) (omega arith)

fetch_uint32_split_corrupts_example :
    (copies : List Copy) × (b' : InputBuffer) × (fetch_uint32 split ≡ some (true, copies, b'))
    × (length (unread split) ≡ 4 + length (unread b'))
    × (copied (λ _. 0) copies 2 ≡ 0)
    × ((o : ℕ) × (xs ys : List ℕ) × (copies ≡ (0, xs) ∷ (o, ys) ∷ []) × (4 ≤ o) × (0 < length ys))
fetch_uint32_split_corrupts_example =
    fetch_uint32_split_corrupts split (λ _. 0) 2 split-IsValid (omega arith) (omega arith)
      (omega arith)

skip_lem_example :
    (b' : InputBuffer) × (skip 3 two_read 2 ≡ some (true, b'))
    × (unread b' ≡ 5 ∷ 6 ∷ [])
    × IsValid b'
skip_lem_example =
    skip_lem 3 two_read 2 two_read-IsValid (omega arith) (omega arith) (omega arith) (omega arith)
