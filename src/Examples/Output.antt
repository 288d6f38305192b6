-- ===== src/Examples/Output.antt =====
-- The write buffer and the controller at concrete inputs.
use xuanqiong.Base.{ℕ, ◌≡◌, some, List, [], ◌∷◌, arith}
use xuanqiong.Base.Int.{pos}
use xuanqiong.Util.Output.{OutputBuffer, append, send_add, unsent}
use xuanqiong.Util.Output.Inv.{IsValid}
use xuanqiong.Util.Output.Write.{append_lem}
use xuanqiong.Util.Output.Send.{send_add_lem}
use xuanqiong.Examples.Data.{three_unsent, three_unsent-IsValid}

abbrev xs : List ℕ
xs = 7 ∷ 8 ∷ []

append_lem_example :
    (b : OutputBuffer) × (append three_unsent xs ≡ some b)
    × (unsent b ≡ 2 ∷ 3 ∷ 4 ∷ 7 ∷ 8 ∷ [])
    × IsValid b
append_lem_example = append_lem three_unsent xs three_unsent-IsValid

-- A block with room for two bytes.
abbrev two_free : OutputBuffer
two_free = record three_unsent {
  to_write_bytes = 2;
  cur = record { begin = 8188; end = 8190; memory = λ i. i };
}

two_free-IsValid : IsValid two_free
two_free-IsValid = record {
  chain = record { linked = omega arith; started = omega arith; partly = omega arith };
  counted = omega arith;
}

send_add_lem_example :
    (b : OutputBuffer) × (send_add 3 three_unsent (pos 2) ≡ some b)
    × (unsent b ≡ 4 ∷ [])
    × IsValid b
send_add_lem_example =
    send_add_lem 3 three_unsent 2 three_unsent-IsValid (omega arith) (omega arith)
