-- ===== src/Examples/Runtime.antt =====
-- A runtime that keeps the contract: it reads until `next` fails, and writes region by region.
use xuanqiong.Base.{
  ℕ, zero, suc, ◌+◌, ◌-◌, ◌<◌, ◌≡◌, refl, sym, ap, Bool-cases, inl, inr, false, Option, none, some,
  List, [], ◌∷◌, ◌++◌, ◌==◌, length, length-take, length-drop, take, drop, take-append-drop, leb,
  leb→le, min, if◌then◌else◌, arith,
}
use xuanqiong.Util.Input.{InputBuffer, int32_max}
use xuanqiong.Util.Input
use xuanqiong.Util.Input.Inv
use xuanqiong.Util.Input.Stream.{Delivers, next-Delivers}
use xuanqiong.Util.Output.{OutputBuffer, next, fill, back_up}
use xuanqiong.Util.Output.Inv.{IsValid}
use xuanqiong.Util.Output.Write.{fill-next, next_size}
use xuanqiong.Rpc.Codec.{Codec, Header, magic_num, version_num, request}
use xuanqiong.Rpc.Codec.Contract.{Contract, Parsed, ends, hands, Written, nothing, whole, part}

unfoldable pub print_all : ℕ → OutputBuffer → List ℕ → Option OutputBuffer
print_all zero b xs = none
print_all (suc fuel) b [] = some b
print_all (suc fuel) b (x ∷ xs) =
    let (i, size, b') = next b in
    let rest = print_all fuel (fill b' i (take size (x ∷ xs))) (drop size (x ∷ xs)) in
    if leb (length (x ∷ xs)) size
    then some (back_up (fill b' i (x ∷ xs)) (size - length (x ∷ xs)))
    else rest

print_all-Written :
    (fuel : ℕ) (b : OutputBuffer) (xs : List ℕ)
    → IsValid b
    → length xs < fuel
    → (d : OutputBuffer) × (print_all fuel b xs ≡ some d) × Written b xs d
unfolding print_all
print_all-Written zero b xs v h = absurd (omega arith)
print_all-Written (suc fuel) b [] v h = (b, refl, nothing)
print_all-Written (suc fuel) b (x ∷ xs) v h = elim (Bool-cases (leb (length (x ∷ xs)) (next b).1)) [
  | inl fits ↦ (_, rw fits, part (leb→le _ _ fits) refl)
  | inr more ↦
      let n = (next b).1 in
      let some_part = take n (x ∷ xs) in
      let full = all_of (length (x ∷ xs)) n more (length-take n (x ∷ xs)) in
      let (u, w) = fill-next b some_part v full in
      let (d, e, p) =
        print_all-Written fuel (fill (next b).2 (next b).0 some_part) (drop n (x ∷ xs)) w
          (shorter h (next_size b v) (length-drop n (x ∷ xs))) in
      (d, rw more e, whole some_part full p (sym (take-append-drop n (x ∷ xs))))
]
  where
    all_of : {l : ℕ} (m n : ℕ) → leb m n ≡ false → l ≡ min n m → l ≡ n
    all_of m n p e = ground arith

    shorter : {l m n f : ℕ} → suc m < suc f → 0 < n → l ≡ suc m - n → l < f
    shorter h p e = omega arith

abbrev pub Result : Type 0
Result = Option (List ℕ × InputBuffer)

unfoldable pub put : List ℕ → Result → Result
put xs none = none
put xs (some (ys, b)) = some (xs ++ ys, b)

unfoldable pub after : (InputBuffer → Result) → Option (List ℕ) × InputBuffer → Result
after rest (none, b) = some ([], b)
after rest (some xs, b) = put xs (rest b)

unfoldable pub read_all : ℕ → InputBuffer → Result
unfolding after
read_all zero b = none
read_all (suc fuel) b = after (read_all fuel) (Input.next b)

abbrev IsRead : InputBuffer → Result → Type 0
IsRead b r = (xs : List ℕ) × (d : InputBuffer) × (r ≡ some (xs, d)) × Parsed b xs d

after-IsRead :
    (f : InputBuffer → Result) (b : InputBuffer) (r : Option (List ℕ) × InputBuffer)
    → Input.next b ≡ r
    → Delivers b r
    → b.limit < int32_max
    → ((c : InputBuffer) → Inv.IsValid c → c.limit < b.limit → IsRead c (f c))
    → IsRead b (after f r)
unfolding after put
after-IsRead f b (none, c) e t h ih = ([], c, refl, ends (ap (λ z. z.0) e) (sym (ap (λ z. z.1) e)))
after-IsRead f b (some xs, c) e t h ih =
    let less : c.limit < b.limit = ground (arith, t.1, t.3) in
    let (ys, d, g, p) = ih c t.5 less in
    (xs ++ ys, d, rw g refl, hands (ap (λ z. z.0) e) (rw (ap (λ z. z.1) e) p) refl)

read_all-IsRead :
    (fuel : ℕ) (b : InputBuffer)
    → Inv.IsValid b
    → b.limit < int32_max
    → b.limit < fuel
    → IsRead b (read_all fuel b)
unfolding read_all
read_all-IsRead zero b v h k = absurd (omega arith)
read_all-IsRead (suc fuel) b v h k =
    after-IsRead (read_all fuel) b (Input.next b) refl (next-Delivers b v) h
      (λ c w l. read_all-IsRead fuel c w (omega arith) (omega arith))

-- Its messages: a header is the byte 3 and the id of a request to one service.
abbrev pub echo_header : ℕ → Header
echo_header n = record {
  magic = magic_num;
  version = version_num;
  message_type = request;
  request_id = n;
  service_name = "Echo";
  method_name = "echo";
}

abbrev pub parse : List ℕ → Option Header
parse (m ∷ n ∷ []) = if m == 3 then some (echo_header n) else none
parse _ = none

abbrev pub codec : Codec
codec = record {
  parse_header = parse;
  print_header = λ h. 3 ∷ h.request_id ∷ [];
  read_stream = λ b. read_all (b.limit + 1) b;
  write_stream = λ b xs. print_all (length xs + 1) b xs;
}

pub contract : Contract codec
contract = record {
  reads = λ b v h. read_all-IsRead (b.limit + 1) b v h (omega arith);
  writes = λ b xs v. print_all-Written (length xs + 1) b xs v (omega arith);
}
