-- ===== src/Util/Block.antt =====
-- util/buffer_block.h: a block of a buffer, and chains of blocks linked by `next`.
-- A chain is its first block and the list of those that follow through `next`; the pointer
-- `last_block_` of either buffer always names the chain's last block.
use xuanqiong.Base.{
  ℕ, ◌+◌, ◌-◌, ◌≤◌, ◌≡◌, refl, ap, ap₂, ◌∙◌, sym, List, [], ◌∷◌, ◌++◌, append-nil, append_assoc,
  arith, length,
}
use xuanqiong.Base.Memory.{slice, store, slice-store, slice-store_below, slice-add, length-slice}

-- kBlockSize
abbrev pub block_size : ℕ
block_size = 8192

-- `BufferBlock`: bytes [begin, end) of `memory` are in use. (`next` is the chain's order.)
pub record BufferBlock : Type 0 where
  pub begin : ℕ
  pub end : ℕ
  pub memory : ℕ → ℕ

-- `new BufferBlock`. Its bytes are indeterminate in the source; none is read before it is written.
abbrev pub new_block : BufferBlock
new_block = record { begin = 0; end = 0; memory = λ _. 0 }

-- The bytes in use of a block, and of a chain.
abbrev pub stored : BufferBlock → List ℕ
stored c = slice c.memory c.begin (c.end - c.begin)

abbrev pub pending : List BufferBlock → List ℕ
pending [] = []
pending (c ∷ cs) = stored c ++ pending cs

-- The block that `last_block_` names.
abbrev pub last_of : BufferBlock → List BufferBlock → BufferBlock
last_of c [] = c
last_of c (x ∷ xs) = last_of x xs

-- The chain after a change of its last block.
abbrev pub set_last : BufferBlock → List BufferBlock → BufferBlock → List BufferBlock
set_last c [] b = b ∷ []
set_last c (x ∷ xs) b = c ∷ set_last x xs b

-- The same, apart: its first block, and what follows.
abbrev pub first_set : BufferBlock → List BufferBlock → BufferBlock → BufferBlock
first_set c [] b = b
first_set c (x ∷ xs) b = c

abbrev pub later_set : List BufferBlock → BufferBlock → List BufferBlock
later_set [] b = []
later_set (x ∷ xs) b = first_set x xs b ∷ later_set xs b

-- Every block but the last is full, and only the first can be partly consumed.
abbrev pub Linked : BufferBlock → List BufferBlock → Type 0
Linked c [] = c.end ≤ block_size
Linked c (x ∷ xs) = (c.end ≡ block_size) × (x.begin ≡ 0) × Linked x xs

pub pending-append : (cs ds : List BufferBlock) → pending (cs ++ ds) ≡ pending cs ++ pending ds
pending-append [] ds = refl
pending-append (c ∷ cs) ds =
    ap (λ t. stored c ++ t) (pending-append cs ds)
    ∙ sym (append_assoc (stored c) (pending cs) (pending ds))

-- A chain whose last block is extended by `ys` holds those bytes after the others.
pub pending-set_last :
    (c : BufferBlock) (xs : List BufferBlock) (b : BufferBlock) (ys : List ℕ)
    → stored b ≡ stored (last_of c xs) ++ ys
    → pending (first_set c xs b ∷ later_set xs b) ≡ pending (c ∷ xs) ++ ys
pending-set_last c [] b ys e =
    ap (λ t. t ++ []) e
    ∙ append-nil (stored c ++ ys)
    ∙ ap (λ t. t ++ ys) (sym (append-nil (stored c)))
pending-set_last c (x ∷ xs) b ys e =
    ap (λ t. stored c ++ t) (pending-set_last x xs b ys e)
    ∙ sym (append_assoc (stored c) (pending (x ∷ xs)) ys)

pub last_of-set_last :
    (c : BufferBlock) (xs : List BufferBlock) (b : BufferBlock)
    → last_of (first_set c xs b) (later_set xs b) ≡ b
last_of-set_last c [] b = refl
last_of-set_last c (x ∷ xs) b = last_of-set_last x xs b

pub last_of-append :
    (c : BufferBlock) (xs : List BufferBlock) (b : BufferBlock) → last_of c (xs ++ b ∷ []) ≡ b
last_of-append c [] b = refl
last_of-append c (x ∷ xs) b = last_of-append x xs b

pub Linked-set_last :
    (c : BufferBlock) (xs : List BufferBlock) (b : BufferBlock)
    → Linked c xs
    → b.begin ≡ (last_of c xs).begin
    → b.end ≤ block_size
    → Linked (first_set c xs b) (later_set xs b)
Linked-set_last c [] b l e h = h
Linked-set_last c (x ∷ []) b l e h = (l.0, e ∙ l.1, h)
Linked-set_last c (x ∷ y ∷ ys) b l e h = (l.0, l.1, Linked-set_last x (y ∷ ys) b l.2 e h)

pub Linked-append :
    (c : BufferBlock) (xs : List BufferBlock)
    → Linked c xs
    → (last_of c xs).end ≡ block_size
    → Linked c (xs ++ new_block ∷ [])
Linked-append c [] l e = (e, refl, omega arith)
Linked-append c (x ∷ xs) l e = (l.0, l.1, Linked-append x xs l.2 e)

pub last_of-end-le :
    (c : BufferBlock) (xs : List BufferBlock) → Linked c xs → (last_of c xs).end ≤ block_size
last_of-end-le c [] l = l
last_of-end-le c (x ∷ xs) l = last_of-end-le x xs l.2

pub last_of-begin-le :
    (c : BufferBlock) (xs : List BufferBlock)
    → Linked c xs
    → c.begin ≤ c.end
    → (last_of c xs).begin ≤ (last_of c xs).end
last_of-begin-le c [] l h = h
last_of-begin-le c (x ∷ xs) l h = last_of-begin-le x xs l.2 (let e = l.1 in omega arith)

-- A block after memcpy to its end and `end += n` holds the copied bytes after its own.
abbrev pub extended : BufferBlock → List ℕ → BufferBlock
extended b xs = record b { memory = store b.memory b.end xs; end = b.end + length xs }

pub stored-extended :
    (b : BufferBlock) (xs : List ℕ) → b.begin ≤ b.end → stored (extended b xs) ≡ stored b ++ xs
stored-extended b xs h =
    ap (slice (store b.memory b.end xs) b.begin) {y = (b.end - b.begin) + length xs} (omega arith)
    ∙ slice-add (store b.memory b.end xs) b.begin (b.end - b.begin) (length xs)
    ∙ ap (λ t. t ++ slice (store b.memory b.end xs) (b.begin + (b.end - b.begin)) (length xs))
        (slice-store_below b.memory b.end xs b.begin (b.end - b.begin) (omega arith))
    ∙ ap (λ k. stored b ++ slice (store b.memory b.end xs) k (length xs)) {y = b.end} (omega arith)
    ∙ ap (λ t. stored b ++ t) (slice-store b.memory b.end xs)

pub length-stored : (b : BufferBlock) → length (stored b) ≡ b.end - b.begin
length-stored b = length-slice b.memory b.begin (b.end - b.begin)

-- A second change of the last block replaces the first.
pub first_set-set_last :
    (c : BufferBlock) (xs : List BufferBlock) (a b : BufferBlock)
    → first_set (first_set c xs a) (later_set xs a) b ≡ first_set c xs b
first_set-set_last c [] a b = refl
first_set-set_last c (x ∷ xs) a b = refl

pub later_set-set_last :
    (xs : List BufferBlock) (a b : BufferBlock) → later_set (later_set xs a) b ≡ later_set xs b
later_set-set_last [] a b = refl
later_set-set_last (x ∷ xs) a b = ap₂ ◌∷◌ (first_set-set_last x xs a b) (later_set-set_last xs a b)

-- The first block keeps its start, and its end does not fall, when the last block grows.
pub first_set_bounds :
    (c : BufferBlock) (xs : List BufferBlock) (b : BufferBlock)
    → b.begin ≡ (last_of c xs).begin
    → (last_of c xs).end ≤ b.end
    → ((first_set c xs b).begin ≡ c.begin) × (c.end ≤ (first_set c xs b).end)
first_set_bounds c [] b e h = (e, h)
first_set_bounds c (x ∷ xs) b e h = (refl, omega arith)

-- A new block holds nothing.
pub pending-add_block : (cs : List BufferBlock) → pending (cs ++ new_block ∷ []) ≡ pending cs
pending-add_block cs = pending-append cs (new_block ∷ []) ∙ append-nil (pending cs)

-- Taking `k` of its bytes off the first block takes them off the front of the chain.
pub pending-advance :
    (c : BufferBlock) (cs : List BufferBlock) (k : ℕ)
    → k ≤ c.end - c.begin
    → pending (c ∷ cs) ≡ slice c.memory c.begin k ++ pending (record c { begin = c.begin + k } ∷ cs)
pending-advance c cs k h =
    ap (λ t. t ++ pending cs)
      (ap (slice c.memory c.begin) {y = k + (c.end - (c.begin + k))} (omega arith)
        ∙ slice-add c.memory c.begin k (c.end - (c.begin + k)))
    ∙ append_assoc (slice c.memory c.begin k) (slice c.memory (c.begin + k) (c.end - (c.begin + k)))
        (pending cs)

pub stored_nil : (c : BufferBlock) → c.end ≤ c.begin → stored c ≡ []
stored_nil c h = ap (slice c.memory c.begin) {y = 0} (omega arith)

-- Putting the last block back changes nothing.
pub first_set-last_of :
    (c : BufferBlock) (xs : List BufferBlock) → first_set c xs (last_of c xs) ≡ c
first_set-last_of c [] = refl
first_set-last_of c (x ∷ xs) = refl

pub later_set-last_of : (c : BufferBlock) (xs : List BufferBlock) → later_set xs (last_of c xs) ≡ xs
later_set-last_of c [] = refl
later_set-last_of c (x ∷ xs) = ap₂ ◌∷◌ (first_set-last_of x xs) (later_set-last_of x xs)
