-- ===== src/Rpc/Exchange/Table.antt =====
-- client/client_channel.cc: what calls and their responses make of `id2session_`.
use xuanqiong.Base.{ℕ, suc, ◌<◌, ◌≡◌, refl, sym, ap, ◌∙◌, List, [], ◌∷◌, arith}
use xuanqiong.Rpc.Client.{Session, erase, assign}
use xuanqiong.Rpc.Client.Replies.{Reply, settled}

-- Every key is less.
abbrev pub AllBelow : ℕ → List (ℕ × Session) → Type 0
AllBelow n [] = Unit {0}
AllBelow n ((k, s) ∷ ss) = (k < n) × AllBelow n ss

pub erase-absent : (n : ℕ) (ss : List (ℕ × Session)) → AllBelow n ss → erase n ss ≡ ss
unfolding erase
erase-absent n [] a = refl
erase-absent n ((k, s) ∷ ss) a = ground (arith, erase-absent n ss a.1, a.0)

pub AllBelow-suc : (n : ℕ) (ss : List (ℕ × Session)) → AllBelow n ss → AllBelow (suc n) ss
AllBelow-suc n [] a = record {}
AllBelow-suc n ((k, s) ∷ ss) a = (let l = a.0 in omega arith, AllBelow-suc n ss a.1)

erase_comm : (i j : ℕ) (ss : List (ℕ × Session)) → erase i (erase j ss) ≡ erase j (erase i ss)
unfolding erase
erase_comm i j [] = refl
erase_comm i j ((k, s) ∷ ss) = ground (arith, erase_comm i j ss)

erase-erase : (i : ℕ) (ss : List (ℕ × Session)) → erase i (erase i ss) ≡ erase i ss
unfolding erase
erase-erase i [] = refl
erase-erase i ((k, s) ∷ ss) = ground (arith, erase-erase i ss)

erase-assign :
    (i : ℕ) (s : Session) (ss : List (ℕ × Session)) → erase i (assign i s ss) ≡ erase i ss
unfolding erase assign
erase-assign i s ss = ground (arith, erase-erase i ss)

settled-erase :
    (i : ℕ) (qs : List Reply) (ss : List (ℕ × Session))
    → settled qs (erase i ss) ≡ erase i (settled qs ss)
unfolding settled
settled-erase i [] ss = refl
settled-erase i (q ∷ qs) ss =
    ap (settled qs) (erase_comm q.head.request_id i ss)
    ∙ settled-erase i qs (erase q.head.request_id ss)

-- What a call put into the table is gone once its response and those of later calls were settled.
pub settled-assign :
    (q : Reply) (qs : List Reply) (s : Session) (ss ts : List (ℕ × Session))
    → settled qs ts ≡ settled qs (assign q.head.request_id s ss)
    → settled (q ∷ qs) ts ≡ settled (q ∷ qs) ss
unfolding settled
settled-assign q qs s ss ts e =
    let i = q.head.request_id in
    settled-erase i qs ts
    ∙ ap (erase i) e
    ∙ sym (settled-erase i qs (assign i s ss))
    ∙ ap (settled qs) (erase-assign i s ss)
