-- ===== src/Scheduler/Uring/Outcome.antt =====
-- What a completion does, told for all event types and results.
use mathlib.Core.Option
use xuanqiong.Base.{
  if_true, if_false, sym, subst, ℕ, zero, suc, ◌+◌, ◌-◌, ◌^◌, ◌≤◌, ◌<◌, ◌≡◌, refl, ap, ◌∙◌, Bool,
  Bool-cases, inl, inr, true, false, ◌&&◌, ◌||◌, some, List, [], ◌∷◌, ◌++◌, length, drop, ◌==◌,
  if◌then◌else◌, arith,
}
use xuanqiong.Base.Int.{ℤ, pos, negsuc}
use xuanqiong.Base.Words.{add64, sub64}
use xuanqiong.Util.Input
use xuanqiong.Util.Output.{unsent}
use xuanqiong.Util.Output
use xuanqiong.Util.Output.Inv.{IsValid}
use xuanqiong.Util.Output.Send.{send_add_lem}
use xuanqiong.Net.Socket
use xuanqiong.Net.Connection.{Connection, closed, recv_add, send_add}
use xuanqiong.Net.Connection
use xuanqiong.Net.Uring.{UringConnection, uring_send_add}
use xuanqiong.Scheduler.Event.{EventType, read, write, delete, unknown}
use xuanqiong.Scheduler.Epoll.{Side, reader, writer}
use xuanqiong.Scheduler.Uring.{complete, handle_cqe}

-- The bytes that were sent, and what an error adds to those on their way.
abbrev pub sent : EventType → ℤ → ℕ
sent read n = 0
sent write (pos k) = k
sent write (negsuc k) = 0
sent delete n = 0
sent unknown n = 0

abbrev pub added : EventType → ℤ → ℕ
added read n = 0
added write (pos k) = 0
added write (negsuc k) = suc k
added delete n = 0
added unknown n = 0

-- Whether the stream has ended, and how many bytes have arrived.
abbrev pub at_end : EventType → ℤ → Bool
at_end read (pos zero) = true
at_end read (pos (suc k)) = false
at_end read (negsuc k) = false
at_end write n = false
at_end delete n = false
at_end unknown n = false

abbrev pub arrived : EventType → ℤ → ℕ
arrived read (pos k) = k
arrived read (negsuc k) = 0
arrived write n = 0
arrived delete n = 0
arrived unknown n = 0

-- Who is resumed; `idle`: no bytes are on their way.
abbrev pub woken : Bool → EventType → ℤ → List Side
woken idle read n = (if at_end read n && idle then writer ∷ [] else []) ++ reader ∷ []
woken idle write n = writer ∷ []
woken idle delete n = []
woken idle unknown n = []

-- A completion for the executor's own connection counts as one of no type.
abbrev pub seen : UringConnection → EventType → EventType
seen c t = if c.conn.is_dummy then unknown else t

-- The connection before anyone is resumed.
pub record Completes (c : UringConnection) (t : EventType) (n : ℤ) (d : UringConnection)
    : Type 0 where
  pub closes : closed d.conn ≡ (closed c.conn || at_end t n)
  pub sends : unsent d.conn.write_buf ≡ drop (sent t n) (unsent c.conn.write_buf)
  pub valid : IsValid d.conn.write_buf
  pub on_way : d.back_left ≡ c.back_left - sent t n + added t n
  pub receives : d.conn.read_buf ≡ Input.recv_add c.conn.read_buf (pos (arrived t n))
  pub same : (d.address ≡ c.address) × (d.conn.is_dummy ≡ c.conn.is_dummy)

-- Such a result is plausible: it counts bytes that are on their way and unsent.
pub record IsPlausible (c : UringConnection) (t : EventType) (n : ℤ) : Type 0 where
  pub unsent_yet : sent t n ≤ length (unsent c.conn.write_buf)
  pub submitted : sent t n ≤ c.back_left
  pub in_range : c.back_left + added t n < 2 ^ 64

close-closed : (c : Connection) → closed (Connection.close c) ≡ true
unfolding Connection.close Socket.close
close-closed c = elim (Bool-cases (closed c)) [
  | inl e ↦
      ap {A = Socket.Socket × List Socket.Syscall} (λ r. r.0.closed) (if_true (closed c) _ _ e) ∙ e
  | inr e ↦
      ap {A = Socket.Socket × List Socket.Syscall} (λ r. r.0.closed) (if_false (closed c) _ _ e)
]

or-true : (b : Bool) → (b || true) ≡ true
or-true true = refl
or-true false = refl

or-false : (b : Bool) → b ≡ (b || false)
or-false true = refl
or-false false = refl

-- Nothing but the read buffer changes.
read_only :
    (c : UringConnection) (t : EventType) (n : ℤ) (k : ℕ)
    → IsValid c.conn.write_buf
    → sent t n ≡ 0
    → added t n ≡ 0
    → at_end t n ≡ false
    → arrived t n ≡ k
    → Completes c t n (record c { conn = recv_add c.conn (pos k) })
unfolding recv_add
read_only c t n k v s a e r = record {
  closes = rw e (or-false (closed c.conn));
  sends = rw s refl;
  valid = v;
  on_way = omega (arith, s, a);
  receives = rw r refl;
  same = (refl, refl);
}

complete_lem :
    (fuel : ℕ) (c : UringConnection) (t : EventType) (n : ℤ)
    → IsValid c.conn.write_buf
    → IsPlausible c t n
    → sent t n < fuel
    → (d : UringConnection) × (complete fuel c t n
        ≡ some (record { conn = d; resumed = woken (c.back_left == 0) t n; cleared = false }))
      × Completes c t n d
unfolding complete recv_add uring_send_add send_add Output.send_add Input.recv_add Connection.close
complete_lem fuel c read (pos zero) v p l = (
  record c { conn = Connection.close c.conn },
  refl,
  record {
    closes = close-closed c.conn ∙ sym (or-true (closed c.conn));
    sends = refl;
    valid = v;
    on_way = omega arith;
    receives = refl;
    same = (refl, refl);
  },
)
complete_lem fuel c read (pos (suc n)) v p l =
    (_, refl, read_only c read (pos (suc n)) (suc n) v refl refl refl refl)
complete_lem fuel c read (negsuc n) v p l =
    (_, refl, read_only c read (negsuc n) 0 v refl refl refl refl)
complete_lem fuel c write (pos k) v p l =
    let (w, r, u, v') = send_add_lem fuel c.conn.write_buf k v l p.unsent_yet in
    (
      record c { conn = record c.conn { write_buf = w }; back_left = sub64 c.back_left k },
      rw (r, Option.map) refl,
      record {
        closes = or-false (closed c.conn);
        sends = u;
        valid = v';
        on_way = (let s = p.submitted in let i = p.in_range in omega arith);
        receives = refl;
        same = (refl, refl);
      },
    )
complete_lem fuel c write (negsuc k) v p l = (
  record c { back_left = add64 c.back_left (suc k) },
  refl,
  record {
    closes = or-false (closed c.conn);
    sends = refl;
    valid = v;
    on_way = (let i = p.in_range in omega arith);
    receives = refl;
    same = (refl, refl);
  },
)
complete_lem fuel c delete n v p l = (c, refl, read_only c delete n 0 v refl refl refl refl)
complete_lem fuel c unknown n v p l = (c, refl, read_only c unknown n 0 v refl refl refl refl)

-- For all completions whose result is plausible, with fuel for the bytes sent: what happens to the
-- connection is as told, or nothing where it is the executor's own, which clears the flag.
pub handle_cqe_lem :
    (fuel : ℕ) (c : UringConnection) (t : EventType) (n : ℤ)
    → IsValid c.conn.write_buf
    → IsPlausible c (seen c t) n
    → sent (seen c t) n < fuel
    → (d : UringConnection) × (handle_cqe fuel c t n
        ≡ some (record {
          conn = d;
          resumed = woken (c.back_left == 0) (seen c t) n;
          cleared = c.conn.is_dummy;
        }))
      × Completes c (seen c t) n d
unfolding handle_cqe
handle_cqe_lem fuel c t n v p l =
    let Told : EventType → Type 0 = λ s.
      ((d : UringConnection) × (handle_cqe fuel c t n
          ≡ some (record {
            conn = d;
            resumed = woken (c.back_left == 0) s n;
            cleared = c.conn.is_dummy;
          }))
        × Completes c s n d) in
    elim (Bool-cases c.conn.is_dummy) [
      | inl own ↦ subst Told (sym (if_true c.conn.is_dummy _ _ own)) (
        c,
        if_true c.conn.is_dummy _ _ own
            ∙ ap (λ b. some (record { conn = c; resumed = []; cleared = b })) (sym own),
        read_only c unknown n 0 v refl refl refl refl,
      )
      | inr other ↦
          let q : seen c t ≡ t = if_false c.conn.is_dummy _ _ other in
          let (d, e, w) =
            complete_lem fuel c t n v (subst (λ s. IsPlausible c s n) q p)
              (subst (λ s. sent s n < fuel) q l) in
          subst Told (sym q) (
            d,
            if_false c.conn.is_dummy _ _ other
                ∙ e
                ∙ ap
                    (λ b.
                      some
                        (record { conn = d; resumed = woken (c.back_left == 0) t n; cleared = b }))
                    (sym other),
            w,
          )
    ]
