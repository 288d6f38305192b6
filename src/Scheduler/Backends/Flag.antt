-- ===== src/Scheduler/Backends/Flag.antt =====
-- `should_notify_` after the loops over the entries of epoll and of kqueue.
use xuanqiong.Base.{
  ℕ, ◌≡◌, refl, ap, ◌∙◌, Bool, Bool-cases, inl, inr, true, false, not, ◌&&◌, ◌||◌, Option, List, [],
  ◌∷◌, ◌==◌, arith,
}
use xuanqiong.Net.Connection.{Connection}
use xuanqiong.Scheduler.Epoll.{Interest, Ready, Side, handle_event}
use xuanqiong.Scheduler.Epoll.Thread.{Watched, epoll_handle}
use xuanqiong.Scheduler.Kqueue.{
  Filter, user_filter, read_filter, write_filter, other_filter, is_user, serve_event,
}
use xuanqiong.Scheduler.Kqueue.Thread.{kqueue_handle}
use xuanqiong.Scheduler.Batch.{update, update-own, handle_all}
use xuanqiong.Scheduler.Backends.{
  Report, notified, is_ready, epoll_entry, epoll_entries, filters, at, kqueue_entries, any_notified,
  Foreign,
}
use xuanqiong.Scheduler.Backends.Own.{entry_own_keeps}

handle_event-cleared :
    (ok : Bool) (c : Connection) (i : Interest) (r : Ready)
    → (handle_event ok c i r).cleared ≡ c.is_dummy
unfolding handle_event
handle_event-cleared ok c i r = ground arith

serve_event-cleared :
    (c : Connection) (f : Filter) (eof : Bool) → (serve_event c f eof).cleared ≡ is_user f
unfolding serve_event
serve_event-cleared c user_filter eof = refl
serve_event-cleared c read_filter eof = ground arith
serve_event-cleared c write_filter eof = ground arith
serve_event-cleared c other_filter eof = ground arith

-- None is the executor's own.
Sockets : List (Filter × Bool) → Type 0
Sockets [] = Unit {0}
Sockets (f ∷ fs) = (is_user f.0 ≡ false) × Sockets fs

filters-Sockets : (r : Ready) → Sockets (filters r)
unfolding Sockets
filters-Sockets r = elim (Bool-cases (r.hup || r.rdhup)) [
  | inl h ↦ rw h (refl, record {})
  | inr h ↦ elim (Bool-cases r.out) [
    | inl o ↦ elim (Bool-cases r.inp) [
      | inl p ↦ rw (h, o, p) (refl, (refl, record {}))
      | inr p ↦ rw (h, o, p) (refl, record {})
    ]
    | inr o ↦ elim (Bool-cases r.inp) [
      | inl p ↦ rw (h, o, p) (refl, record {})
      | inr p ↦ rw (h, o, p) (record {})
    ]
  ]
]

cleared_once : (flag any : Bool) {c : Bool} → c ≡ true → (flag && not c && any) ≡ (flag && false)
cleared_once flag any e = ground (arith, e)

not_cleared : (flag any : Bool) {c : Bool} → c ≡ false → (flag && not c && any) ≡ (flag && any)
not_cleared flag any e = ground (arith, e)

module _ (dummy : ℕ) (resume_e : Side → Watched → Watched)
    (resume_k : Side → Connection → Connection)
    (agree : (s : Side) (w : Watched) → (resume_e s w).0 ≡ resume_k s w.0)
    (keeps : (s : Side) (c : Connection) → (resume_k s c).is_dummy ≡ c.is_dummy) where
  -- The executor's own connection is the one at `dummy`.
  unfoldable pub Dummies : (ℕ → Watched) → Type 0
  Dummies m = (j : ℕ) → (m j).0.is_dummy ≡ (j == dummy)

  Dummies-update :
      (i : ℕ) (e : Bool × Ready) (m : ℕ → Watched)
      → Dummies m
      → Dummies (update i (epoll_handle resume_e e (m i)).0 m)
  unfolding Dummies
  Dummies-update i e m d j =
      ap (λ w. w.0.is_dummy) (update-own (epoll_handle resume_e) (λ _. false) i j e m)
      ∙ entry_own_keeps dummy resume_e resume_k agree keeps j i e (m j)
      ∙ d j

  -- `should_notify_` after the two loops.
  pub epoll_flag :
      (rs : List Report) (m : ℕ → Watched) (flag : Bool)
      → Foreign dummy rs
      → Dummies m
      → (handle_all (epoll_handle resume_e) (λ _. false) (epoll_entries dummy rs) (m, flag)).1
        ≡ (flag && not (any_notified rs))
  unfolding handle_all epoll_entries any_notified epoll_handle Dummies
  epoll_flag [] m flag f d = ground arith
  epoll_flag (notified ∷ rs) m flag f d =
      let r = (epoll_entry dummy notified).1 in
      let w = epoll_handle resume_e r (m dummy) in
      let e = handle_event-cleared true (m dummy).0 (m dummy).1 r.1 in
      epoll_flag rs (update dummy w.0 m) (flag && not w.1) f (Dummies-update dummy r m d)
      ∙ cleared_once flag (not (any_notified rs)) (e ∙ d dummy ∙ ground arith)
  epoll_flag (is_ready i r ∷ rs) m flag f d =
      let w = epoll_handle resume_e (true, r) (m i) in
      let e = handle_event-cleared true (m i).0 (m i).1 r in
      epoll_flag rs (update i w.0 m) (flag && not w.1) f.1 (Dummies-update i (true, r) m d)
      ∙ not_cleared flag (not (any_notified rs)) (e ∙ d i ∙ ground (arith, f.0))

  kqueue_at_flag :
      (i : ℕ) (fs : List (Filter × Bool)) (es : List (Option ℕ × (Filter × Bool)))
      (m : ℕ → Connection) (flag any : Bool)
      → Sockets fs
      → ((n : ℕ → Connection) (f : Bool)
          → (handle_all (kqueue_handle resume_k) (λ e. is_user e.0) es (n, f)).1 ≡ (f && not any))
      → (handle_all (kqueue_handle resume_k) (λ e. is_user e.0) (at i fs es) (m, flag)).1
        ≡ (flag && not any)
  unfolding handle_all at Sockets kqueue_handle
  kqueue_at_flag i [] es m flag any s h = h m flag
  kqueue_at_flag i (f ∷ fs) es m flag any s h =
      kqueue_at_flag i fs es _ _ any s.1 h
      ∙ not_cleared flag (not any) (serve_event-cleared (m i) f.0 f.1 ∙ s.0)

  pub kqueue_flag :
      (rs : List Report) (m : ℕ → Connection) (flag : Bool)
      → (handle_all (kqueue_handle resume_k) (λ e. is_user e.0) (kqueue_entries rs) (m, flag)).1
        ≡ (flag && not (any_notified rs))
  unfolding handle_all kqueue_entries any_notified
  kqueue_flag [] m flag = ground arith
  kqueue_flag (notified ∷ rs) m flag =
      kqueue_flag rs m _ ∙ cleared_once flag (not (any_notified rs)) refl
  kqueue_flag (is_ready i r ∷ rs) m flag =
      kqueue_at_flag i (filters r) (kqueue_entries rs) m flag (any_notified rs) (filters-Sockets r)
        (kqueue_flag rs)
