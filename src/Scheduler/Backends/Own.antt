-- ===== src/Scheduler/Backends/Own.antt =====
-- One connection through the loops over the entries of epoll and of kqueue.
use xuanqiong.Base.{
  ℕ, ◌≡◌, ◌≢◌, refl, sym, ap, ◌∙◌, Bool, Bool-cases, inl, inr, true, false, ◌||◌, Option, List, [],
  ◌∷◌, ◌==◌, if◌then◌else◌, arith,
}
use xuanqiong.Net.Connection.{Connection}
use xuanqiong.Scheduler.Epoll.{Interest, Ready, Side, handle_event}
use xuanqiong.Scheduler.Epoll.Thread.{resume_all, Watched, epoll_handle}
use xuanqiong.Scheduler.Kqueue.{Filter, is_user, serve_event}
use xuanqiong.Scheduler.Kqueue.Thread.{kqueue_handle}
use xuanqiong.Scheduler.Batch.{own}
use xuanqiong.Scheduler.Backends.{
  Report, notified, is_ready, epoll_entries, filters, at, kqueue_entries, Foreign,
}

handle_event-keeps :
    (ok : Bool) (c : Connection) (i : Interest) (r : Ready)
    → (handle_event ok c i r).conn.is_dummy ≡ c.is_dummy
unfolding handle_event
handle_event-keeps ok c i r = ground arith

same_choice : {A : Type 0} (b : Bool) (x : A) → (if b then x else x) ≡ x
same_choice true x = refl
same_choice false x = refl

nested_choice :
    {A : Type 0} (b : Bool) (f : A → A) (x y : A)
    → (let z = if b then x else y in if b then f z else z) ≡ (if b then f x else y)
nested_choice true f x y = refl
nested_choice false f x y = refl

foreign :
    {dummy : ℕ} {b : Bool} (i j : ℕ) → (j == i) ≡ true → i ≢ dummy → b ≡ (j == dummy) → b ≡ false
foreign i j e f d = ground (arith, e, d, f)

module _ (dummy : ℕ) (resume_e : Side → Watched → Watched)
    (resume_k : Side → Connection → Connection)
    (agree : (s : Side) (w : Watched) → (resume_e s w).0 ≡ resume_k s w.0)
    (keeps : (s : Side) (c : Connection) → (resume_k s c).is_dummy ≡ c.is_dummy) where
  resume_all-agree :
      (ss : List Side) (w : Watched) → (resume_all resume_e ss w).0 ≡ resume_all resume_k ss w.0
  unfolding resume_all
  resume_all-agree [] w = refl
  resume_all-agree (s ∷ ss) w =
      resume_all-agree ss (resume_e s w) ∙ ap (resume_all resume_k ss) (agree s w)

  resume_all-keeps :
      (ss : List Side) (c : Connection) → (resume_all resume_k ss c).is_dummy ≡ c.is_dummy
  unfolding resume_all
  resume_all-keeps [] c = refl
  resume_all-keeps (s ∷ ss) c = resume_all-keeps ss (resume_k s c) ∙ keeps s c

  -- The events of one report, one after another.
  handle_filters : List (Filter × Bool) → Connection → Connection
  unfolding kqueue_handle
  handle_filters [] c = c
  handle_filters (f ∷ fs) c = handle_filters fs (kqueue_handle resume_k f c).0

  -- A report does to a connection what its events do.
  event_agree :
      (r : Ready) (c : Connection) (i : Interest)
      → c.is_dummy ≡ false
      → let h = handle_event true c i r in
        resume_all resume_k h.resumed h.conn ≡ handle_filters (filters r) c
  unfolding handle_filters kqueue_handle handle_event serve_event resume_all
  event_agree r c i d = elim (Bool-cases (r.hup || r.rdhup)) [
    | inl h ↦ rw (d, h) refl
    | inr h ↦ elim (Bool-cases r.out) [
      | inl o ↦ elim (Bool-cases r.inp) [
        | inl p ↦ rw (d, h, o, p) refl
        | inr p ↦ rw (d, h, o, p) refl
      ]
      | inr o ↦ elim (Bool-cases r.inp) [
        | inl p ↦ rw (d, h, o, p) refl
        | inr p ↦ rw (d, h, o, p) refl
      ]
    ]
  ]

  report_agree :
      (r : Ready) (w : Watched)
      → w.0.is_dummy ≡ false
      → (epoll_handle resume_e (true, r) w).0.0 ≡ handle_filters (filters r) w.0
  unfolding epoll_handle
  report_agree r w d =
      let h = handle_event true w.0 w.1 r in
      resume_all-agree h.resumed (h.conn, h.interest) ∙ event_agree r w.0 w.1 d

  -- Handling an entry leaves a connection the executor's own or not.
  entry_keeps :
      (e : Bool × Ready) (w : Watched) → (epoll_handle resume_e e w).0.0.is_dummy ≡ w.0.is_dummy
  unfolding epoll_handle
  entry_keeps e w =
      let h = handle_event e.0 w.0 w.1 e.1 in
      ap (λ c. c.is_dummy) (resume_all-agree h.resumed (h.conn, h.interest))
      ∙ resume_all-keeps h.resumed h.conn
      ∙ handle_event-keeps e.0 w.0 w.1 e.1

  -- The two loops over the entries, at one address.
  abbrev epoll_own : ℕ → List (Option ℕ × (Bool × Ready)) → Watched → Watched
  epoll_own = own (epoll_handle resume_e) (λ _. false)

  abbrev kqueue_own : ℕ → List (Option ℕ × (Filter × Bool)) → Connection → Connection
  kqueue_own = own (kqueue_handle resume_k) (λ e. is_user e.0)

  own-at :
      (j i : ℕ) (fs : List (Filter × Bool)) (es : List (Option ℕ × (Filter × Bool)))
      (c : Connection)
      → kqueue_own j (at i fs es) c ≡ kqueue_own j es (if j == i then handle_filters fs c else c)
  unfolding at own handle_filters
  own-at j i [] es c = ap (kqueue_own j es) (sym (same_choice (j == i) c))
  own-at j i (f ∷ fs) es c =
      own-at j i fs es (if j == i then (kqueue_handle resume_k f c).0 else c)
      ∙ ap (kqueue_own j es)
          (nested_choice (j == i) (handle_filters fs) (kqueue_handle resume_k f c).0 c)

  -- An entry of one address, seen from another or the same.
  entry_own :
      (j i : ℕ) (r : Ready) (w : Watched)
      → i ≢ dummy
      → w.0.is_dummy ≡ (j == dummy)
      → (if j == i then (epoll_handle resume_e (true, r) w).0 else w).0
        ≡ (if j == i then handle_filters (filters r) w.0 else w.0)
  entry_own j i r w f d = elim (Bool-cases (j == i)) [
    | inl e ↦ rw e (report_agree r w (foreign i j e f d))
    | inr e ↦ rw e refl
  ]

  pub entry_own_keeps :
      (j i : ℕ) (e : Bool × Ready) (w : Watched)
      → (if j == i then (epoll_handle resume_e e w).0 else w).0.is_dummy ≡ w.0.is_dummy
  entry_own_keeps j i e w = ground (arith, entry_keeps e w)

  dummy_own :
      (j : ℕ) (e : Ready) (w : Watched)
      → w.0.is_dummy ≡ (j == dummy)
      → (if j == dummy then (epoll_handle resume_e (true, e) w).0 else w).0 ≡ w.0
  unfolding epoll_handle handle_event resume_all
  dummy_own j e w d = elim (Bool-cases (j == dummy)) [
    | inl own ↦ rw (own, d ∙ own) refl
    | inr other ↦ rw other refl
  ]

  pub own_agree :
      (rs : List Report) (j : ℕ) (w : Watched)
      → Foreign dummy rs
      → w.0.is_dummy ≡ (j == dummy)
      → (epoll_own j (epoll_entries dummy rs) w).0 ≡ kqueue_own j (kqueue_entries rs) w.0
  unfolding own epoll_entries kqueue_entries
  own_agree [] j w f d = refl
  own_agree (notified ∷ rs) j w f d =
      own_agree rs j _ f (entry_own_keeps j dummy _ w ∙ d)
      ∙ ap (kqueue_own j (kqueue_entries rs)) (dummy_own j _ w d)
  own_agree (is_ready i r ∷ rs) j w f d =
      own_agree rs j _ f.1 (entry_own_keeps j i _ w ∙ d)
      ∙ ap (kqueue_own j (kqueue_entries rs)) (entry_own j i r w f.0 d)
      ∙ sym (own-at j i (filters r) (kqueue_entries rs) w.0)

  pub own_keeps :
      (rs : List Report) (j : ℕ) (w : Watched)
      → (epoll_own j (epoll_entries dummy rs) w).0.is_dummy ≡ w.0.is_dummy
  unfolding own epoll_entries
  own_keeps [] j w = refl
  own_keeps (notified ∷ rs) j w = own_keeps rs j _ ∙ entry_own_keeps j dummy _ w
  own_keeps (is_ready i r ∷ rs) j w = own_keeps rs j _ ∙ entry_own_keeps j i _ w
