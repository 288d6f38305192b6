-- ===== src/Rpc/Client/Lifetime/Once.antt =====
-- Whatever the bytes: a session is handed one response at most, and one of its own id.
use mathlib.Core.Option
use xuanqiong.Base.{
  ℕ, suc, ◌+◌, ◌≤◌, ◌<◌, ◌≡◌, refl, sym, subst, Bool-cases, inl, inr, Option, none, some, List, [],
  ◌∷◌, ltb, ◌==◌, if◌then◌else◌, arith,
}
use xuanqiong.Util.Output.{OutputBuffer}
use xuanqiong.Rpc.Codec.{Codec}
use xuanqiong.Rpc.Stream.{send_frame}
use xuanqiong.Rpc.Client.{
  Session, Channel, Responses, find, erase, assign, Place, Outcome, called, call_method,
  request_header, request_header,
}
use xuanqiong.Rpc.Client.Lifetime.{
  Life, Event, calls, round, moves, id_of, after_call, after_step, recv_round, act, and_then, live,
  born, times, AllGiven,
}
use xuanqiong.Rpc.Client.Lifetime.Rounds.{
  Kept, Taken, Touched, rests, keeps, refuses, hands, leaves, faults, step-Touched,
}

-- What an id list, a table and what was given say of each other.
record Once (next : ℕ) (ss handled given : List (ℕ × Session)) : Type 0 where
  single : (j : ℕ) → times j ss + times j handled ≤ (if ltb j next then 1 else 0)
  table : AllGiven given ss
  handed : AllGiven given handled

times-erase :
    (j i : ℕ) (ss : List (ℕ × Session)) → times j (erase i ss) ≡ (if j == i then 0 else times j ss)
unfolding times erase
times-erase j i [] = ground arith
times-erase j i ((k, s) ∷ ss) = ground (arith, times-erase j i ss)

times-find : (i : ℕ) (s : Session) (ss : List (ℕ × Session)) → find i ss ≡ some s → 0 < times i ss
unfolding times find
times-find i s [] e = cc
times-find i s ((k, t) ∷ ss) e = ground (arith, times-find i s ss, e)

AllGiven-erase :
    (i : ℕ) (given ss : List (ℕ × Session)) → AllGiven given ss → AllGiven given (erase i ss)
unfolding erase
AllGiven-erase i given [] a = a
AllGiven-erase i given ((k, s) ∷ ss) a = elim (Bool-cases (k == i)) [
  | inl e ↦ rw e (AllGiven-erase i given ss a.1)
  | inr e ↦ rw e (a.0, AllGiven-erase i given ss a.1)
]

AllGiven-find :
    (i : ℕ) (s : Session) (given ss : List (ℕ × Session))
    → find i ss ≡ some s
    → AllGiven given ss
    → find i given ≡ some s
unfolding find
AllGiven-find i s given [] e a = cc
AllGiven-find i s given ((k, t) ∷ ss) e a = ground (arith, AllGiven-find i s given ss, a.0, a.1, e)

AllGiven-fresh :
    (n : ℕ) (s : Session) (given ss : List (ℕ × Session))
    → times n ss ≡ 0
    → AllGiven given ss
    → AllGiven ((n, s) ∷ given) ss
unfolding times find
AllGiven-fresh n s given [] e a = a
AllGiven-fresh n s given ((k, t) ∷ ss) e a =
    (ground (arith, a.0, e), AllGiven-fresh n s given ss (ground (arith, e)) a.1)

Once-erase :
    (i next : ℕ) (ss hs given : List (ℕ × Session))
    → Once next ss hs given
    → Once next (erase i ss) hs given
Once-erase i next ss hs given o = record {
  single = λ j. ground (arith, times-erase j i ss, o.single j);
  table = AllGiven-erase i given ss o.table;
  handed = o.handed;
}

Once-hand :
    (i next : ℕ) (s : Session) (ss hs given : List (ℕ × Session))
    → find i ss ≡ some s
    → Once next ss hs given
    → Once next (erase i ss) ((i, s) ∷ hs) given
unfolding times
Once-hand i next s ss hs given f o = record {
  single = λ j. handed_once j;
  table = AllGiven-erase i given ss o.table;
  handed = (AllGiven-find i s given ss f o.table, o.handed);
}
  where
    handed_once :
        (j : ℕ)
        → times j (erase i ss) + ((if j == i then 1 else 0) + times j hs)
          ≤ (if ltb j next then 1 else 0)
    handed_once j = elim (Bool-cases (j == i)) [
      | inl e ↦ ground (arith, e, times-erase j i ss, o.single j, o.single i, times-find i s ss f)
      | inr e ↦ ground (arith, e, times-erase j i ss, o.single j)
    ]

Once-call :
    (next : ℕ) (s : Session) (ss hs given : List (ℕ × Session))
    → Once next ss hs given
    → Once (suc next) (assign next s ss) hs ((next, s) ∷ given)
unfolding times assign find
Once-call next s ss hs given o =
    let none_yet : times next ss + times next hs ≡ 0 = ground (arith, o.single next) in
    record {
      single = λ j. ground (arith, times-erase j next ss, o.single j, o.single next);
      table = (
        ground arith,
        AllGiven-fresh next s given (erase next ss) (ground (arith, times-erase next next ss))
            (AllGiven-erase next given ss o.table),
      );
      handed = AllGiven-fresh next s given hs (omega arith) o.handed;
    }

IsOnce : Life → Type 0
IsOnce l = Once l.channel.next_id l.channel.sessions l.handled l.given

-- The same for another channel, told by what became of the table and the next id.
Once-channel :
    {m n : ℕ} {ss ts hs given : List (ℕ × Session)}
    → ss ≡ ts
    → m ≡ n
    → Once n ts hs given
    → Once m ss hs given
Once-channel {m} {n} {ss} {ts} {hs} {given} e f o =
    subst (λ x. Once m x hs given) (sym e) (subst (λ x. Once x ts hs given) (sym f) o)

round-IsOnce :
    (l t : Life) (p : Place) {o : Outcome}
    → Touched p l.channel o
    → IsOnce l
    → after_step l p o ≡ some t
    → IsOnce t
unfolding IsOnce Kept Taken
round-IsOnce l t p rests i e = subst IsOnce (Option.some-injective l t e) i
round-IsOnce l t p (keeps k) i e =
    subst IsOnce (Option.some-injective _ t e) (Once-channel k.0 k.1 i)
round-IsOnce l t p (refuses id k) i e =
    subst IsOnce (Option.some-injective _ t e) (
      Once-channel k.0 k.1 (Once-erase id l.channel.next_id l.channel.sessions l.handled l.given i))
round-IsOnce l t p (hands {s} f k) i e = subst IsOnce (Option.some-injective _ t e) (
    Once-channel k.0 k.1
      (Once-hand (id_of p) l.channel.next_id s l.channel.sessions l.handled l.given f i))
round-IsOnce l t p (leaves k) i e =
    subst IsOnce (Option.some-injective _ t e) (Once-channel k.0 k.1 i)
round-IsOnce l t p faults i e = cc

call-IsOnce :
    (l t : Life) (s : Session) (r : Option OutputBuffer)
    → IsOnce l
    → after_call l s (called l.channel s r) ≡ some t
    → IsOnce t
unfolding IsOnce
call-IsOnce l t s none i e = cc
call-IsOnce l t s (some w) i e =
    subst IsOnce (Option.some-injective _ t e)
      (Once-call l.channel.next_id s l.channel.sessions l.handled l.given i)

module _ (codec : Codec) (messages : Responses) (stack : ℕ → ℕ) where
  act-IsOnce :
      (ev : Event) (l t : Life) → IsOnce l → act codec messages stack ev l ≡ some t → IsOnce t
  unfolding act call_method IsOnce recv_round
  act-IsOnce (calls service name body s) l t i e =
      call-IsOnce l t s
        (send_frame codec l.channel.conn.write_buf
          (codec.print_header (request_header l.channel.next_id service name)) body)
        i e
  act-IsOnce round l t i e = go l.place e
    where
      go : (p : Option Place) → recv_round codec messages stack l p ≡ some t → IsOnce t
      go none e' = subst IsOnce (Option.some-injective l t e') i
      go (some p) e' = round-IsOnce l t p (step-Touched codec messages stack p l.channel) i e'
  act-IsOnce (moves c) l t i e = subst IsOnce (Option.some-injective _ t e) i

  live-IsOnce :
      (evs : List Event) (l t : Life)
      → IsOnce l
      → live codec messages stack evs l ≡ some t
      → IsOnce t
  unfolding live
  live-IsOnce [] l t i e = subst IsOnce (Option.some-injective l t e) i
  live-IsOnce (ev ∷ evs) l t i e = go (live-IsOnce evs) (act codec messages stack ev l) refl e
    where
      go :
          ((u w : Life) → IsOnce u → live codec messages stack evs u ≡ some w → IsOnce w)
          → (r : Option Life) → act codec messages stack ev l ≡ r
          → and_then codec messages stack (live codec messages stack evs) r ≡ some t
          → IsOnce t
      go ih none f e' = cc
      go ih (some u) f e' = ih u t (act-IsOnce ev l u i f) e'

  -- Whatever calls are made on a channel whose table is empty, whatever bytes arrive between
  -- them, and whatever happens to its connection, in any order with the rounds of the receiving
  -- coroutine: each id below the next one stands at most once among the ids in the table and the
  -- ids for which a session was handed a response, and no other id does; and each session that
  -- was handed a response, and each in the table, is the one that was passed to the call of its
  -- id.
  pub handed_once :
      (evs : List Event) (h : Channel) (l : Life)
      → live codec messages stack evs (born h) ≡ some l
      → ((j : ℕ)
          → times j l.channel.sessions + times j l.handled
            ≤ (if ltb j l.channel.next_id then 1 else 0))
        × AllGiven l.given l.handled
        × AllGiven l.given l.channel.sessions
  unfolding IsOnce times
  handed_once evs h l e =
      let o =
        live-IsOnce evs (born h) l
          (record { single = λ j. omega arith; table = record {}; handed = record {} }) e in
      (o.single, o.handed, o.table)
