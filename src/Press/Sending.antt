-- ===== src/Press/Sending.antt =====
-- Whatever the interleaving of the load generator's threads: each request is sent once.
use mathlib.Core.Option
use xuanqiong.Base.{
  ℕ, zero, suc, ◌+◌, ◌-◌, ◌*◌, ◌≡◌, ◌≤◌, ◌<◌, ◌^◌, refl, subst, ◌&&◌, List, [], ◌∷◌, length, min,
  Option, none, some, ltb, ◌==◌, if◌then◌else◌, arith,
}
use xuanqiong.Press.{
  total_requests, concurrency, Load, init, Action, fetch, echo, handle_response, put_back, take_out,
  fetch_step, echo_step, response_step, step, and_then, run,
}

-- How often an index stands in a list.
unfoldable pub count : ℕ → List ℕ → ℕ
count j [] = 0
count j (x ∷ xs) = (if j == x then 1 else 0) + count j xs

take_out-count :
    (k : ℕ) (xs : List ℕ) (y : ℕ) (ys : List ℕ) (j : ℕ)
    → take_out k xs ≡ some (y, ys)
    → (count j xs ≡ (if j == y then 1 else 0) + count j ys) × (length xs ≡ suc (length ys))
unfolding take_out count
take_out-count k [] y ys j e = cc
take_out-count zero (x ∷ xs) y ys j e = ground arith
take_out-count (suc k) (x ∷ xs) y ys j e =
    go (λ z zs. take_out-count k xs z zs j) (take_out k xs) refl e
  where
    go :
        ((z : ℕ) (zs : List ℕ)
          → take_out k xs ≡ some (z, zs)
          → (count j xs ≡ (if j == z then 1 else 0) + count j zs) × (length xs ≡ suc (length zs)))
        → (r : Option (ℕ × List ℕ)) → take_out k xs ≡ r
        → put_back x r ≡ some (y, ys)
        → (count j (x ∷ xs) ≡ (if j == y then 1 else 0) + count j ys)
          × (length (x ∷ xs) ≡ suc (length ys))
    go ih none f e' = cc
    go ih (some (z, zs)) f e' = ground (arith, ih z zs f, e')

module _ (total workers : ℕ) where
  -- What holds after `n` steps.
  record IsSound (n : ℕ) (s : Load) : Type 0 where
    once :
        (j : ℕ)
        → count j s.calling + count j s.issued ≡ (if ltb j total && ltb j s.g_sent then 1 else 0)
    staff : s.fetching + length s.calling + s.finished ≡ workers
    sent : length s.calling + length s.issued ≡ min s.g_sent total
    over : s.finished ≡ s.g_sent - total
    answered : s.g_completed + length s.pending ≡ length s.issued
    steps : n ≡ s.g_sent + length s.issued + s.g_completed

  init-IsSound : IsSound 0 (init workers)
  unfolding init count
  init-IsSound = record {
    once = λ j. ground arith;
    staff = omega arith;
    sent = omega arith;
    over = omega arith;
    answered = refl;
    steps = refl;
  }

  fetch-IsSound :
      (n k : ℕ) (s t : Load)
      → s.fetching ≡ k
      → IsSound n s
      → fetch_step total s k ≡ some t
      → IsSound (suc n) t
  unfolding count
  fetch-IsSound n zero s t f v e = cc
  fetch-IsSound n (suc k) s t f v e =
      ground (arith, e, f, v.once, v.staff, v.sent, v.over, v.answered, v.steps)

  echo-IsSound :
      (n k : ℕ) (s t : Load) (r : Option (ℕ × List ℕ))
      → take_out k s.calling ≡ r
      → IsSound n s
      → echo_step total s r ≡ some t
      → IsSound (suc n) t
  unfolding count
  echo-IsSound n k s t none f v e = cc
  echo-IsSound n k s t (some (i, rest)) f v e =
      let (c, l) = take_out-count k s.calling i rest 0 f in
      record {
        once = λ j. ground (arith, e, take_out-count k s.calling i rest j f, v.once j);
        staff = ground (arith, e, l, v.staff);
        sent = ground (arith, e, l, v.sent);
        over = ground (arith, e, v.over);
        answered = ground (arith, e, v.answered);
        steps = ground (arith, e, v.steps);
      }

  response-IsSound :
      (n k : ℕ) (s t : Load) (r : Option (ℕ × List ℕ))
      → take_out k s.pending ≡ r
      → IsSound n s
      → response_step total s r ≡ some t
      → IsSound (suc n) t
  response-IsSound n k s t none f v e = cc
  response-IsSound n k s t (some (i, rest)) f v e = ground (
    arith,
    e,
    take_out-count k s.pending i rest 0 f,
    v.once,
    v.staff,
    v.sent,
    v.over,
    v.answered,
    v.steps,
  )

  step-IsSound :
      (n : ℕ) (a : Action) (s t : Load) → IsSound n s → step total a s ≡ some t → IsSound (suc n) t
  unfolding step
  step-IsSound n fetch s t v e = fetch-IsSound n s.fetching s t refl v e
  step-IsSound n (echo k) s t v e = echo-IsSound n k s t (take_out k s.calling) refl v e
  step-IsSound n (handle_response k) s t v e =
      response-IsSound n k s t (take_out k s.pending) refl v e

  run-IsSound :
      (n : ℕ) (acts : List Action) (s t : Load)
      → IsSound n s
      → run total acts s ≡ some t
      → IsSound (n + length acts) t
  unfolding run
  run-IsSound n [] s t v e =
      subst (λ m. IsSound m t) (omega arith) (subst (IsSound n) (Option.some-injective s t e) v)
  run-IsSound n (a ∷ acts) s t v e = go (run-IsSound (suc n) acts) (step total a s) refl e
    where
      go :
          ((u w : Load)
            → IsSound (suc n) u
            → run total acts u ≡ some w
            → IsSound (suc n + length acts) w)
          → (r : Option Load) → step total a s ≡ r
          → and_then total (run total acts) r ≡ some t
          → IsSound (n + suc (length acts)) t
      go ih none f e' = cc
      go ih (some u) f e' =
          subst (λ m. IsSound m t) (omega arith) (ih u t (step-IsSound n a s u v f) e')

  -- In any order of the steps of any number of workers: each index below both `g_sent` and the
  -- number of requests is held by a worker or was sent, once, and no other index is; the
  -- responses handled and the calls without one are the calls made; `g_sent` does not pass the
  -- number of requests by more than the number of workers; and there are no more steps than three
  -- for each request and one for each worker.
  pub requests_sent_once :
      (acts : List Action) (s : Load)
      → run total acts (init workers) ≡ some s
      → ((j : ℕ)
          → count j s.calling + count j s.issued ≡ (if ltb j total && ltb j s.g_sent then 1 else 0))
        × (s.g_completed + length s.pending ≡ length s.issued)
        × (s.g_sent ≤ total + workers)
        × (length acts ≤ 3 * total + workers)
  requests_sent_once acts s e =
      let v = run-IsSound 0 acts (init workers) s init-IsSound e in
      let o = v.over in
      let w = v.staff in
      let m = v.sent in
      let p = v.answered in let q = v.steps in (v.once, p, omega arith, omega arith)

  -- In any order of the steps of any number of workers, at least one of which has left its loop,
  -- where no index is held and no call is without its response: as many responses were handled as
  -- requests are to be sent, and each index below that number, and no other, was sent once.
  pub load_completed :
      (acts : List Action) (s : Load)
      → run total acts (init workers) ≡ some s
      → 0 < s.finished
      → s.calling ≡ []
      → s.pending ≡ []
      → (s.g_completed ≡ total) × ((j : ℕ) → count j s.issued ≡ (if ltb j total then 1 else 0))
  unfolding count
  load_completed acts s e f c p =
      let v = run-IsSound 0 acts (init workers) s init-IsSound e in
      let all : total ≤ s.g_sent = (let o = v.over in omega arith) in
      (ground (arith, v.over, v.sent, v.answered, c, p, f), λ j. ground (arith, v.once j, c, all))

-- The `int` that counts the requests sent stays in its range.
g_sent_fits :
    (acts : List Action) (s : Load)
    → run total_requests acts (init concurrency) ≡ some s
    → s.g_sent < 2 ^ 31
g_sent_fits acts s e =
    let b = (requests_sent_once total_requests concurrency acts s e).2 in omega arith
