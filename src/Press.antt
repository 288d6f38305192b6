-- ===== src/Press.antt =====
-- press/rpc_press.cc: the worker threads of the load generator, which share the counter `g_sent`, and
-- the handling of responses by the executor's thread. A step is one access to what the threads share;
-- the list of actions gives their order. A worker's id is never used, so that workers are counted.
pub mod Sending
use xuanqiong.Base.{
  ℕ, zero, suc, ◌+◌, ◌≡◌, Bool, true, false, Option, none, some, List, [], ◌∷◌, ◌++◌, ltb, leb,
  if◌then◌else◌,
}

-- `kTotalRequests` and `kConcurrency`.
abbrev pub total_requests : ℕ
total_requests = 100000

abbrev pub concurrency : ℕ
concurrency = 32

-- `fetching` workers are at the head of their loop, those in `calling` hold an index that they have
-- taken, and `finished` ones have left it; `pending` are the indices of calls without a response yet,
-- and `issued` of all calls so far.
pub record Load : Type 0 where
  pub g_sent : ℕ
  pub g_completed : ℕ
  pub fetching : ℕ
  pub calling : List ℕ
  pub finished : ℕ
  pub pending : List ℕ
  pub issued : List ℕ

unfoldable pub init : ℕ → Load
init workers = record {
  g_sent = 0;
  g_completed = 0;
  fetching = workers;
  calling = [];
  finished = 0;
  pending = [];
  issued = [];
}

-- `g_sent.fetch_add(1)` with the test of its result, `stub.Echo` by the worker with the k-th of the
-- indices taken, and `handle_response` for the k-th of the pending calls.
pub data Action : Type 0 where
  fetch : Action
  echo handle_response : ℕ → Action

abbrev pub put_back : ℕ → Option (ℕ × List ℕ) → Option (ℕ × List ℕ)
put_back x none = none
put_back x (some (y, ys)) = some (y, x ∷ ys)

-- The k-th element, and the others.
unfoldable pub take_out : ℕ → List ℕ → Option (ℕ × List ℕ)
take_out k [] = none
take_out zero (x ∷ xs) = some (x, xs)
take_out (suc k) (x ∷ xs) = put_back x (take_out k xs)

-- `total` requests are to be sent.
module _ (total : ℕ) where
  abbrev pub fetch_step : Load → ℕ → Option Load
  fetch_step s zero = none
  fetch_step s (suc k) = some (
      if leb total s.g_sent
      then record s { g_sent = suc s.g_sent; fetching = k; finished = suc s.finished }
      else record s { g_sent = suc s.g_sent; fetching = k; calling = s.g_sent ∷ s.calling })

  abbrev pub echo_step : Load → Option (ℕ × List ℕ) → Option Load
  echo_step s none = none
  echo_step s (some (i, rest)) = some (record s {
    fetching = suc s.fetching;
    calling = rest;
    pending = i ∷ s.pending;
    issued = i ∷ s.issued;
  })

  abbrev pub response_step : Load → Option (ℕ × List ℕ) → Option Load
  response_step s none = none
  response_step s (some (i, rest)) =
      some (record s { g_completed = suc s.g_completed; pending = rest })

  -- `none`: no thread can do this now.
  unfoldable pub step : Action → Load → Option Load
  unfolding take_out
  step fetch s = fetch_step s s.fetching
  step (echo k) s = echo_step s (take_out k s.calling)
  step (handle_response k) s = response_step s (take_out k s.pending)

  abbrev pub and_then : (Load → Option Load) → Option Load → Option Load
  and_then go none = none
  and_then go (some s) = go s

  unfoldable pub run : List Action → Load → Option Load
  unfolding step
  run [] s = some s
  run (a ∷ rest) s = and_then (run rest) (step a s)
