-- ===== src/Examples/Press.antt =====
-- The load generator with two workers and two requests.
use xuanqiong.Base.{
  ℕ, ◌+◌, ◌≡◌, ◌≤◌, refl, ◌&&◌, List, [], ◌∷◌, length, ltb, some, if◌then◌else◌, arith,
}
use xuanqiong.Press.{Load, init, Action, fetch, echo, handle_response, run, take_out}
use xuanqiong.Press.Sending.{count, requests_sent_once, load_completed}

abbrev half : List Action
half = fetch ∷ fetch ∷ echo 1 ∷ handle_response 0 ∷ fetch ∷ []

abbrev halfway : Load
halfway = record {
  g_sent = 3;
  g_completed = 1;
  fetching = 0;
  calling = 1 ∷ [];
  finished = 1;
  pending = [];
  issued = 0 ∷ [];
}

run-half : run 2 half (init 2) ≡ some halfway
unfolding run init take_out
run-half = refl

requests_sent_once_example :
    ((j : ℕ) → count j (1 ∷ []) + count j (0 ∷ []) ≡ (if ltb j 2 && ltb j 3 then 1 else 0))
    × (halfway.g_completed + length halfway.pending ≡ length halfway.issued)
    × (3 ≤ 4)
    × (5 ≤ 8)
requests_sent_once_example = requests_sent_once 2 2 half halfway run-half

abbrev whole : List Action
whole = fetch ∷ fetch ∷ echo 1 ∷ handle_response 0 ∷ fetch ∷ echo 0 ∷ fetch ∷ handle_response 0 ∷ []

abbrev complete : Load
complete = record {
  g_sent = 4;
  g_completed = 2;
  fetching = 0;
  calling = [];
  finished = 2;
  pending = [];
  issued = 1 ∷ 0 ∷ [];
}

run-whole : run 2 whole (init 2) ≡ some complete
unfolding run init take_out
run-whole = refl

load_completed_example :
    (complete.g_completed ≡ 2) × ((j : ℕ) → count j (1 ∷ 0 ∷ []) ≡ (if ltb j 2 then 1 else 0))
load_completed_example = load_completed 2 2 whole complete run-whole (omega arith) refl refl
