-- ===== src/Util/Controller.antt =====
-- util/service.h and util/service.cc: the state of an RPC. `SetTimeout` is declared there and
-- defined nowhere in the repository, so it has no model.
use Prim.Native.String.{String}
use xuanqiong.Base.{ℕ, ◌≡◌, refl, ◌≢◌, Bool, true, false, List, [], ◌∷◌, ◌++◌}
use xuanqiong.Base.Int.{ℤ, negsuc}

pub record RpcController : Type 0 where
  pub failed : Bool
  pub canceled : Bool
  pub error_text : String
  pub timeout_ms : ℤ

-- The member initialisers.
unfoldable pub init : RpcController
init = record { failed = false; canceled = false; error_text = ""; timeout_ms = negsuc 0 }

unfoldable pub reset : RpcController → RpcController
reset c = record c { failed = false; canceled = false; error_text = ""; timeout_ms = negsuc 0 }

unfoldable pub start_cancel : RpcController → RpcController
start_cancel c = record c { canceled = true }

-- The callback, an address here, is not kept.
unfoldable pub notify_on_cancel : RpcController → ℕ → RpcController
notify_on_cancel c callback = c

unfoldable pub set_failed : RpcController → String → RpcController
set_failed c reason = record c { failed = true; error_text = reason }

pub data Call : Type 0 where
  resets cancels : Call
  notifies : ℕ → Call
  fails : String → Call

unfoldable pub step : RpcController → Call → RpcController
unfolding reset start_cancel notify_on_cancel set_failed
step c resets = reset c
step c cancels = start_cancel c
step c (notifies callback) = notify_on_cancel c callback
step c (fails reason) = set_failed c reason

unfoldable pub run : RpcController → List Call → RpcController
unfolding step
run c [] = c
run c (k ∷ ks) = run (step c k) ks

-- Whether a call cancels, and the reason of the last failure, in calls without `Reset`.
abbrev pub WithoutReset : List Call → Type 0
WithoutReset [] = Unit {0}
WithoutReset (k ∷ ks) = (k ≢ resets) × WithoutReset ks

abbrev pub last_reason : String → List Call → String
last_reason r [] = r
last_reason r (fails s ∷ ks) = last_reason s ks
last_reason r (resets ∷ ks) = last_reason r ks
last_reason r (cancels ∷ ks) = last_reason r ks
last_reason r (notifies n ∷ ks) = last_reason r ks

abbrev pub any_fails : Bool → List Call → Bool
any_fails b [] = b
any_fails b (fails s ∷ ks) = any_fails true ks
any_fails b (resets ∷ ks) = any_fails b ks
any_fails b (cancels ∷ ks) = any_fails b ks
any_fails b (notifies n ∷ ks) = any_fails b ks

abbrev pub any_cancels : Bool → List Call → Bool
any_cancels b [] = b
any_cancels b (cancels ∷ ks) = any_cancels true ks
any_cancels b (resets ∷ ks) = any_cancels b ks
any_cancels b (fails s ∷ ks) = any_cancels b ks
any_cancels b (notifies n ∷ ks) = any_cancels b ks

run_since :
    (ks : List Call) (c : RpcController)
    → WithoutReset ks
    → run c ks ≡ record c {
      failed = any_fails c.failed ks;
      canceled = any_cancels c.canceled ks;
      error_text = last_reason c.error_text ks;
    }
unfolding run
run_since [] c h = refl
run_since (resets ∷ ks) c h = absurd (h.0 refl)
run_since (cancels ∷ ks) c h = run_since ks (start_cancel c) h.1
run_since (notifies n ∷ ks) c h = run_since ks c h.1
run_since (fails s ∷ ks) c h = run_since ks (set_failed c s) h.1

run-append : (ks ls : List Call) (c : RpcController) → run c (ks ++ ls) ≡ run (run c ks) ls
unfolding run
run-append [] ls c = refl
run-append (k ∷ ks) ls c = run-append ks ls (step c k)

-- After any calls, a `Reset`, and calls among which there is no `Reset`: by the calls after the
-- `Reset` alone, the controller has failed if one was a failure, with the reason of the last, was
-- cancelled if one was a cancellation, and its timeout is -1.
pub run_after_reset :
    (c : RpcController) (ks ls : List Call)
    → WithoutReset ls
    → run c (ks ++ resets ∷ ls) ≡ record {
      failed = any_fails false ls;
      canceled = any_cancels false ls;
      error_text = last_reason "" ls;
      timeout_ms = negsuc 0;
    }
unfolding run
run_after_reset c ks ls h = rw (run-append ks (resets ∷ ls) c) (run_since ls (reset (run c ks)) h)
