-- ===== src/Llm/Retry.antt =====
-- `_run_with_retry` of services/llm.py. The waits between the attempts are left out.
use me_invest_paper.Base.{ℕ, zero, suc, Bool, true, false, leb, if◌then◌else◌}

-- The exceptions, by the classes that `_is_transient` tests.
pub data Failure : Type 0 where
  rate_limit api_timeout api_connection internal_server : Failure
  api_status : ℕ → Failure
  other : Failure

abbrev pub is_transient : Failure → Bool
is_transient rate_limit = true
is_transient api_timeout = true
is_transient api_connection = true
is_transient internal_server = true
is_transient (api_status code) = leb 500 code
is_transient other = false

pub data Attempt (R : Type 0) : Type 0 where
  done : R → Attempt R
  failed : Failure → Attempt R

module _ {W R : Type 0} where
  -- What an attempt gives, or what the further ones give after a transient failure.
  abbrev pub settle_attempt : Attempt R × W → Attempt R × W → Attempt R × W
  settle_attempt (done r, w) further = (done r, w)
  settle_attempt (failed e, w) further = if is_transient e then further else (failed e, w)

  -- An attempt with so many left after it.
  unfoldable pub attempts : (W → Attempt R × W) → ℕ → W → Attempt R × W
  attempts fn zero w = fn w
  attempts fn (suc left) w = settle_attempt (fn w) (attempts fn left (fn w).1)

  -- `_RETRY_MAX_ATTEMPTS` is three.
  unfoldable pub run_with_retry : (W → Attempt R × W) → W → Attempt R × W
  run_with_retry fn w = attempts fn 2 w
