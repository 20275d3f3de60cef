-- ===== src/Guard/Concurrency.antt =====
-- app/core/abuse_guard.py: ConcurrencyLimiter. The lock makes each method one step.
use istanbulmcp.Prelude.{ℕ, ◌+◌, ◌-◌, Bool, true, false, leb, max, if◌then◌else◌}

pub record ConcurrencyLimiter : Type 0 where
  pub max_concurrent : ℕ
  pub current : ℕ
  pub rejected : ℕ

unfoldable pub init : ℕ → ConcurrencyLimiter
init max_concurrent = record { max_concurrent = max 1 max_concurrent; current = 0; rejected = 0 }

unfoldable pub acquire : ConcurrencyLimiter → ConcurrencyLimiter × Bool
acquire l =
    if leb l.max_concurrent l.current
    then (record l { rejected = l.rejected + 1 }, false)
    else (record l { current = l.current + 1 }, true)

-- `max(0, self.current - 1)` is the subtraction of natural numbers.
unfoldable pub release : ConcurrencyLimiter → ConcurrencyLimiter
release l = record l { current = l.current - 1 }
