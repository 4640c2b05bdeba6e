-- ===== src/Server/Limiter.antt =====
-- `ConcurrencyLimiter` of server.py.
use anycall.Prelude.{ℕ, ◌+◌, ◌-◌, Bool, Option, none, some, ltb, if◌then◌else◌}

pub record ConcurrencyLimiter : Type 0 where
  pub capacity : ℕ
  pub in_use : ℕ

abbrev pub new_limiter : ℕ → ConcurrencyLimiter
new_limiter capacity = record { capacity = capacity; in_use = 0 }

unfoldable pub available : ConcurrencyLimiter → Bool
available l = ltb l.in_use l.capacity

-- A caller that gets none waits and tries again.
unfoldable pub acquire : ConcurrencyLimiter → Option ConcurrencyLimiter
unfolding available
acquire l = if available l then some (record l { in_use = l.in_use + 1 }) else none

-- `self._in_use -= 1`. The source's count could fall below 0, here it stops there: the two differ
-- only on a count of 0, which Threads/Caps is about.
unfoldable pub release : ConcurrencyLimiter → ConcurrencyLimiter
release l = record l { in_use = l.in_use - 1 }
