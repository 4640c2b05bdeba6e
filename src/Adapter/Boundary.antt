-- ===== src/Adapter/Boundary.antt =====
-- The two views of who is alive: HEARTBEAT_SCRIPT's, and `alive_members` and `alive_count`.
use anycall.Prelude.{ℕ, ◌+◌, ◌<◌, ◌≡◌, arith, false, some, ltb, leb, eqb, ◌||◌}
use anycall.Prelude.Int.{sub_ℕ}
use anycall.Text.{Text, ◌==◌}
use anycall.Redis.{Redis, contains}
use anycall.Adapter.{heartbeat_script, micros}
use anycall.Adapter.Heartbeat.{heartbeat_alive, alive_members_value}

tests_agree : (now bound : ℕ) → leb now bound ≡ (ltb now bound || eqb now bound)
tests_agree now bound = ground arith

module _ (R : Redis) (key : Text) (ttl : ℕ) where
  open R use {State, time, contents, zrangebyscore}

  -- For a positive TTL and another member with a score, the range that `alive_members` reads at the
  -- server's time and HEARTBEAT_SCRIPT's reply agree, except that only the range has a member whose
  -- heartbeat is exactly the TTL old.
  pub views_differ :
      (member m : Text) (score : ℕ) (s : State)
      → 0 < ttl
      → (member == m) ≡ false
      → (contents s).zset key m ≡ some score
      → contains m (zrangebyscore key (sub_ℕ (time s) (micros ttl)) s) ≡ (
          contains m (heartbeat_script R key member ttl s).0.1 || eqb (time s) (score + micros ttl))
  views_differ member m score s positive other stored =
      rw
        (
          alive_members_value R key ttl m (time s) s,
          heartbeat_alive R key ttl member m s positive,
          other,
          stored,
        )
        (tests_agree (time s) (score + micros ttl))
