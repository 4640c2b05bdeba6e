-- ===== src/Adapter/Heartbeat.antt =====
-- Who counts as alive: HEARTBEAT_SCRIPT, `alive_count` and `alive_members` of redis_adapter.py.
use anycall.Prelude.{
  ℕ, ◌+◌, ◌<◌, ◌≡◌, refl, ap, fun_ext, ◌∙◌, Bool, true, false, Option, none, some, arith, ltb, leb,
  if◌then◌else◌, is_some, List, [], ◌∷◌, length,
}
use anycall.Prelude.Int.{sub_ℕ, at_least, at_most, at_most-sub_ℕ, at_least-sub_ℕ}
use anycall.Text.{Text, ◌==◌}
use anycall.Text.Equality.{eq_self}
use anycall.Redis.{Redis, Data, update, contains, passing, drop_passing}
use anycall.Adapter.{heartbeat_script, micros}

kept :
    (now ttl : ℕ) (b : Bool) (o : Option ℕ)
    → 0 < ttl
    → is_some (drop_passing (at_most (sub_ℕ now ttl)) (if b then some now else o))
      ≡ (if b then true else passing (λ score. ltb now (score + ttl)) o)
kept now ttl true o h = ground (arith, at_most-sub_ℕ now ttl now)
kept now ttl false none h = refl
kept now ttl false (some score) h = ground (arith, at_most-sub_ℕ now ttl score)

bound :
    (now ttl : ℕ) (o : Option ℕ)
    → passing (at_least (sub_ℕ now ttl)) o ≡ passing (λ score. leb now (score + ttl)) o
bound now ttl none = refl
bound now ttl (some score) = at_least-sub_ℕ now ttl score

length_none : (xs : List Text) → ((m : Text) → contains m xs ≡ false) → length xs ≡ 0
length_none [] h = refl
length_none (x ∷ xs) h = ground (arith, h x, eq_self x)

length_some : (m : Text) (xs : List Text) → contains m xs ≡ true → 0 < length xs
length_some m [] h = cc
length_some m (x ∷ xs) h = omega arith

module _ (R : Redis) (key : Text) (ttl : ℕ) where
  open R use {
    State, time, contents, zadd, zremrangebyscore, expire, zrange, zrangebyscore, contents-zadd,
    contents-zremrangebyscore, contents-expire, zrange_value, zrangebyscore_value, zadd_value,
    zcount, zcount_value,
  }

  -- A score is fresh for a heartbeat if it is less than `ttl` old.
  abbrev pub fresh : ℕ → ℕ → Bool
  fresh now score = ltb now (score + micros ttl)

  -- What the script leaves in the sorted set.
  abbrev pub refreshed : Text → State → Text → Option ℕ
  refreshed member s m =
      drop_passing (at_most (sub_ℕ (time s) (micros ttl)))
        (update ((contents s).zset key) member (some (time s)) m)

  pub heartbeat_contents :
      (member : Text) (s : State)
      → contents (heartbeat_script R key member ttl s).1
        ≡ record (contents s) { zset = update (contents s).zset key (refreshed member s) }
  unfolding heartbeat_script
  heartbeat_contents member s =
      contents-expire key ttl _
      ∙ contents-zremrangebyscore key (sub_ℕ (time s) (micros ttl)) (zadd key (time s) member s).1
      ∙ rw (contents-zadd key (time s) member s, eq_self key)
          (ap with_zset (fun_ext λ j. ground arith))
    where
      with_zset : (Text → Text → Option ℕ) → Data
      with_zset z = record (contents s) { zset = z }

  -- For a positive TTL, after a heartbeat its own server counts as alive, and any other exactly if
  -- its last heartbeat is less than the TTL old.
  pub heartbeat_alive :
      (member m : Text) (s : State)
      → 0 < ttl
      → contains m (heartbeat_script R key member ttl s).0.1
        ≡ (if member == m then true else passing (fresh (time s)) ((contents s).zset key m))
  unfolding heartbeat_script
  heartbeat_alive member m s h =
      rw (zrange_value key m _, heartbeat_contents member s, eq_self key)
        (kept (time s) (micros ttl) (member == m) ((contents s).zset key m) (omega arith))

  -- For a client's check a server is alive if its last heartbeat is at most `ttl` old.
  pub alive_members_value :
      (m : Text) (now : ℕ) (s : State)
      → contains m (zrangebyscore key (sub_ℕ now (micros ttl)) s)
        ≡ passing (λ score. leb now (score + micros ttl)) ((contents s).zset key m)
  alive_members_value m now s =
      zrangebyscore_value key m (sub_ℕ now (micros ttl)) s
      ∙ bound now (micros ttl) ((contents s).zset key m)

  -- So a client's count is zero exactly if no heartbeat is at most `ttl` old.
  pub zcount_none :
      (now : ℕ) (s : State)
      → ((m : Text)
          → passing (λ score. leb now (score + micros ttl)) ((contents s).zset key m) ≡ false)
      → zcount key (sub_ℕ now (micros ttl)) s ≡ 0
  zcount_none now s nobody =
      zcount_value key (sub_ℕ now (micros ttl)) s
      ∙ length_none (zrangebyscore key (sub_ℕ now (micros ttl)) s)
          (λ m. alive_members_value m now s ∙ nobody m)

  pub zcount_some :
      (now : ℕ) (s : State) (m : Text)
      → passing (λ score. leb now (score + micros ttl)) ((contents s).zset key m) ≡ true
      → 0 < zcount key (sub_ℕ now (micros ttl)) s
  zcount_some now s m alive = omega (
    arith,
    zcount_value key (sub_ℕ now (micros ttl)) s,
    length_some m (zrangebyscore key (sub_ℕ now (micros ttl)) s)
        (alive_members_value m now s ∙ alive),
  )
