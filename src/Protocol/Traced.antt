-- ===== src/Protocol/Traced.antt =====
-- When an action of one process, over a connection that may be cut off and with others' commands in
-- between, is a run of commands of the protocol.
pub mod Rules
pub mod Trips
pub mod Commands
pub mod Methods
pub mod Replies
pub mod Servers
pub mod Clients
use anycall.Prelude.{ℕ, ◌≤◌, ◌≡◌, arith, true, Option, List, [], ◌∷◌, is_some}
use anycall.Prelude.Int.{ℤ}
use anycall.Text.{Text}
use anycall.Redis.{Redis, contains}
use anycall.Exec.{World, Exec, Turn, run_first, run_all}
use anycall.Protocol.{Traffic, Step, Run, here, next}
use anycall.Protocol.Kept.{beats-Run}

module _ (R : Redis) where
  open R use {State, time, lpush, rpop, del, expire, publish, hset, hdel, zadd, zremrangebyscore}

  -- Redis's clock does not go back while a command runs.
  pub record Steady : Type 0 where
    pub lpush_time : (k v : Text) (s : State) → time s ≤ time (lpush k v s)
    pub rpop_time : (k : Text) (s : State) → time s ≤ time (rpop k s).1
    pub del_time : (k : Text) (s : State) → time s ≤ time (del k s).1
    pub expire_time : (k : Text) (n : ℕ) (s : State) → time s ≤ time (expire k n s)
    pub publish_time : (k v : Text) (s : State) → time s ≤ time (publish k v s)
    pub hset_time : (k f v : Text) (s : State) → time s ≤ time (hset k f v s)
    pub hdel_time : (k f : Text) (s : State) → time s ≤ time (hdel k f s).1
    pub zadd_time : (k : Text) (n : ℕ) (m : Text) (s : State) → time s ≤ time (zadd k n m s).1
    pub zremrangebyscore_time :
        (k : Text) (bound : ℤ) (s : State) → time s ≤ time (zremrangebyscore k bound s)

  pub Run-trans : {m n o : Traffic R} → Run R m n → Run R n o → Run R m o
  Run-trans r here = r
  Run-trans r (next run step le) = next (Run-trans r run) step le

  pub Run-time : {m n : Traffic R} → Run R m n → time m.redis ≤ time n.redis
  Run-time here = omega arith
  Run-time (next run step le) = omega (arith, le, Run-time run)

  pub one : {m n : Traffic R} → Step R m n → time m.redis ≤ time n.redis → Run R m n
  one step le = next here step le

-- The servers that have heartbeaten.
abbrev pub Started : List Text → (Text → Option ℕ) → Type 0
Started ids beats = (id : Text) → contains id ids ≡ true → is_some (beats id) ≡ true

module _ (R : Redis) (ids : List Text) where
  open R use {State, time}

  -- A run of commands to a state of Redis, among which may be heartbeats.
  pub record Follow (m : Traffic R) (s : State) : Type 0 where
    pub beats : Text → Option ℕ
    pub run : Run R m (record { redis = s; beats = beats })

  pub record Follows {A : Type 0} (command : State → A × State) : Type 0 where
    pub at : (m : Traffic R) → Started ids m.beats → Follow m (command m.redis).1

  pub record FollowsAll (commands : List (State → State)) : Type 0 where
    pub first : (m : Traffic R) (n : ℕ) → Follow m (run_first n commands m.redis)
    pub all : (m : Traffic R) → Follow m (run_all commands m.redis)

  -- What others do before a round trip is a run of commands.
  pub record Lawful (t : Turn State) : Type 0 where
    pub at : (m : Traffic R) → Started ids m.beats → Follow m (t.others m.redis)

  abbrev pub AllLawful : List (Turn State) → Type 0
  AllLawful [] = Unit {0}
  AllLawful (t ∷ ts) = Lawful t × AllLawful ts

  pub Started-Run :
      {m : Traffic R} {n : Traffic R} → Run R m n → Started ids m.beats → Started ids n.beats
  Started-Run run started id listed = beats-Run R id run (started id listed)

  module _ {L : Type 0} (P : L → Type 0) where
    -- What holds after an action: a run has been made, and the turns left are as lawful.
    pub record After (m : Traffic R) (w : World State L) : Type 0 where
      pub beats : Text → Option ℕ
      pub run : Run R m (record { redis = w.redis; beats = beats })
      pub lawful : AllLawful w.turns
      pub kept : P w.self

    -- Every execution is a run, which keeps `P` of the calling object.
    pub record Traced {A : Type 0} (m : Exec State L A) : Type 0 where
      pub at :
          (w : World State L) (beats : Text → Option ℕ)
          → Started ids beats
          → AllLawful w.turns
          → P w.self
          → After (record { redis = w.redis; beats = beats }) (m w).1
