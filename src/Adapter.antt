-- ===== src/Adapter.antt =====
-- implementations/python/lib/src/anycall/redis_adapter.py: each method is one or two round trips.
-- Texts that Redis returns as bytes are texts here, so `_text` is the identity.
pub mod Acquire
pub mod NoLoss
pub mod Heartbeat
pub mod Boundary
pub mod Respond
use anycall.Prelude.{
  ℕ, ◌+◌, ◌*◌, Bool, true, false, Option, none, some, List, [], ◌∷◌, eqb, ltb, if◌then◌else◌,
}
use anycall.Prelude.Int.{sub_ℕ}
use anycall.Text.{Text, codes, ◌==◌}
use anycall.Json.{Json, Fields, str, obj, get}
use anycall.Errors.{unfinished}
use anycall.Redis.{Redis}
use anycall.Exec.{Exec, pure, raise, monotonic, round_trip, pipeline, World, ◌>>=◌, ◌>>◌, continue}

-- TTLs are given in seconds, and clocks and scores are read in microseconds.
abbrev pub micros : ℕ → ℕ
micros seconds = seconds * 1000000

-- `request.requestId` of a decoded table, if it is a string
unfoldable pub string_id : Option Json → Option Text
string_id (some (obj d)) = elim (get (codes "requestId") d) [ some (str id) ↦ some id | _ ↦ none ]
string_id _ = none

module _ (R : Redis) where
  open R use {
    State, time, lpush, rpop, llen, del, expire, publish, hset, hdel, hgetall, zadd,
    zremrangebyscore, zrange, zcount, zrangebyscore, cjson_decode,
  }

  -- HEARTBEAT_SCRIPT
  unfoldable pub heartbeat_script : Text → Text → ℕ → State → (ℕ × List Text) × State
  heartbeat_script key member ttl s =
      let now = time s in
      let (added, s1) = zadd key now member s in
      let s2 = zremrangebyscore key (sub_ℕ now (micros ttl)) s1 in
      let s3 = expire key ttl s2 in ((added, zrange key s3), s3)

  -- The entry that ACQUIRE_SCRIPT writes for a popped item, and the id that it returns.
  unfoldable pub record_owner : Text → Text → Option Text → State → Text × State
  record_owner inflight owner none s = ([], s)
  record_owner inflight owner (some id) s = (id, hset inflight id owner s)

  unfoldable pub take_item : Text → Text → Text → Text → State → (Text × Text × Text) × State
  take_item inflight owner key item s =
      let (id, s') = record_owner inflight owner (string_id (cjson_decode item)) s in
      ((key, item, id), s')

  -- ACQUIRE_SCRIPT
  unfoldable pub acquire_script :
      Text → List Text → Text → State → Option (Text × Text × Text) × State
  acquire_script inflight [] owner s = (none, s)
  acquire_script inflight (key ∷ keys) owner s =
      let (popped, s1) = rpop key s in
      elim popped [
        | none ↦ acquire_script inflight keys owner s1
        | some item ↦ let (taken, s2) = take_item inflight owner key item s1 in (some taken, s2)
      ]

  -- BRPOP at the moment when it answers: the first list that has an element, or none when the time
  -- is up.
  unfoldable pub brpop : List Text → State → Option (Text × Text) × State
  brpop [] s = (none, s)
  brpop (key ∷ keys) s =
      let (popped, s1) = rpop key s in
      elim popped [ none ↦ brpop keys s1 | some value ↦ (some (key, value), s1) ]

  unfoldable pub respond_commands : Text → Text → ℕ → Text → Text → List (State → State)
  respond_commands response_queue value ttl_seconds inflight_key request_id =
      lpush response_queue value
      ∷ expire response_queue ttl_seconds
      ∷ (if request_id == [] then [] else (λ s. (hdel inflight_key request_id s).1) ∷ [])

  module _ {L : Type 0} where
    unfoldable pub push : Text → Text → Exec State L ℕ
    push queue_key value =
        round_trip (λ s. let s' = lpush queue_key value s in (llen queue_key s', s'))

    unfoldable pub push_and_wake : Text → Text → Text → Exec State L (Unit {0})
    push_and_wake queue_key value channel =
        pipeline (lpush queue_key value ∷ publish channel (codes "1") ∷ [])

    -- An empty answer comes when the timeout has passed, not before. BRPOP takes 0 as "forever", and
    -- a timeout below a millisecond may be rounded down to it: such a call is still waiting.
    unfoldable pub wait_out : ℕ → Option (Text × Text) → Exec State L (Option (Text × Text))
    wait_out timeout none w =
        if ltb timeout 1000
        then raise unfinished w
        else pure none (record w { clock = w.clock + timeout })
    wait_out timeout (some popped) w = pure (some popped) w

    unfoldable pub pop : List Text → ℕ → Exec State L (Option (Text × Text))
    unfolding brpop wait_out
    pop queue_keys timeout = round_trip (brpop queue_keys) >>= wait_out timeout

    unfoldable pub acquire : Text → List Text → Text → Exec State L (Option (Text × Text × Text))
    acquire inflight_key queue_keys owner =
        round_trip (acquire_script inflight_key queue_keys owner)

    unfoldable pub respond : Text → Text → ℕ → Text → Text → Exec State L (Unit {0})
    unfolding respond_commands
    respond response_queue value ttl_seconds inflight_key request_id =
        pipeline (respond_commands response_queue value ttl_seconds inflight_key request_id)

    unfoldable pub inflight_owners : Text → Exec State L (List (Text × Text))
    inflight_owners inflight_key = round_trip (λ s. (hgetall inflight_key s, s))

    unfoldable pub release_inflight : Text → Text → Exec State L Bool
    release_inflight inflight_key request_id = do
      removed ← round_trip (hdel inflight_key request_id)
      pure (eqb removed 1)

    unfoldable pub delete : Text → Exec State L ℕ
    delete key = round_trip (del key)

    unfoldable pub length : Text → Exec State L ℕ
    length queue_key = round_trip (λ s. (llen queue_key s, s))

    unfoldable pub heartbeat : Text → Text → ℕ → Exec State L (Bool × List Text)
    unfolding heartbeat_script
    heartbeat key member ttl_seconds = do
      reply ← round_trip (heartbeat_script key member ttl_seconds)
      pure (eqb reply.0 1, reply.1)

    unfoldable pub alive_count : Text → ℕ → Exec State L ℕ
    alive_count key ttl_seconds = do
      now ← round_trip (λ s. (time s, s))
      round_trip (λ s. (zcount key (sub_ℕ now (micros ttl_seconds)) s, s))

    unfoldable pub alive_members : Text → ℕ → Exec State L (List Text)
    alive_members key ttl_seconds = do
      now ← round_trip (λ s. (time s, s))
      round_trip (λ s. (zrangebyscore key (sub_ℕ now (micros ttl_seconds)) s, s))
