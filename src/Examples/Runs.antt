-- ===== src/Examples/Runs.antt =====
-- Runs of the theorems on servers and clients that share a Redis.
use anycall.Prelude.{refl, arith, none, some, [], ◌∷◌}
use anycall.Text.{codes, ◌==◌}
use anycall.Assoc.{lookup, insert}
use anycall.Json.{str, obj, field, no_fields, get}
use anycall.Queues.{request_queue, inflight_key, heartbeat_key, heartbeat_ttl_seconds}
use anycall.Redis.{Redis, update}
use anycall.Redis.Memory.{Memory, memory, empty_memory}
use anycall.Adapter.{string_id, record_owner, take_item, acquire_script, heartbeat_script}
use anycall.Protocol.{Traffic, Run, here, next, beat, take, push, wait}
use anycall.Protocol.Reaped.{Fresh, unbeaten}
use anycall.Exec.{World, Turn, answered}
use anycall.Server.{Server, server_with}
use anycall.Client.{Client, reap_if_quiet}
use anycall.Protocol.Traced.{Steady, Started, Lawful, Run-trans}
use anycall.Protocol.Ticks.{Ticked, tick_spares_the_living}
use anycall.Protocol.Waits.{Waited, waiter_spares_the_living}
use anycall.Examples.{echo, id_1, dead, live, a_client}

-- Every item reads as the same request.
abbrev one_request : Redis
one_request = record memory {
  cjson_decode = λ item. some (obj (field (codes "requestId") (str id_1) no_fields));
}

abbrev nothing_yet : Memory
nothing_yet = empty_memory 5

abbrev t0 : Traffic one_request
t0 = unbeaten one_request nothing_yet

abbrev t1 : Traffic one_request
t1 = record {
  redis = (heartbeat_script one_request heartbeat_key dead heartbeat_ttl_seconds t0.redis).1;
  beats = update t0.beats dead (some 5);
}

abbrev t2 : Traffic one_request
t2 = record t1 { redis = one_request.lpush (request_queue echo) (codes "{}") t1.redis }

abbrev t3 : Traffic one_request
t3 = record t2 {
  redis = (acquire_script one_request inflight_key (request_queue echo ∷ []) dead t2.redis).1;
}

abbrev t4 : Traffic one_request
t4 = record t3 { redis = record t3.redis { now = 9000000 } }

taken_run : Run one_request t0 t3
unfolding heartbeat_script acquire_script take_item record_owner string_id get ◌==◌ lookup insert
    request_queue
taken_run =
    next
      (next (next here (beat dead) (omega arith)) (push (request_queue echo) (codes "{}"))
        (omega arith))
      (take dead (request_queue echo ∷ []) refl) (omega arith)

silence_run : Run one_request t3 t4
unfolding heartbeat_script acquire_script take_item record_owner string_id get ◌==◌ lookup insert
    request_queue
silence_run = next here (wait (record t3.redis { now = 9000000 }) refl) (omega arith)

nothing_yet-Fresh : Fresh one_request nothing_yet
unfolding lookup
nothing_yet-Fresh = record { nothing_owned = λ id. refl }

one_request-Steady : Steady one_request
one_request-Steady = record {
  lpush_time = λ k v s. omega arith;
  rpop_time = λ k s. omega arith;
  del_time = λ k s. omega arith;
  expire_time = λ k n s. omega arith;
  publish_time = λ k v s. omega arith;
  hset_time = λ k f v s. omega arith;
  hdel_time = λ k f s. omega arith;
  zadd_time = λ k n m s. omega arith;
  zremrangebyscore_time = λ k bound s. omega arith;
}

dead-Started : Started (dead ∷ []) t4.beats
dead-Started id listed = ground (arith, listed)

-- A client pushes a request before the round trip.
abbrev busy : Turn Memory
busy = record {
  others = λ s. one_request.lpush (request_queue echo) (codes "{}") s;
  elapsed = 3;
  fault = answered;
}

busy-Lawful : Lawful one_request (dead ∷ []) busy
busy-Lawful = record {
  at = λ m started. record {
    beats = m.beats;
    run = next here (push (request_queue echo) (codes "{}")) (omega arith);
  };
}

all_run : Run one_request t0 t4
all_run = Run-trans one_request taken_run silence_run

abbrev ticking : World Memory Server
ticking = record { redis = t4.redis; clock = 7; turns = busy ∷ []; self = server_with live none 0 }

tick_spares_the_living_example : Ticked one_request one_request-Steady (dead ∷ []) t4 ticking
tick_spares_the_living_example =
    tick_spares_the_living one_request one_request-Steady (dead ∷ []) ticking t4.beats
      nothing_yet-Fresh all_run dead-Started (busy-Lawful, tt)

abbrev waiting : World Memory Client
waiting = record { redis = t4.redis; clock = 50000000; turns = busy ∷ []; self = a_client }

waiter_spares_the_living_example :
    Waited one_request one_request-Steady
      (dead ∷ [])
      t4
      waiting
      (reap_if_quiet one_request waiting).1.redis
waiter_spares_the_living_example =
    waiter_spares_the_living one_request one_request-Steady (dead ∷ []) waiting t4.beats
      nothing_yet-Fresh all_run dead-Started (busy-Lawful, tt)
