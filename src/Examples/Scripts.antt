-- ===== src/Examples/Scripts.antt =====
-- Runs of the theorems on the scripts and pipelines of the adapter.
use anycall.Prelude.{
  ◌≡◌, refl, ◌⊎◌, arith, ◌||◌, eqb, ◌++◌, ◌+◌, some, [], ◌∷◌, if◌then◌else◌, true,
}
use anycall.Prelude.Int.{sub_ℕ}
use anycall.Text.{Text, codes, ◌==◌}
use anycall.Assoc.{lookup}
use anycall.Queues.{
  inflight_key, heartbeat_key, heartbeat_ttl_seconds, request_queue, response_queue,
  response_ttl_seconds,
}
use anycall.Redis.{contains, passing}
use anycall.Redis.Memory.{memory, stored}
use anycall.Exec.{run_first}
use anycall.Adapter.{acquire_script, heartbeat_script, micros, respond_commands}
use anycall.Adapter.Acquire.{acquire_spec, id_of, acquire_script_refines}
use anycall.Adapter.NoLoss.{taken_from, acquire_never_loses}
use anycall.Adapter.Respond.{pushed, released, respond_cut}
use anycall.Adapter.Heartbeat.{heartbeat_alive, fresh}
use anycall.Adapter.Boundary.{views_differ}
use anycall.Examples.{echo, id_1, dead, live, crashed, queued}

acquire_never_loses_example :
    let result = acquire_script memory inflight_key (request_queue echo ∷ []) live queued in
    ((j : Text) → (stored queued).list j ≡ (stored result.1).list j ++ taken_from j result.0)
    × ((key item reply id : Text)
        → result.0 ≡ some (key, item, reply)
        → id_of memory item ≡ some id
        → (stored result.1).hash inflight_key id ≡ some live)
acquire_never_loses_example =
    acquire_never_loses memory inflight_key live (request_queue echo ∷ []) queued

acquire_script_refines_example :
    let keys = request_queue echo ∷ [] in
    let result = acquire_script memory inflight_key keys live queued in
    (result.0 ≡ (acquire_spec memory inflight_key live keys (stored queued)).0)
    × (stored result.1 ≡ (acquire_spec memory inflight_key live keys (stored queued)).1)
acquire_script_refines_example =
    acquire_script_refines memory inflight_key live (request_queue echo ∷ []) queued

abbrev answer : Text
answer = codes "{}"

respond_cut_example :
    let cut_off =
      run_first 2
        (respond_commands memory
          (response_queue id_1)
          answer
          response_ttl_seconds
          inflight_key
          id_1)
        crashed in
    (stored cut_off ≡ stored crashed)
    ⊎ (stored cut_off ≡ pushed (response_queue id_1) answer (stored crashed))
    ⊎ (stored cut_off
        ≡ released inflight_key id_1 (pushed (response_queue id_1) answer (stored crashed)))
respond_cut_example =
    respond_cut memory (response_queue id_1) answer response_ttl_seconds inflight_key id_1 2 crashed

heartbeat_alive_example :
    contains dead (heartbeat_script memory heartbeat_key live heartbeat_ttl_seconds crashed).0.1 ≡ (
      if live == dead
      then true
      else passing
          (fresh memory heartbeat_key heartbeat_ttl_seconds 100000000)
          ((stored crashed).zset heartbeat_key dead))
heartbeat_alive_example =
    heartbeat_alive memory heartbeat_key heartbeat_ttl_seconds live dead crashed (omega arith)

views_differ_example :
    contains dead
      (memory.zrangebyscore heartbeat_key (sub_ℕ 100000000 (micros heartbeat_ttl_seconds)) crashed)
    ≡ (contains dead (heartbeat_script memory heartbeat_key live heartbeat_ttl_seconds crashed).0.1
        || eqb 100000000 (92000000 + micros heartbeat_ttl_seconds))
unfolding ◌==◌ lookup
views_differ_example =
    views_differ memory heartbeat_key heartbeat_ttl_seconds live dead 92000000 crashed (omega arith)
      refl refl
