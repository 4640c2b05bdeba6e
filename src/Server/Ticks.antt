-- ===== src/Server/Ticks.antt =====
-- A whole heartbeat tick of server.py over a working connection.
use anycall.Prelude.{
  ℕ, ◌+◌, ◌≡◌, refl, ◌∙◌, arith, Bool, true, Option, none, some, List, ◌∷◌, ltb, if◌then◌else◌,
  Option-cases, inl, inr,
}
use anycall.Text.{Text, ◌==◌}
use anycall.Assoc.{lookup}
use anycall.Errors.{ok}
use anycall.Queues.{inflight_key, heartbeat_key, heartbeat_ttl_seconds, response_queue}
use anycall.Redis.{Redis, Data, passing}
use anycall.Exec.{alone, round_trip}
use anycall.Adapter.{heartbeat_script, heartbeat, inflight_owners, micros}
use anycall.Adapter.Heartbeat.{heartbeat_alive, heartbeat_contents}
use anycall.Reaping.Effect.{lost_text}
use anycall.Reaping.Claims.{reap_exactly_orphans, expected_queue, expected_entry}
use anycall.Server.{Server}
use anycall.Server.Loops.{read_snapshot, after_snapshot, heartbeat_tick}

-- A server counts as alive for another if its last heartbeat is less than a TTL old.
abbrev pub counts_alive : Text → ℕ → Text → Option ℕ → Bool
counts_alive me now owner beat =
    if me == owner
    then true
    else passing (λ score. ltb now (score + micros heartbeat_ttl_seconds)) beat

-- What a tick of the server `me` at the time `now` makes of a request's owner and responses.
abbrev pub owner_after : Text → ℕ → Data → Option Text → Option Text
owner_after me now d none = none
owner_after me now d (some owner) =
    if counts_alive me now owner (d.zset heartbeat_key owner) then some owner else none

abbrev pub responses_after : Text → ℕ → Data → Text → Option Text → List Text
responses_after me now d id none = d.list (response_queue id)
responses_after me now d id (some owner) =
    if counts_alive me now owner (d.zset heartbeat_key owner)
    then d.list (response_queue id)
    else lost_text id owner ∷ d.list (response_queue id)

module _ (R : Redis) where
  open R use {State, time, contents, hgetall, hgetall_value, hgetall_distinct}

  module _ (s : State) (me id : Text) where
    abbrev beat : (ℕ × List Text) × State
    beat = heartbeat_script R heartbeat_key me heartbeat_ttl_seconds s

    queue_after :
        expected_queue id beat.0.1 (lookup id (hgetall inflight_key s)) (contents beat.1)
        ≡ responses_after me (time s) (contents s) id ((contents s).hash inflight_key id)
    queue_after = elim (Option-cases ((contents s).hash inflight_key id)) [
      | inl nobody ↦
          rw
            (
              hgetall_value inflight_key id s,
              heartbeat_contents R heartbeat_key heartbeat_ttl_seconds me s,
              nobody,
            )
            refl
      | inr (owner, owned) ↦
          rw
            (
              hgetall_value inflight_key id s,
              heartbeat_contents R heartbeat_key heartbeat_ttl_seconds me s,
              owned,
              heartbeat_alive R heartbeat_key heartbeat_ttl_seconds me owner s (omega arith),
            )
            (ground (arith, owned))
    ]

    entry_after :
        expected_entry id beat.0.1 (lookup id (hgetall inflight_key s)) (contents beat.1)
        ≡ owner_after me (time s) (contents s) ((contents s).hash inflight_key id)
    entry_after = elim (Option-cases ((contents s).hash inflight_key id)) [
      | inl nobody ↦
          rw
            (
              hgetall_value inflight_key id s,
              heartbeat_contents R heartbeat_key heartbeat_ttl_seconds me s,
              nobody,
            )
            nobody
      | inr (owner, owned) ↦
          rw
            (
              hgetall_value inflight_key id s,
              heartbeat_contents R heartbeat_key heartbeat_ttl_seconds me s,
              owned,
              heartbeat_alive R heartbeat_key heartbeat_ttl_seconds me owner s (omega arith),
            )
            (ground (arith, owned))
    ]

  -- Over a working connection and with no interference, a heartbeat tick returns normally and fails
  -- back exactly the requests whose owner is another server with no heartbeat or with one that is a
  -- TTL old or older: each loses its entry and gets one server-lost error as its latest response;
  -- the entry and the responses of every other request stay.
  pub tick_fails_back_the_dead :
      (s : State) (clock : ℕ) (self : Server)
      → let (r, w) = heartbeat_tick R (alone s clock self) in
        (r ≡ ok tt)
        × ((id : Text)
            → let owner = (contents s).hash inflight_key id in
              ((contents w.redis).list (response_queue id)
                ≡ responses_after self.server_id (time s) (contents s) id owner)
              × ((contents w.redis).hash inflight_key id
                  ≡ owner_after self.server_id (time s) (contents s) owner))
  unfolding heartbeat_tick read_snapshot after_snapshot inflight_owners heartbeat round_trip
  tick_fails_back_the_dead s clock self =
      let script = heartbeat_script R heartbeat_key self.server_id heartbeat_ttl_seconds s in
      let h =
        reap_exactly_orphans R (hgetall inflight_key s) script.0.1 script.1 clock
          (record self { heartbeat_registered = true }) (hgetall_distinct inflight_key s) in
      (
        h.0,
        λ id. (
          (h.1 id).0 ∙ queue_after s self.server_id id,
          (h.1 id).1 ∙ entry_after s self.server_id id,
        ),
      )
