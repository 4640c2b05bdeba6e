-- ===== src/Protocol/Traced/Methods.antt =====
-- The methods of redis_adapter.py and the reaper, as runs of commands of the protocol.
use anycall.Prelude.{ℕ, Bool, true, false, List, [], ◌∷◌}
use anycall.Text.{Text, ◌==◌}
use anycall.Queues.{inflight_key, heartbeat_key, heartbeat_ttl_seconds, response_queue}
use anycall.Redis.{Redis}
use anycall.Adapter.{release_inflight, respond, respond_commands, inflight_owners, heartbeat}
use anycall.Reaping.{fail_back, reap_one, reap_orphans}
use anycall.Protocol.Traced.{Steady, Traced}
use anycall.Protocol.Traced.Rules.{Traced-then, Traced-pure, Traced-if}
use anycall.Protocol.Traced.Trips.{Traced-round_trip, Traced-pipeline, traced_rules}
use anycall.Protocol.Traced.Commands.{reads, beats_once, releases, answers}

module _ (R : Redis) (steady : Steady R) (ids : List Text) {L : Type 0} (P : L → Type 0) where
  open R use {State}

  pub release_inflight-Traced : (id : Text) → Traced R ids P (release_inflight R inflight_key id)
  unfolding release_inflight
  release_inflight-Traced id = search (traced_rules, Traced-round_trip, releases R steady ids)

  pub respond-Traced :
      (id value : Text) (ttl_seconds : ℕ) (acquired_id : Text)
      → Traced R ids P (respond R (response_queue id) value ttl_seconds inflight_key acquired_id)
  unfolding respond
  respond-Traced id value ttl_seconds acquired_id =
      Traced-pipeline R ids P _ (answers R steady ids id value ttl_seconds acquired_id)

  -- An answer without an in-flight entry sends the same commands, whatever hash it names.
  anonymous-Traced :
      (id value : Text) (ttl_seconds : ℕ)
      → Traced R ids P (respond R (response_queue id) value ttl_seconds [] [])
  unfolding respond respond_commands ◌==◌
  anonymous-Traced id value ttl_seconds =
      Traced-pipeline R ids P _ (answers R steady ids id value ttl_seconds [])

  fail_back-Traced :
      (id owner : Text) (removed : Bool) → Traced R ids P (fail_back R id owner removed)
  unfolding fail_back
  fail_back-Traced id owner false = Traced-pure R ids P tt
  fail_back-Traced id owner true = search (traced_rules, anonymous-Traced)

  reap_one-Traced : (id owner : Text) → Traced R ids P (reap_one R id owner)
  unfolding reap_one
  reap_one-Traced id owner = search (traced_rules, release_inflight-Traced, fail_back-Traced)

  pub reap_orphans-Traced :
      (owners : List (Text × Text)) (alive : List Text)
      → Traced R ids P (reap_orphans R owners alive)
  unfolding reap_orphans
  reap_orphans-Traced [] alive = Traced-pure R ids P tt
  reap_orphans-Traced ((id, owner) ∷ owners) alive =
      Traced-if R ids P _ _ _ (reap_orphans-Traced owners alive)
        (Traced-then R ids P _ _ (reap_one-Traced id owner) (reap_orphans-Traced owners alive))

  pub inflight_owners-Traced : Traced R ids P (inflight_owners R inflight_key)
  unfolding inflight_owners
  inflight_owners-Traced = Traced-round_trip R ids P _ (reads R steady ids (R.hgetall inflight_key))

  pub heartbeat-Traced :
      (me : Text) → Traced R ids P (heartbeat R heartbeat_key me heartbeat_ttl_seconds)
  unfolding heartbeat
  heartbeat-Traced me = search (traced_rules, Traced-round_trip, beats_once R steady ids)
