-- ===== src/Protocol/Traced/Commands.antt =====
-- The commands and scripts of redis_adapter.py as runs of the protocol.
use anycall.Prelude.{
  ℕ, zero, suc, ◌≤◌, ◌≡◌, refl, sym, subst, length, arith, true, Option, none, some, List, [], ◌∷◌,
  Option-cases, inl, inr, Bool-cases,
}
use anycall.Text.{Text, ◌==◌}
use anycall.Queues.{inflight_key, heartbeat_key, heartbeat_ttl_seconds, response_queue}
use anycall.Redis.{Redis, contains}
use anycall.Exec.{run_first, run_all}
use anycall.Adapter.{
  string_id, record_owner, take_item, acquire_script, heartbeat_script, brpop, respond_commands,
}
use anycall.Protocol.{
  Traffic, Run, here, next, beat, take, answer, release, push, pop, wake, clean_up,
}
use anycall.Protocol.Traced.{Steady, one, Follow, Follows, FollowsAll}

module _ (R : Redis) (steady : Steady R) (ids : List Text) where
  open R use {
    State, time, lpush, rpop, del, publish, hset, hdel, zadd, zremrangebyscore, expire,
    cjson_decode,
  }

  -- What only reads.
  pub reads : {A : Type 0} (f : State → A) → Follows R ids (λ s. (f s, s))
  reads f = record { at = λ m started. record { beats = m.beats; run = here } }

  pub heartbeat_time :
      (me : Text) (s : State)
      → time s ≤ time (heartbeat_script R heartbeat_key me heartbeat_ttl_seconds s).1
  unfolding heartbeat_script
  heartbeat_time me s =
      let s1 = (zadd heartbeat_key (time s) me s).1 in
      omega (
        arith,
        steady.zadd_time heartbeat_key (time s) me s,
        steady.zremrangebyscore_time heartbeat_key _ s1,
        steady.expire_time heartbeat_key heartbeat_ttl_seconds
            (zremrangebyscore heartbeat_key _ s1),
      )

  pub beats_once :
      (me : Text) → Follows R ids (heartbeat_script R heartbeat_key me heartbeat_ttl_seconds)
  beats_once me = record {
    at = λ m started. record { beats = _; run = one R (beat me) (heartbeat_time me m.redis) };
  }

  record_owner_time :
      (owner : Text) (id : Option Text) (s : State)
      → time s ≤ time (record_owner R inflight_key owner id s).1
  unfolding record_owner
  record_owner_time owner none s = omega arith
  record_owner_time owner (some id) s = steady.hset_time inflight_key id owner s

  acquire_time :
      (owner : Text) (keys : List Text) (s : State)
      → time s ≤ time (acquire_script R inflight_key keys owner s).1
  unfolding acquire_script take_item
  acquire_time owner [] s = omega arith
  acquire_time owner (key ∷ keys) s =
      let before = steady.rpop_time key s in
      elim (Option-cases (rpop key s).0) [
        | inl empty ↦
            rw (empty, acquire_script)
              (omega (arith, before, acquire_time owner keys (rpop key s).1))
        | inr (item, taken) ↦
            rw (taken, acquire_script)
              (omega (
                arith,
                before,
                record_owner_time owner (string_id (cjson_decode item)) (rpop key s).1,
              ))
      ]

  pub takes :
      (me : Text) (keys : List Text)
      → contains me ids ≡ true
      → Follows R ids (acquire_script R inflight_key keys me)
  takes me keys listed = record {
    at = λ m started. record {
      beats = m.beats;
      run = one R (take me keys (started me listed)) (acquire_time me keys m.redis);
    };
  }

  pub releases : (id : Text) → Follows R ids (hdel inflight_key id)
  releases id = record {
    at = λ m started. record {
      beats = m.beats;
      run = one R (release id) (steady.hdel_time inflight_key id m.redis);
    };
  }

  pub cleans_up : (id : Text) → Follows R ids (del (response_queue id))
  cleans_up id = record {
    at = λ m started. record {
      beats = m.beats;
      run = one R (clean_up id) (steady.del_time (response_queue id) m.redis);
    };
  }

  pub pops : (key : Text) → Follows R ids (brpop R (key ∷ []))
  unfolding brpop
  pops key = record {
    at = λ m started. elim (Option-cases (rpop key m.redis).0) [
      | inl empty ↦
          rw (empty, brpop)
            (record { beats = m.beats; run = one R (pop key) (steady.rpop_time key m.redis) })
      | inr (item, taken) ↦
          rw (taken, brpop)
            (record { beats = m.beats; run = one R (pop key) (steady.rpop_time key m.redis) })
    ];
  }

  abbrev Forwards : List (State → State) → Type 0
  Forwards [] = Unit {0}
  Forwards (c ∷ cs) = ((s : State) → time s ≤ time (c s)) × Forwards cs

  run_first_time :
      (n : ℕ) (cs : List (State → State)) (s : State)
      → Forwards cs
      → time s ≤ time (run_first n cs s)
  unfolding run_first
  run_first_time zero cs s h = omega arith
  run_first_time (suc n) [] s h = omega arith
  run_first_time (suc n) (c ∷ cs) s h = omega (arith, h.0 s, run_first_time n cs (c s) h.1)

  run_all_first :
      (cs : List (State → State)) (s : State) → run_all cs s ≡ run_first (length cs) cs s
  unfolding run_all run_first
  run_all_first [] s = refl
  run_all_first (c ∷ cs) s = run_all_first cs (c s)

  FollowsAll-first :
      (cs : List (State → State))
      → ((m : Traffic R) (n : ℕ) → Follow R ids m (run_first n cs m.redis))
      → FollowsAll R ids cs
  FollowsAll-first cs h = record {
    first = h;
    all = λ m. subst (Follow R ids m) (sym (run_all_first cs m.redis)) (h m (length cs));
  }

  respond-Forwards :
      (queue value : Text) (ttl_seconds : ℕ) (acquired_id : Text)
      → Forwards (respond_commands R queue value ttl_seconds inflight_key acquired_id)
  unfolding respond_commands
  respond-Forwards queue value ttl_seconds acquired_id = (
    steady.lpush_time queue value,
    (
      steady.expire_time queue ttl_seconds,
      elim (Bool-cases (acquired_id == [])) [
        | inl anonymous ↦ rw anonymous tt
        | inr named ↦ rw named (steady.hdel_time inflight_key acquired_id, tt)
      ],
    ),
  )

  -- A response, cut off or not.
  pub answers :
      (id value : Text) (ttl_seconds : ℕ) (acquired_id : Text)
      → FollowsAll R ids
          (respond_commands R (response_queue id) value ttl_seconds inflight_key acquired_id)
  answers id value ttl_seconds acquired_id = FollowsAll-first _ (λ m n. record {
    beats = m.beats;
    run = one R (answer n id value ttl_seconds acquired_id) (
        run_first_time n _ m.redis
          (respond-Forwards (response_queue id) value ttl_seconds acquired_id));
  })

  pushed :
      (queue value channel message : Text) (m : Traffic R) (n : ℕ)
      → Run R m (record m {
        redis = run_first n (lpush queue value ∷ publish channel message ∷ []) m.redis;
      })
  unfolding run_first
  pushed queue value channel message m zero = here
  pushed queue value channel message m (suc zero) =
      one R (push queue value) (steady.lpush_time queue value m.redis)
  pushed queue value channel message m (suc (suc zero)) =
      next (one R (push queue value) (steady.lpush_time queue value m.redis)) (wake channel message)
        (steady.publish_time channel message (lpush queue value m.redis))
  pushed queue value channel message m (suc (suc (suc n))) =
      next (one R (push queue value) (steady.lpush_time queue value m.redis)) (wake channel message)
        (steady.publish_time channel message (lpush queue value m.redis))

  -- A request and the message that wakes the servers, cut off or not.
  pub pushes :
      (queue value channel message : Text)
      → FollowsAll R ids (lpush queue value ∷ publish channel message ∷ [])
  pushes queue value channel message =
      FollowsAll-first _
        (λ m n. record { beats = m.beats; run = pushed queue value channel message m n })
