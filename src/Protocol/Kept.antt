-- ===== src/Protocol/Kept.antt =====
-- What the commands of servers and clients keep of what the heartbeats say about owners.
use anycall.Prelude.{
  ℕ, ◌+◌, ◌≤◌, ◌≡◌, refl, arith, true, Option, none, some, List, is_some, inl, inr,
}
use anycall.Text.{Text}
use anycall.Text.Equality.{eq_self, eq_iff}
use anycall.Queues.{inflight_key, heartbeat_key, heartbeat_ttl_seconds, response_queue}
use anycall.Redis.{Redis, Data, update}
use anycall.Exec.{run_first}
use anycall.Adapter.{heartbeat_script, acquire_script, respond_commands, micros}
use anycall.Adapter.Acquire.{id_of, acquired, first_ready, acquire_script_refines}
use anycall.Adapter.Respond.{respond_cut}
use anycall.Adapter.Heartbeat.{heartbeat_contents}
use anycall.Protocol.{
  Traffic, Step, beat, take, answer, release, push, pop, wake, clean_up, fade, expire, wait, Run,
  here, next,
}
use anycall.Protocol.Silence.{
  Known, Quiet, Quiet-Known, Quiet-lists, Quiet-self, Quiet-released, response_queue-ne, beat_past,
  beat_stands, with_owner-Known,
}

module _ (R : Redis) where
  open R use {
    State, time, contents, contents-lpush, contents-rpop, contents-publish, contents-hdel,
    contents-del,
  }

  abbrev pub KnownIn : Traffic R → Type 0
  KnownIn m = Known (contents m.redis) (time m.redis) m.beats

  Quiet-answer :
      (n : ℕ) (request_id value : Text) (ttl_seconds : ℕ) (acquired_id : Text) (s : State)
      → Quiet (contents s) (
          contents (
            run_first n
              (respond_commands R
                (response_queue request_id)
                value
                ttl_seconds
                inflight_key
                acquired_id)
              s))
  Quiet-answer n request_id value ttl_seconds acquired_id s =
      elim (respond_cut R (response_queue request_id) value ttl_seconds inflight_key acquired_id n
        s) [
          | inl nothing ↦ Quiet-self _ _ nothing
          | inr (inl response) ↦ Quiet-lists _ _ _ response
          | inr (inr all) ↦
              rw all (Quiet-released (response_queue request_id) value acquired_id (contents s))
        ]

  Quiet-del :
      (request_id : Text) (s : State)
      → Quiet (contents s) (contents (R.del (response_queue request_id) s).1)
  Quiet-del request_id s = rw (contents-del (response_queue request_id) s) (record {
    drops = λ id owner there. ground arith;
    same = λ server_id. rw (response_queue-ne request_id);
  })

  Quiet-hdel : (id : Text) (s : State) → Quiet (contents s) (contents (R.hdel inflight_key id s).1)
  Quiet-hdel id s = rw (contents-hdel inflight_key id s) (record {
    drops = λ i owner there. ground (arith, eq_self inflight_key, eq_iff id i);
    same = λ server_id. refl;
  })

  beat-Known :
      (me : Text) (s : State) (later : ℕ) (beats : Text → Option ℕ)
      → time s ≤ later
      → Known (contents s) (time s) beats
      → Known
          (contents (heartbeat_script R heartbeat_key me heartbeat_ttl_seconds s).1)
          later
          (update beats me (some (time s)))
  beat-Known me s later beats le k =
      rw (heartbeat_contents R heartbeat_key heartbeat_ttl_seconds me s) (record {
        owner_beat = λ id owner there. ground (arith, k.owner_beat id owner there);
        past = λ server_id last h.
            beat_past me server_id last (time s) later beats le (k.past server_id last) h;
        stands = λ server_id last h fresh. rw (eq_self heartbeat_key) (
            beat_stands me server_id last (time s) later beats ((contents s).zset heartbeat_key) le
              (k.stands server_id last) h fresh);
      })

  take-Known :
      (owner : Text) (keys : List Text) (s : State) (later : ℕ) (beats : Text → Option ℕ)
      → is_some (beats owner) ≡ true
      → time s ≤ later
      → Known (contents s) (time s) beats
      → Known (contents (acquire_script R inflight_key keys owner s).1) later beats
  take-Known owner keys s later beats started le k =
      rw ((acquire_script_refines R inflight_key owner keys s).1)
        (acquired-Known (first_ready (contents s).list keys))
    where
      acquired-Known :
          (o : Option (Text × Text))
          → Known (acquired R inflight_key owner (contents s) o).1 later beats
      acquired-Known none = Quiet-Known (Quiet-self (contents s) _ refl) le k
      acquired-Known (some (key, item)) =
          with_owner-Known (id_of R item) owner (contents s) _ (time s) later beats started le k

  expire-Known :
      (d e : Data) (now later : ℕ) (beats : Text → Option ℕ)
      → e ≡ record d { zset = update d.zset heartbeat_key (λ _. none) }
      → ((server_id : Text) (last : ℕ)
          → beats server_id ≡ some last
          → last + micros heartbeat_ttl_seconds ≤ later)
      → now ≤ later
      → Known d now beats
      → Known e later beats
  expire-Known d e now later beats h old le k = rw h (record {
    owner_beat = k.owner_beat;
    past = λ server_id last b. omega (arith, le, k.past server_id last b);
    stands = λ server_id last b fresh. absurd (omega (arith, fresh, old server_id last b));
  })

  Step-Known : {m n : Traffic R} → Step R m n → time m.redis ≤ time n.redis → KnownIn m → KnownIn n
  Step-Known {m} (beat server_id) le k = beat-Known server_id m.redis _ m.beats le k
  Step-Known {m} (take server_id queue_keys started) le k =
      take-Known server_id queue_keys m.redis _ m.beats started le k
  Step-Known {m} (answer n request_id value ttl_seconds acquired_id) le k =
      Quiet-Known (Quiet-answer n request_id value ttl_seconds acquired_id m.redis) le k
  Step-Known {m} (release request_id) le k = Quiet-Known (Quiet-hdel request_id m.redis) le k
  Step-Known {m} (push queue value) le k =
      Quiet-Known (Quiet-lists _ _ _ (contents-lpush queue value m.redis)) le k
  Step-Known {m} (pop queue) le k =
      Quiet-Known (Quiet-lists _ _ _ (contents-rpop queue m.redis)) le k
  Step-Known {m} (wake channel message) le k =
      Quiet-Known (Quiet-self _ _ (contents-publish channel message m.redis)) le k
  Step-Known {m} (clean_up request_id) le k = Quiet-Known (Quiet-del request_id m.redis) le k
  Step-Known {m} (fade request_id s same) le k = Quiet-Known (Quiet-lists _ _ _ same) le k
  Step-Known {m} (expire s gone old) le k = expire-Known _ _ _ _ m.beats gone old le k
  Step-Known {m} (wait s same) le k = Quiet-Known (Quiet-self _ _ same) le k

  pub Run-Known : {m n : Traffic R} → Run R m n → KnownIn m → KnownIn n
  Run-Known here k = k
  Run-Known (next run step le) k = Step-Known step le (Run-Known run k)

  beats-Step :
      {m n : Traffic R} (server_id : Text)
      → Step R m n
      → is_some (m.beats server_id) ≡ true
      → is_some (n.beats server_id) ≡ true
  beats-Step server_id (beat me) b = ground (arith, b)
  beats-Step server_id (take me queue_keys started) b = b
  beats-Step server_id (answer n request_id value ttl_seconds acquired_id) b = b
  beats-Step server_id (release request_id) b = b
  beats-Step server_id (push queue value) b = b
  beats-Step server_id (pop queue) b = b
  beats-Step server_id (wake channel message) b = b
  beats-Step server_id (clean_up request_id) b = b
  beats-Step server_id (fade request_id s same) b = b
  beats-Step server_id (expire s gone old) b = b
  beats-Step server_id (wait s same) b = b

  pub beats-Run :
      {m n : Traffic R} (server_id : Text)
      → Run R m n
      → is_some (m.beats server_id) ≡ true
      → is_some (n.beats server_id) ≡ true
  beats-Run server_id here b = b
  beats-Run server_id (next run step le) b = beats-Step server_id step (beats-Run server_id run b)
