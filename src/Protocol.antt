-- ===== src/Protocol.antt =====
-- An environment for the servers and clients of one Redis, a command, script or cut-off pipeline of
-- redis_adapter.py at a time. It is wider than what they send: anyone may push on any list, pop from
-- any, drop any in-flight entry and answer any request. What holds after every run of it holds after
-- every run of the program. Only who takes requests is kept to the program's order: a server takes
-- them after a heartbeat of its own, which `start` of server.py sends first; `beats` notes when each
-- one last sent one.
pub mod Silence
pub mod Kept
pub mod Reaped
pub mod Traced
pub mod Ticks
pub mod Living
pub mod Waits
pub mod Lives
pub mod Called
use anycall.Prelude.{ℕ, ◌≤◌, ◌≡◌, Bool, true, Option, none, some, List, [], ◌+◌, is_some}
use anycall.Text.{Text}
use anycall.Queues.{inflight_key, heartbeat_key, heartbeat_ttl_seconds, response_queue}
use anycall.Redis.{Redis, update}
use anycall.Exec.{run_first}
use anycall.Adapter.{heartbeat_script, acquire_script, respond_commands, micros}

module _ (R : Redis) where
  open R use {State, time, contents, lpush, rpop, publish, hdel, del}

  pub record Traffic : Type 0 where
    pub redis : State
    pub beats : Text → Option ℕ

  pub data Step (m : Traffic) : Traffic → Type 0 where
    beat :
        (server_id : Text)
        → Step m (record m {
          redis = (heartbeat_script R heartbeat_key server_id heartbeat_ttl_seconds m.redis).1;
          beats = update m.beats server_id (some (time m.redis));
        })
    take :
        (server_id : Text) (queue_keys : List Text)
        → is_some (m.beats server_id) ≡ true
        → Step m
            (record m { redis = (acquire_script R inflight_key queue_keys server_id m.redis).1 })
    answer :
        (n : ℕ) (request_id value : Text) (ttl_seconds : ℕ) (acquired_id : Text)
        → Step m (record m {
          redis =
              run_first n
                (respond_commands R
                  (response_queue request_id)
                  value
                  ttl_seconds
                  inflight_key
                  acquired_id)
                m.redis;
        })
    release :
        (request_id : Text) → Step m (record m { redis = (hdel inflight_key request_id m.redis).1 })
    push : (queue value : Text) → Step m (record m { redis = lpush queue value m.redis })
    pop : (queue : Text) → Step m (record m { redis = (rpop queue m.redis).1 })
    wake : (channel message : Text) → Step m (record m { redis = publish channel message m.redis })
    clean_up :
        (request_id : Text)
        → Step m (record m { redis = (del (response_queue request_id) m.redis).1 })
    -- Redis drops what has expired: a response queue, and the heartbeats 8 seconds after the last.
    fade :
        (request_id : Text) (s : State)
        → contents s ≡ record (contents m.redis) {
          list = update (contents m.redis).list (response_queue request_id) [];
        }
        → Step m (record m { redis = s })
    expire :
        (s : State)
        → contents s ≡ record (contents m.redis) {
          zset = update (contents m.redis).zset heartbeat_key (λ _. none);
        }
        → ((server_id : Text) (last : ℕ)
            → m.beats server_id ≡ some last
            → last + micros heartbeat_ttl_seconds ≤ time s)
        → Step m (record m { redis = s })
    wait : (s : State) → contents s ≡ contents m.redis → Step m (record m { redis = s })

  -- Runs in which Redis's clock does not go back.
  pub data Run (m : Traffic) : Traffic → Type 0 where
    here : Run m m
    next : {n o : Traffic} → Run m n → Step n o → time n.redis ≤ time o.redis → Run m o
