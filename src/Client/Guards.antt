-- ===== src/Client/Guards.antt =====
-- The checks of `_call_impl` of client.py that come before a request is pushed.
use anycall.Prelude.{ℕ, ◌+◌, ◌<◌, ◌≡◌, arith, Bool, true, false, Option, some, eqb, leb}
use anycall.Prelude
use anycall.Prelude.Int.{ℤ, at_least}
use anycall.Text.{Text}
use anycall.Json.{Json}
use anycall.Errors.{Exn, no_server_available_error, queue_full_error, ok, err}
use anycall.Serialization.{Dacite, PyType, Object, serialize}
use anycall.Queues.{request_queue, heartbeat_key, heartbeat_ttl_seconds}
use anycall.Redis.{Redis, passing}
use anycall.Exec.{World, alone, round_trip}
use anycall.Adapter.{alive_count, length, micros}
use anycall.Adapter.Heartbeat.{zcount_none, zcount_some}
use anycall.Client.{Client, saw_activity}
use anycall.Client.Call.{check_alive, check_depth, call_impl, or_else}
use anycall.Client.Decode.{rethrow}

pub not_zero : (n : ℕ) → 0 < n → eqb n 0 ≡ false
not_zero n h = ground arith

module _ (R : Redis) (dacite : Dacite) (describe : Exn → Text) (format : Json → Text) where
  open R use {State, time, contents, llen_value}

  -- A call that counts no live server raises and leaves the world as the count left it.
  pub call_unserved :
      (rounds : ℕ) (method_name : Text) (argument : Object) (t : PyType) (depth : Option ℤ)
      (uuid payload : Text) (w v : World State Client)
      → serialize argument ≡ ok payload
      → alive_count R heartbeat_key heartbeat_ttl_seconds w ≡ (ok 0, v)
      → call_impl R dacite describe format rounds method_name argument t depth uuid w
        ≡ (err (no_server_available_error method_name), v)
  unfolding call_impl check_alive rethrow
  call_unserved rounds method_name argument t depth uuid payload w v text none_alive =
      simp (text, none_alive)

  module _ (rounds : ℕ) (method_name : Text) (argument : Object) (t : PyType) (depth : Option ℤ)
      (uuid payload : Text) (s : State) (clock : ℕ) (self : Client)
      (text : serialize argument ≡ ok payload) where
    -- Does the server's last heartbeat, if any, lie no longer than a TTL back?
    abbrev pub beats : Text → Bool
    beats server_id =
        passing (λ beat. leb (time s) (beat + micros heartbeat_ttl_seconds))
          ((contents s).zset heartbeat_key server_id)

    -- Over a working connection and with no interference, a call whose argument serializes, while
    -- no server has sent a heartbeat within the TTL, raises NoServerAvailableError for its method;
    -- Redis, the clock and the client are exactly as before, so nothing was pushed.
    pub call_without_server :
        ((server_id : Text) → beats server_id ≡ false)
        → call_impl R dacite describe format rounds method_name argument t depth uuid
            (alone s clock self)
          ≡ (err (no_server_available_error method_name), alone s clock self)
    unfolding alive_count round_trip
    call_without_server nobody =
        call_unserved rounds method_name argument t depth uuid payload (alone s clock self)
          (alone s clock self) text
          (simp (zcount_none R heartbeat_key heartbeat_ttl_seconds (time s) s nobody))

    -- Over a working connection and with no interference, a call whose argument serializes, while
    -- some server has sent a heartbeat within the TTL and the queue of the method holds at least as
    -- many requests as the limit of the call, or else of the client, raises QueueFullError with
    -- this number and this limit; Redis and the clock are exactly as before, so nothing was pushed,
    -- and the client has only noted that it saw a server.
    pub call_on_full_queue :
        (server_id : Text) (limit : ℤ)
        → beats server_id ≡ true
        → or_else depth self.default_max_queue_depth ≡ some limit
        → at_least limit (Prelude.length ((contents s).list (request_queue method_name))) ≡ true
        → call_impl R dacite describe format rounds method_name argument t depth uuid
            (alone s clock self)
          ≡ (
            err (
                queue_full_error method_name
                  (Prelude.length ((contents s).list (request_queue method_name)))
                  limit),
            alone s clock (saw_activity clock self),
          )
    unfolding call_impl check_alive check_depth rethrow alive_count length round_trip
    call_on_full_queue server_id limit alive limited full =
        let some_alive =
          not_zero _
            (zcount_some R heartbeat_key heartbeat_ttl_seconds (time s) s server_id alive) in
        simp (text, some_alive, limited, llen_value (request_queue method_name) s, full)
