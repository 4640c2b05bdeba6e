-- ===== src/Server/Requests.antt =====
-- `_process_message` and `_process_request` of server.py, which run on a worker.
use anycall.Prelude.{ℕ, Bool, true, false, Option, none, some, List, [], ◌∷◌, if◌then◌else◌}
use anycall.Text.{Text, codes}
use anycall.Json.{Json, str, arr, obj}
use anycall.Json.Print.{dumps}
use anycall.Text.{◌==◌}
use anycall.Errors.{Exn, type_error, Result, ok, err}
use anycall.Model.Dataclass.{is_set}
use anycall.Model.Request.{AnyCallRequest}
use anycall.Model.Response
use anycall.Model.Response.{AnyCallResponse}
use anycall.Serialization.{Dacite, response, serialize}
use anycall.Queues.{inflight_key, response_queue, response_ttl_seconds}
use anycall.Redis.{Redis}
use anycall.Exec.{Exec, pure, raise, lift, catch, modify, gets, ◌>>=◌, ◌>>◌}
use anycall.Adapter.{respond}
use anycall.Server.{MethodHandler, Job, Server, ring, set_limiter}
use anycall.Server.Limiter.{ConcurrencyLimiter, release}
use anycall.Server.Invoke.{read_request, run_method}

-- A list or a dict can be in no set.
unfoldable pub hashable : Json → Bool
hashable (arr xs) = false
hashable (obj d) = false
hashable _ = true

-- Two values are the same if `json.dumps` writes the same text for them; so 1 and 1.0, which Python
-- takes for equal, are two ids here.
unfoldable pub add : Json → List Json → List Json
add v [] = v ∷ []
add v (x ∷ xs) = let rest = add v xs in if dumps x == dumps v then x ∷ xs else x ∷ rest

unfoldable pub discard : Json → List Json → List Json
discard v [] = []
discard v (x ∷ xs) = let rest = discard v xs in if dumps x == dumps v then xs else x ∷ rest

-- An f-string of a value.
abbrev pub show_id : (Json → Text) → Json → Text
show_id format (str s) = s
show_id format v = format v

-- The `except` clause
unfoldable pub or_error : (Exn → Text) → Json → Result AnyCallResponse → AnyCallResponse
unfolding is_set
or_error describe request_id (ok r) = r
or_error describe request_id (err e) =
    Response.error (if is_set request_id then request_id else str (codes "unknown")) (describe e)

-- `limiter.release()` if there is a limiter
unfoldable pub given_back : Option ℕ → (ℕ → ConcurrencyLimiter) → ℕ → ConcurrencyLimiter
given_back none limiters = limiters
given_back (some place) limiters = set_limiter place (release (limiters place)) limiters

unfoldable pub release_slot : Option ℕ → Server → Server
release_slot o s = record s { limiters = given_back o s.limiters }

module _ (format : Json → Text) (R : Redis) where
  open R use {State}

  unfoldable pub send : AnyCallResponse → Text → Exec State Server (Unit {0})
  send r acquired_id = do
    response_json ← lift (serialize (response r))
    respond R (response_queue (show_id format r.request_id)) response_json response_ttl_seconds
        inflight_key acquired_id

module _ (dacite : Dacite) (describe : Exn → Text) (format : Json → Text) where
  module _ (R : Redis) where
    open R use {State}

    -- The `try` for a request that was read. An id that can be in no set makes both the body and
    -- the `finally` clause raise.
    unfoldable pub process_read :
        MethodHandler → Text → AnyCallRequest → Exec State Server (Unit {0})
    process_read handler acquired_id r =
        if hashable r.request_id
        then (do
          modify
              (λ s. record s { in_flight_request_ids = add r.request_id s.in_flight_request_ids })
          let answer = or_error describe r.request_id (run_method dacite handler r)
          modify (λ s. record s {
            in_flight_request_ids =
                if is_set r.request_id
                then discard r.request_id s.in_flight_request_ids
                else s.in_flight_request_ids;
          })
          send format R answer acquired_id)
        else raise type_error

    unfoldable pub process_request : MethodHandler → Text → Text → Exec State Server (Unit {0})
    process_request handler request_json acquired_id = elim (read_request dacite request_json) [
      | ok r ↦ process_read handler acquired_id r
      | err e ↦ send format R (Response.error (str (codes "unknown")) (describe e)) acquired_id
    ]

    unfoldable pub release_limiter : Option ℕ → Exec State Server (Unit {0})
    unfolding release_slot given_back
    release_limiter o = modify (release_slot o)

    unfoldable pub process_message : Job → Exec State Server (Unit {0})
    process_message job = do
      catch (process_request job.handler job.request_json job.acquired_id) (λ e. pure tt)
      global ← gets (λ s. s.global_limiter)
      release_limiter global
      release_limiter job.method_limiter
      modify ring
