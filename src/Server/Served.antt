-- ===== src/Server/Served.antt =====
-- One round of the read loop of server.py and the job that it puts in line, from the state of Redis
-- with one request to the state with its response.
use anycall.Prelude.{
  ℕ, ◌+◌, ◌<◌, ◌≡◌, refl, ap, ◌∙◌, arith, ltb, true, Option, none, some, List, [], ◌∷◌,
}
use anycall.Text.{Text}
use anycall.Text.Equality.{eq_self}
use anycall.Assoc.{lookup, insert}
use anycall.Json.{Json, str}
use anycall.Errors.{Exn, ok}
use anycall.Model.Request.{AnyCallRequest}
use anycall.Serialization.{Dacite, PyType}
use anycall.Queues.{inflight_key, request_queue}
use anycall.Queues.Keys.{method_name-request_queue}
use anycall.Redis.{Redis}
use anycall.Exec.{World, alone, round_trip}
use anycall.Adapter
use anycall.Adapter.{acquire_script}
use anycall.Adapter.Acquire.{
  acquire_script_refines, id_of, first_ready, take_spec, id_or_empty, acquired,
}
use anycall.Server.{MethodHandler, Job, Server, server_with, clear, set_limiter}
use anycall.Server.Limiter.{available, acquire}
use anycall.Server.Registration.{Member, with_handler}
use anycall.Server.Invoke.{read_request, run_method}
use anycall.Server.Requests.{or_error, process_request, process_message}
use anycall.Server.Answering.{answered_with, request_stored}
use anycall.Server.Loops.{
  poll_round, poll_available, route, dispatch_message, executor_submit, acquire_limiter,
  acquire_slot, methods_with_capacity, with_room,
}
use anycall.Server.Slots.{catch_world, released_by}

-- A server without a cap that has registered one method and started.
abbrev pub serving : Text → Text → Member → PyType → Server
serving server_id name m t = record (with_handler name m t (server_with server_id none 0)) {
  running = true;
  workers = some (m.supply_max_concurrency + 0 + 3);
  heartbeat_registered = true;
}

abbrev pub handler_of : Member → PyType → MethodHandler
handler_of m t = record {
  method = m.method;
  parameter_type = t;
  max_concurrency = m.supply_max_concurrency;
}

abbrev pub job_of : Member → PyType → Text → Text → Job
job_of m t item id = record {
  request_json = item;
  acquired_id = id;
  handler = handler_of m t;
  method_limiter = some 1;
}

module _ (R : Redis) where
  open R use {State, contents}

  -- What the acquire script makes of a server's only queue.
  abbrev pub acquired_from : Text → Text → State → Option (Text × Text × Text) × State
  acquired_from server_id name s =
      acquire_script R inflight_key (request_queue name ∷ []) server_id s

  ready_one :
      (name item : Text) (list : Text → List Text)
      → list (request_queue name) ≡ item ∷ []
      → first_ready list (request_queue name ∷ []) ≡ some (request_queue name, item)
  ready_one name item list queued = rw (queued, first_ready)

  acquire_one :
      (server_id name item id : Text) (s : State)
      → (contents s).list (request_queue name) ≡ item ∷ []
      → id_of R item ≡ some id
      → let result = acquired_from server_id name s in
        (result.0 ≡ some (request_queue name, item, id))
        × (contents result.1
            ≡ take_spec R inflight_key server_id (request_queue name) item (contents s))
  acquire_one server_id name item id s queued named =
      let (reply, left) =
        acquire_script_refines R inflight_key server_id (request_queue name ∷ []) s in
      let first = ready_one name item (contents s).list queued in
      (
        reply
            ∙ ap (λ o. (acquired R inflight_key server_id (contents s) o).0) first
            ∙ ap (λ o. some (request_queue name, item, id_or_empty o)) named,
        left ∙ ap (λ o. (acquired R inflight_key server_id (contents s) o).1) first,
      )

  -- The server once the job is in line.
  abbrev pub dispatched : Text → Text → Member → PyType → Text → Text → Server
  dispatched server_id name m t item id = record (clear (serving server_id name m t)) {
    limiters =
        set_limiter 1 (record { capacity = m.supply_max_concurrency; in_use = 1 })
          (serving server_id name m t).limiters;
    jobs = job_of m t item id ∷ [];
  }

  -- The state of Redis, and where the rest of a round starts.
  abbrev before : State → ℕ → Text → Text → Member → PyType → World State Server
  before s clock server_id name m t = alone s clock (clear (serving server_id name m t))

  has_places : (n : ℕ) → 0 < n → ltb 0 n ≡ true
  has_places n h = ground arith

  dispatch_one :
      (server_id name item id : Text) (m : Member) (t : PyType) (clock : ℕ) (s : State)
      → 0 < m.supply_max_concurrency
      → dispatch_message R
          (request_queue name)
          item
          id
          ((name, handler_of m t) ∷ [])
          (before s clock server_id name m t)
        ≡ (ok tt, alone s clock (dispatched server_id name m t item id))
  unfolding dispatch_message executor_submit acquire_limiter acquire_slot with_handler available
      acquire lookup insert
  dispatch_one server_id name item id m t clock s free =
      rw (method_name-request_queue name, eq_self name, dispatch_message)
        (simp (method_name-request_queue name, eq_self name)
          (rw (has_places _ free, acquire_limiter)))

  -- The round takes the one request and puts its job in line.
  pub round_takes :
      (server_id name item id : Text) (m : Member) (t : PyType) (waited clock : ℕ) (s : State)
      → 0 < m.supply_max_concurrency
      → (contents s).list (request_queue name) ≡ item ∷ []
      → id_of R item ≡ some id
      → poll_round R (λ keys. keys) waited (alone s clock (serving server_id name m t)) ≡ (
        ok tt,
        alone (acquired_from server_id name s).1 clock (dispatched server_id name m t item id),
      )
  unfolding poll_round poll_available route methods_with_capacity with_room with_handler
      Adapter.acquire round_trip available lookup insert
  round_takes server_id name item id m t waited clock s free queued named = simp (
    eq_self name,
    has_places _ free,
    (acquire_one server_id name item id s queued named).0,
    dispatch_one server_id name item id m t clock _ free,
  )

module _ (dacite : Dacite) (describe : Exn → Text) (format : Json → Text) (R : Redis) where
  open R use {State, contents}

  -- What a worker does besides the request leaves Redis alone.
  process_message_redis :
      (job : Job) (w : World State Server)
      → (process_message dacite describe format R job w).1.redis
        ≡ (process_request dacite describe format R job.handler job.request_json job.acquired_id
            w).1.redis
  unfolding process_message
  process_message_redis job w =
      let v =
        (process_request dacite describe format R job.handler job.request_json job.acquired_id
          w).1 in
      rw
        (
          catch_world
              (process_request dacite describe format R job.handler job.request_json
                job.acquired_id)
              w,
          released_by dacite describe format R v.self.global_limiter v,
          released_by dacite describe format R job.method_limiter _,
        )
        refl

  -- A worker takes the first job in line, if there is one.
  abbrev pub work : List Job → World State Server → World State Server
  work [] w = w
  work (job ∷ jobs) w = (process_message dacite describe format R job w).1

  abbrev pub round_and_work : ℕ → World State Server → World State Server
  round_and_work waited w =
      let after = (poll_round R (λ keys. keys) waited w).1 in work after.self.jobs after

  -- The round and then the worker: the request is gone from its queue, and its response is there.
  pub round_answers :
      (server_id name item id : Text) (m : Member) (t : PyType) (waited clock : ℕ)
      (method_name payload : Json) (s : State)
      → 0 < m.supply_max_concurrency
      → (contents s).list (request_queue name) ≡ item ∷ []
      → id_of R item ≡ some id
      → let r : AnyCallRequest = record {
        request_id = str id;
        method_name = method_name;
        payload = payload;
      } in
        read_request dacite item ≡ ok r
        → let w = alone s clock (serving server_id name m t) in
          contents (round_and_work waited w).redis
          ≡ answered_with id
              (or_error describe (str id) (run_method dacite (handler_of m t) r))
              id
              (take_spec R inflight_key server_id (request_queue name) item (contents s))
  unfolding with_handler
  round_answers server_id name item id m t waited clock method_name payload s free queued named
        reads =
      let at = (acquired_from R server_id name s).1 in
      let w = alone at clock (dispatched R server_id name m t item id) in
      rw (round_takes R server_id name item id m t waited clock s free queued named) (
        ap contents (process_message_redis (job_of m t item id) w)
        ∙ (request_stored dacite describe format R (handler_of m t) item id id method_name payload
            at clock (dispatched R server_id name m t item id) reads tt).2
        ∙ ap
            (answered_with id (or_error describe (str id) (run_method dacite (handler_of m t) _))
              id)
            (acquire_one R server_id name item id s queued named).1)
