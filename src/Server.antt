-- ===== src/Server.antt =====
-- implementations/python/lib/src/anycall/server.py: `AnyCallServerImpl`, its state, registration and
-- the methods that the threads do not share. A limiter is an object that the dict and the jobs may
-- both hold, so limiters stand in a store and are named by their place in it.
pub mod Limiter
pub mod Registration
pub mod Invoke
pub mod Requests
pub mod Answering
pub mod EndToEnd
pub mod Served
pub mod Slots
pub mod Rounds
pub mod Ticks
pub mod Capacity
pub mod Threads
pub mod Loops
pub mod Wakes
use anycall.Prelude.{
  ℕ, zero, suc, ◌+◌, Bool, true, false, Option, none, some, List, [], ◌∷◌, eqb, if◌then◌else◌,
}
use anycall.Prelude.Int.{ℤ, pos, negsuc}
use anycall.Text.{Text, ◌==◌}
use anycall.Json.{Json}
use anycall.Errors.{value_error, Result, ok, err}
use anycall.Serialization.{PyType, Object}
use anycall.Server.Limiter.{ConcurrencyLimiter, new_limiter}

-- `AnycallContext`
pub record AnycallContext : Type 0 where
  pub request_id : Json
  pub method_name : Json

-- `MethodHandler`. The method is the supplier's: all that the server sees of it is what it returns
-- or raises.
pub record MethodHandler : Type 0 where
  pub method : AnycallContext → Object → Result Object
  pub parameter_type : PyType
  pub max_concurrency : ℕ

-- What `_dispatch_message` hands to the executor.
pub record Job : Type 0 where
  pub request_json : Text
  pub acquired_id : Text
  pub handler : MethodHandler
  pub method_limiter : Option ℕ

pub record Server : Type 0 where
  pub server_id : Text
  pub running : Bool
  pub method_handlers : List (Text × MethodHandler)
  pub method_limiters : List (Text × ℕ)
  pub global_limiter : Option ℕ
  pub limiters : ℕ → ConcurrencyLimiter
  pub next_limiter : ℕ
  pub in_flight_request_ids : List Json
  pub rung : Bool
  pub heartbeat_registered : Bool
  -- The executor: none before `start`, or its number of workers, and whether `stop` shut it down.
  pub workers : Option ℕ
  pub shut : Bool
  pub jobs : List Job

abbrev pub set_limiter : ℕ → ConcurrencyLimiter → (ℕ → ConcurrencyLimiter) → ℕ → ConcurrencyLimiter
set_limiter place l limiters i = if eqb i place then l else limiters i

abbrev pub server_with : Text → Option ℕ → ℕ → Server
server_with server_id global capacity = record {
  server_id = server_id;
  running = false;
  method_handlers = [];
  method_limiters = [];
  global_limiter = global;
  limiters = λ i. new_limiter capacity;
  next_limiter = 1;
  in_flight_request_ids = [];
  rung = false;
  heartbeat_registered = false;
  workers = none;
  shut = false;
  jobs = [];
}

-- `__init__`: a cap below 1 is a ValueError.
unfoldable pub new_server : Text → Option ℤ → Result Server
new_server server_id none = ok (server_with server_id none 0)
new_server server_id (some (pos zero)) = err value_error
new_server server_id (some (pos (suc n))) = ok (server_with server_id (some 0) (suc n))
new_server server_id (some (negsuc n)) = err value_error

-- `Doorbell.ring` and `Doorbell.clear`
abbrev pub ring : Server → Server
ring s = record s { rung = true }

abbrev pub clear : Server → Server
clear s = record s { rung = false }
