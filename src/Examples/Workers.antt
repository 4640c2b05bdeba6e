-- ===== src/Examples/Workers.antt =====
-- Runs of the theorems on the threads of a server: a request is being processed, or its submission is
-- refused as the server is stopped.
use anycall.Prelude.{◌≢◌, ◌<◌, true, ℕ, ◌≤◌, ◌≡◌, refl, some, List, [], ◌∷◌}
use anycall.Prelude.Int.{pos}
use anycall.Text.{Text, ◌==◌}
use anycall.Assoc.{lookup, insert}
use anycall.Errors.{unfinished, ok, err}
use anycall.Server.{MethodHandler, Job, new_server, server_with, set_limiter}
use anycall.Server.Limiter.{ConcurrencyLimiter, new_limiter, acquire, available}
use anycall.Server.Registration.{Member, with_handler, context, annotated}
use anycall.Server.Loops.{acquire_slot}
use anycall.Server.Threads.{
  Threads, Reach, start, later, route, take_method, take_global, look, submit, refuse, open_pool,
  shut_pool, begin, register, polling, at_global, at_submit, processing, holders,
}
use anycall.Server.Threads.Caps.{cap_never_exceeded, slots_counted, released_slot_is_held, busy}
use anycall.Client.Decode.{dict_type}
use anycall.Queues.{request_queue, method_name_from_queue}
use anycall.Redis.Memory.{memory}
use anycall.Exec.{alone}
use anycall.Server.Loops.{acquire_limiter, executor_submit, dispatch_message}
use anycall.Server.Requests.{process_message}
use anycall.Server.Threads.Runs.{job_of, dispatch_reaches}
use anycall.Server.Threads.Refused.{refused_dispatch_reaches}
use anycall.Server.Threads.Messages.{process_message_reaches}
use anycall.Examples.{queued, no_dacite, describe, format, echo, id_1, live}

abbrev echo_member : Member
echo_member = record {
  supply_method_name = some echo;
  supply_max_concurrency = 1;
  parameters = context ∷ annotated dict_type ∷ [];
  method = λ c argument. ok argument;
}

abbrev job_for : Text → Job
job_for id = record {
  request_json = [];
  acquired_id = id;
  handler = record {
    method = λ c argument. ok argument;
    parameter_type = dict_type;
    max_concurrency = 1;
  };
  method_limiter = some 1;
}

-- A server with a cap of 2, and `echo` registered with a cap of 1.
abbrev c1 : Threads
c1 = record {
  server = record (with_handler echo echo_member dict_type (server_with live (some 0) 2)) {
    workers = some 4;
  };
  reader = polling;
  workers = [];
  refused = [];
}

abbrev held : ℕ → ConcurrencyLimiter → ConcurrencyLimiter
held n l = record l { in_use = n }

abbrev c3 : Threads
c3 = record c1 {
  reader = at_global (job_for id_1);
  server = record c1.server {
    limiters = set_limiter 1 (held 1 (new_limiter 1)) c1.server.limiters;
  };
}

abbrev c4 : Threads
c4 = record c3 {
  reader = at_submit (job_for id_1);
  server = record c3.server {
    limiters = set_limiter 0 (held 1 (new_limiter 2)) c3.server.limiters;
  };
}

abbrev c6 : Threads
c6 = record c4 { reader = polling; workers = processing (job_for id_1) ∷ [] }

-- The server was stopped as the request was about to be submitted.
abbrev c7 : Threads
c7 = record c4 {
  server = record c4.server { shut = true };
  reader = polling;
  refused = job_for id_1 ∷ [];
}

c4-reached : Reach live (some (pos 2)) c4
unfolding new_server with_handler acquire_slot acquire available lookup insert ◌==◌
c4-reached =
    later
      (later
        (later
          (later
            (later
              (later (start (server_with live (some 0) 2) refl)
                (register echo echo_member dict_type))
              (open_pool 4))
            (look echo refl refl refl))
          (route echo (job_for id_1) refl refl))
        (take_method (job_for id_1) c3.server.limiters refl refl))
      (take_global (job_for id_1) c4.server.limiters refl refl)

c6-reached : Reach live (some (pos 2)) c6
unfolding with_handler
c6-reached =
    later (later c4-reached (submit (job_for id_1) refl refl)) (begin (job_for id_1) [] refl)

c7-reached : Reach live (some (pos 2)) c7
c7-reached = later (later c4-reached shut_pool) (refuse (job_for id_1) refl refl)

cap_never_exceeded_example : busy c6.workers ≤ 2
cap_never_exceeded_example = cap_never_exceeded c6-reached

slots_counted_example :
    ((c7.server.limiters 1).in_use ≡ holders 1 c7)
    × (holders 1 c7 ≤ (c7.server.limiters 1).capacity)
slots_counted_example = slots_counted c7-reached 1

released_slot_is_held_example : 0 < (c6.server.limiters 0).in_use
unfolding with_handler
released_slot_is_held_example =
    released_slot_is_held c6-reached (processing (job_for id_1)) [] [] 0 refl refl

c1-reached : Reach live (some (pos 2)) c1
unfolding new_server with_handler
c1-reached =
    later (later (start (server_with live (some 0) 2) refl) (register echo echo_member dict_type))
      (open_pool 4)

abbrev handlers : List (Text × MethodHandler)
handlers = (echo, (job_for id_1).handler) ∷ []

echo_found :
    lookup (method_name_from_queue (request_queue echo)) handlers ≡ some (job_for id_1).handler
unfolding lookup ◌==◌ method_name_from_queue request_queue
echo_found = refl

echo_dispatched :
    (dispatch_message memory (request_queue echo) [] id_1 handlers (alone queued 0 c1.server)).0
    ≡ ok tt
unfolding dispatch_message executor_submit acquire_limiter acquire_slot acquire available
    with_handler lookup insert ◌==◌ method_name_from_queue request_queue
echo_dispatched = refl

dispatch_reaches_example : Reach live (some (pos 2)) (record c1 {
  server =
      (dispatch_message memory
        (request_queue echo)
        []
        id_1
        handlers
        (alone queued 0 c1.server)).1.self;
  reader = polling;
})
dispatch_reaches_example =
    dispatch_reaches memory (request_queue echo) [] id_1 handlers (job_for id_1).handler echo_found
      c1-reached refl (alone queued 0 c1.server) echo_dispatched

process_message_reaches_example : Reach live (some (pos 2)) (record c6 {
  server =
      (process_message no_dacite describe format memory
        (job_for id_1)
        (alone queued 0 c6.server)).1.self;
  workers = [];
})
process_message_reaches_example =
    process_message_reaches no_dacite describe format memory c6-reached (job_for id_1) [] [] refl
      (alone queued 0 c6.server)

-- A server that was stopped while its read loop had a request in hand.
abbrev c2 : Threads
c2 = record c1 { server = record c1.server { shut = true } }

c2-reached : Reach live (some (pos 2)) c2
c2-reached = later c1-reached shut_pool

echo_unblocked :
    (dispatch_message memory (request_queue echo) [] id_1 handlers (alone queued 0 c2.server)).0
    ≢ err unfinished
unfolding dispatch_message executor_submit acquire_limiter acquire_slot acquire available
    with_handler lookup insert ◌==◌ method_name_from_queue request_queue
echo_unblocked = λ h. cc h

refused_dispatch_reaches_example :
    let (r, v) =
      dispatch_message memory (request_queue echo) [] id_1 handlers (alone queued 0 c2.server) in
    (r ≢ ok tt)
    × Reach live (some (pos 2)) (record c2 {
      server = v.self;
      reader = polling;
      refused = job_of (request_queue echo) [] id_1 (job_for id_1).handler c2.server ∷ [];
    })
refused_dispatch_reaches_example =
    refused_dispatch_reaches memory (request_queue echo) [] id_1 handlers (job_for id_1).handler
      echo_found c2-reached refl refl (alone queued 0 c2.server) echo_unblocked
