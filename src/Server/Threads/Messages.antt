-- ===== src/Server/Threads/Messages.antt =====
-- `_process_message` of server.py as a run of steps of its threads.
use anycall.Prelude.{◌≡◌, refl, sym, ap, subst, ◌∙◌, Option, List, ◌∷◌, ◌++◌, inl, inr, Bool-cases}
use anycall.Prelude.Int.{ℤ}
use anycall.Text.{Text, codes}
use anycall.Json.{Json, str}
use anycall.Errors.{Exn, Result, ok, err}
use anycall.Model.Request.{AnyCallRequest}
use anycall.Model.Response
use anycall.Serialization.{Dacite}
use anycall.Redis.{Redis}
use anycall.Exec.{World, Exec}
use anycall.Server.{MethodHandler, Job, Server, ring}
use anycall.Server.Invoke.{read_request}
use anycall.Server.Requests.{
  hashable, process_read, process_request, process_message, release_slot, release_limiter, send,
}
use anycall.Server.Slots.{send_self, catch_world}
use anycall.Server.Threads.{
  Threads, Worker, Reach, later, note_ids, give_global, give_method, processing,
}

module _ (dacite : Dacite) (describe : Exn → Text) (format : Json → Text) (R : Redis) where
  open R use {State}

  -- A request changes nothing of the server but its set of ids.
  record OnlyIds (s t : Server) : Type 0 where
    pub ids : List Json
    pub only : t ≡ record s { in_flight_request_ids = ids }

  process_read-OnlyIds :
      (handler : MethodHandler) (acquired_id : Text) (r : AnyCallRequest) (w : World State Server)
      → OnlyIds w.self (process_read dacite describe format R handler acquired_id r w).1.self
  unfolding process_read
  process_read-OnlyIds handler acquired_id r w = elim (Bool-cases (hashable r.request_id)) [
    | inl set ↦
        rw set (record { ids = _; only = send_self dacite describe format R _ acquired_id _ })
    | inr list ↦ rw list (record { ids = w.self.in_flight_request_ids; only = refl })
  ]

  process_request-OnlyIds :
      (handler : MethodHandler) (request_json acquired_id : Text) (w : World State Server)
      → OnlyIds w.self
          (process_request dacite describe format R handler request_json acquired_id w).1.self
  unfolding process_request
  process_request-OnlyIds handler request_json acquired_id w = go (read_request dacite request_json)
    where
      go :
          (x : Result AnyCallRequest)
          → OnlyIds w.self
              ((elim x as (λ _. Exec State Server (Unit {0})) [
                | ok r ↦ process_read dacite describe format R handler acquired_id r
                | err e ↦
                    send format R (Response.error (str (codes "unknown")) (describe e)) acquired_id
              ])
                w).1.self
      go (ok r) = process_read-OnlyIds handler acquired_id r w
      go (err e) = record {
        ids = w.self.in_flight_request_ids;
        only = send_self dacite describe format R _ acquired_id w;
      }

  message_self :
      (job : Job) (w : World State Server)
      → let s =
          (process_request dacite describe format R job.handler job.request_json job.acquired_id
            w).1.self in
        (process_message dacite describe format R job w).1.self
        ≡ ring (release_slot job.method_limiter (release_slot s.global_limiter s))
  unfolding process_message release_limiter
  message_self job w =
      rw
        (
          process_message,
          catch_world
              (process_request dacite describe format R job.handler job.request_json
                job.acquired_id)
              w,
        )
        refl

  -- From a reachable state in which a worker has a job, all of that job's processing, whatever its
  -- request, its method and the connection do, leads to a reachable state without the worker: it is
  -- a run of a worker's steps.
  pub process_message_reaches :
      {id : Text} {cap : Option ℤ} {c : Threads}
      → Reach id cap c
      → (job : Job) (before after : List Worker) → c.workers ≡ before ++ (processing job ∷ after)
      → (w : World State Server)
      → Reach id cap (record c {
        server =
            (process_message dacite describe format R job (record w { self = c.server })).1.self;
        workers = before ++ after;
      })
  process_message_reaches {id} {cap} {c} r job before after split w =
      let v = record w { self = c.server } in
      let k = process_request-OnlyIds job.handler job.request_json job.acquired_id v in
      subst (λ s. Reach id cap (record c { server = s; workers = before ++ after }))
        (ap (λ s. ring (release_slot job.method_limiter (release_slot s.global_limiter s)))
            (sym k.only)
          ∙ sym (message_self job v))
        (later (later (later r (note_ids k.ids)) (give_global job before after split))
          (give_method job before after refl))
