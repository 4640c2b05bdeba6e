-- ===== src/Server/Slots.antt =====
-- The limiters during `_process_message` of server.py.
use anycall.Prelude.{
  ℕ, ◌+◌, ◌≡◌, refl, ap, ap₂, true, Option, none, some, List, [], ◌∷◌, inl, inr, Bool-cases,
}
use anycall.Text.{Text, codes}
use anycall.Json.{Json, str}
use anycall.Errors.{Exn, Result, ok, err}
use anycall.Model.Request.{AnyCallRequest}
use anycall.Model.Response
use anycall.Model.Response.{AnyCallResponse}
use anycall.Serialization.{Dacite, serialize}
use anycall.Redis.{Redis}
use anycall.Exec.{
  World, Exec, Turn, Fault, answered, cut, pure, caught, catch, pipeline, exchange_all, settle_all,
}
use anycall.Adapter.{respond}
use anycall.Server.{MethodHandler, Job, Server, set_limiter}
use anycall.Server.Limiter.{ConcurrencyLimiter, release}
use anycall.Server.Invoke.{read_request}
use anycall.Server.Requests.{
  send, process_read, process_request, release_limiter, process_message, hashable,
}

-- The limiters after one slot of an optional limiter is given back.
abbrev pub freed : Option ℕ → (ℕ → ConcurrencyLimiter) → ℕ → ConcurrencyLimiter
freed none limiters = limiters
freed (some place) limiters = set_limiter place (release (limiters place)) limiters

exchange_all_self :
    {S L : Type 0} (ts : List (Turn S)) (cs : List (S → S)) (w : World S L)
    → (exchange_all ts cs w).1.self ≡ w.self
exchange_all_self [] cs w = refl
exchange_all_self (t ∷ ts) cs w = settled t.fault
  where
    settled :
        (f : Fault)
        → (settle_all f
            (t.others w.redis)
            cs
            (record w { clock = w.clock + t.elapsed; turns = ts })).1.self
          ≡ w.self
    settled answered = refl
    settled (cut n e) = refl

module _ {S L : Type 0} where
  caught_world : (r : Result (Unit {0})) (v : World S L) → caught r (λ e. pure tt) v ≡ (ok tt, v)
  caught_world (ok tt) v = refl
  caught_world (err e) v = refl

  pub catch_world :
      (m : Exec S L (Unit {0})) (w : World S L) → catch m (λ e. pure tt) w ≡ (ok tt, (m w).1)
  catch_world m w = caught_world (m w).0 (m w).1

module _ (dacite : Dacite) (describe : Exn → Text) (format : Json → Text) (R : Redis) where
  open R use {State}

  pub send_self :
      (r : AnyCallResponse) (acquired_id : Text) (w : World State Server)
      → (send format R r acquired_id w).1.self ≡ w.self
  unfolding send serialize respond pipeline
  send_self r acquired_id w = exchange_all_self w.turns _ w

  -- The limiters and the cap are no concern of a request.
  process_read_limiters :
      (handler : MethodHandler) (acquired_id : Text) (r : AnyCallRequest) (w : World State Server)
      → let v = (process_read dacite describe format R handler acquired_id r w).1 in
        (v.self.limiters ≡ w.self.limiters) × (v.self.global_limiter ≡ w.self.global_limiter)
  unfolding process_read
  process_read_limiters handler acquired_id r w = elim (Bool-cases (hashable r.request_id)) [
    | inl set ↦ rw set (
      ap (λ s. s.limiters) (send_self _ acquired_id _),
      ap (λ s. s.global_limiter) (send_self _ acquired_id _),
    )
    | inr list ↦ rw list (refl, refl)
  ]

  process_request_limiters :
      (handler : MethodHandler) (request_json acquired_id : Text) (w : World State Server)
      → let v = (process_request dacite describe format R handler request_json acquired_id w).1 in
        (v.self.limiters ≡ w.self.limiters) × (v.self.global_limiter ≡ w.self.global_limiter)
  unfolding process_request
  process_request_limiters handler request_json acquired_id w =
      go (read_request dacite request_json)
    where
      go :
          (x : Result AnyCallRequest)
          → let v =
              ((elim x as (λ _. Exec State Server (Unit {0})) [
                | ok r ↦ process_read dacite describe format R handler acquired_id r
                | err e ↦
                    send format R (Response.error (str (codes "unknown")) (describe e)) acquired_id
              ])
                w).1 in
            (v.self.limiters ≡ w.self.limiters) × (v.self.global_limiter ≡ w.self.global_limiter)
      go (ok r) = process_read_limiters handler acquired_id r w
      go (err e) = (
        ap (λ s. s.limiters) (send_self _ acquired_id w),
        ap (λ s. s.global_limiter) (send_self _ acquired_id w),
      )

  pub released_by :
      (o : Option ℕ) (w : World State Server)
      → release_limiter dacite describe format R o w
        ≡ (ok tt, record w { self = record w.self { limiters = freed o w.self.limiters } })
  unfolding release_limiter
  released_by none w = refl
  released_by (some place) w = refl

  -- Whatever the request, its method and the connection do, a job returns normally, rings the
  -- doorbell and gives back one slot of each limiter that it holds.
  pub job_gives_back :
      (job : Job) (w : World State Server)
      → let (r, v) = process_message dacite describe format R job w in
        (r ≡ ok tt)
        × (v.self.rung ≡ true)
        × (v.self.limiters ≡ freed job.method_limiter (freed w.self.global_limiter w.self.limiters))
  unfolding process_message
  job_gives_back job w =
      let m : Exec State Server (Unit {0}) =
        process_request dacite describe format R job.handler job.request_json job.acquired_id in
      let (same, cap) = process_request_limiters job.handler job.request_json job.acquired_id w in
      rw
        (
          catch_world m w,
          released_by (m w).1.self.global_limiter (m w).1,
          released_by job.method_limiter _,
        )
        (refl, refl, ap₂ (λ g l. freed job.method_limiter (freed g l)) cap same)
