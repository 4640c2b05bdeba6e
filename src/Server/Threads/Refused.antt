-- ===== src/Server/Threads/Refused.antt =====
-- `_dispatch_message` of server.py after `stop`, as a run of steps of its threads.
use anycall.Prelude.{
  ℕ, ◌≡◌, ◌≢◌, refl, sym, ap, subst, Bool, true, false, not, ◌&&◌, is_some, Option, none, some,
  List, ◌∷◌, inl, inr,
}
use anycall.Prelude.Int.{ℤ}
use anycall.Text.{Text}
use anycall.Assoc.{lookup}
use anycall.Errors.{ok, err, unfinished}
use anycall.Queues.{method_name_from_queue}
use anycall.Redis.{Redis}
use anycall.Exec.{World}
use anycall.Server.{MethodHandler, Job, Server}
use anycall.Server.Limiter.{ConcurrencyLimiter}
use anycall.Server.Loops.{acquire_slot, executor_submit, dispatch_message}
use anycall.Server.Threads.{Threads, Reach, later, refuse, takes_jobs, polling}
use anycall.Server.Threads.Runs.{
  acquire_slot-cases, job_of, dispatch, limiter_free, dispatch_blocked, dispatch_capped,
  dispatch_refused, taken_both,
}

module _ (R : Redis) (queue_key request_json request_id : Text)
    (snapshot : List (Text × MethodHandler)) where
  open R use {State}

  refused_still :
      (pool : Option ℕ) (shut : Bool) (job : Job) (w : World State Server)
      → (is_some pool && not shut) ≡ false
      → (executor_submit R pool shut job w).1 ≡ w
  unfolding executor_submit
  refused_still none shut job w h = refl
  refused_still (some n) true job w h = refl
  refused_still (some n) false job w h = cc h

  module _ (handler : MethodHandler)
      (found : lookup (method_name_from_queue queue_key) snapshot ≡ some handler) where
    dispatch_kept :
        (w : World State Server) (limiters after : ℕ → ConcurrencyLimiter)
        → acquire_slot (lookup (method_name_from_queue queue_key) w.self.method_limiters) w.self
          ≡ some (record w.self { limiters = limiters })
        → acquire_slot w.self.global_limiter (record w.self { limiters = limiters })
          ≡ some (record w.self { limiters = after })
        → takes_jobs w.self ≡ false
        → (dispatch R queue_key request_json request_id snapshot w).1.self
          ≡ record w.self { limiters = after }
    unfolding dispatch_message
    dispatch_kept w limiters after free room closed =
        let o = lookup (method_name_from_queue queue_key) w.self.method_limiters in
        let w1 = record w { self = record w.self { limiters = limiters } } in
        rw
          (
            dispatch_message,
            found,
            limiter_free R queue_key request_json request_id snapshot o w w1.self free,
            limiter_free R queue_key request_json request_id snapshot w.self.global_limiter w1
                (record w.self { limiters = after }) room,
          )
          (ap (λ v. v.self) (refused_still w.self.workers w.self.shut _ _ closed))

    -- From a reachable state whose read loop is polling and whose executor was not started or is
    -- shut down, a dispatch of a request of a known method that does not block, whatever world it
    -- runs in, raises an exception and leads to a reachable state in which the job is refused, with
    -- the slots that it took.
    pub refused_dispatch_reaches :
        {id : Text} {cap : Option ℤ} {c : Threads}
        → Reach id cap c
        → c.reader ≡ polling
        → takes_jobs c.server ≡ false
        → (w : World State Server)
        → (dispatch R queue_key request_json request_id snapshot (record w { self = c.server })).0
          ≢ err unfinished
        → ((dispatch R queue_key request_json request_id snapshot (record w { self = c.server })).0
            ≢ ok tt)
          × Reach id cap (record c {
            server =
                (dispatch R queue_key request_json request_id snapshot
                  (record w { self = c.server })).1.self;
            reader = polling;
            refused = job_of queue_key request_json request_id handler c.server ∷ c.refused;
          })
    refused_dispatch_reaches {id} {cap} {c} r idle closed w unblocked =
        let job = job_of queue_key request_json request_id handler c.server in
        let v = record w { self = c.server } in
        elim (acquire_slot-cases job.method_limiter c.server) [
          | inl full ↦ absurd (
              unblocked (
                dispatch_blocked R queue_key request_json request_id snapshot handler found v full))
          | inr (limiters, free) ↦
              elim (acquire_slot-cases c.server.global_limiter
                (record c.server { limiters = limiters })) [
                  | inl full ↦ absurd (
                      unblocked (
                        dispatch_capped R queue_key request_json request_id snapshot handler found v
                          limiters free full))
                  | inr (after, room) ↦ (
                    dispatch_refused R queue_key request_json request_id snapshot handler found v
                        limiters after free room closed,
                    subst
                        (λ s.
                          Reach id cap
                            (record c { server = s; reader = polling; refused = job ∷ c.refused }))
                        (sym (dispatch_kept v limiters after free room closed))
                        (later
                          (taken_both R queue_key request_json request_id snapshot handler found r
                            idle limiters after free room)
                          (refuse job refl closed)),
                  )
                ]
        ]
