-- ===== src/Server/Threads/Runs.antt =====
-- `_dispatch_message` of server.py as a run of steps of its threads.
use anycall.Prelude.{
  arith, ℕ, ◌≡◌, refl, sym, subst, Option, none, some, List, [], ◌∷◌, ◌++◌, ◌⊎◌, inl, inr,
  Option-cases, Bool, true, false, not, ◌&&◌, is_some, ◌≢◌, Bool-cases,
}
use anycall.Prelude.Int.{ℤ}
use anycall.Text.{Text}
use anycall.Assoc.{lookup}
use anycall.Errors.{ok, err, unfinished}
use anycall.Queues.{method_name_from_queue}
use anycall.Redis.{Redis}
use anycall.Exec.{World, Exec}
use anycall.Server.{MethodHandler, Job, Server, set_limiter}
use anycall.Server.Limiter.{ConcurrencyLimiter, available, acquire}
use anycall.Server.Threads.Invariant.{acquire_slot_lem}
use anycall.Server.Loops.{
  has_room, acquire_slot, acquire_limiter, executor_submit, dispatch_message,
}
use anycall.Server.Threads.{
  at_submit, Threads, Reach, later, look, route, take_method, take_global, submit, takes_jobs,
  polling,
}

pub acquire_slot-cases :
    (o : Option ℕ) (s : Server)
    → (acquire_slot o s ≡ none)
      ⊎ ((limiters : ℕ → ConcurrencyLimiter) × (acquire_slot o s
            ≡ some (record s { limiters = limiters })))
unfolding acquire_slot
acquire_slot-cases none s = inr (s.limiters, refl)
acquire_slot-cases (some place) s = elim (Option-cases (acquire (s.limiters place))) [
  | inl full ↦ inl (rw (full, acquire_slot) refl)
  | inr (l, free) ↦ inr (set_limiter place l s.limiters, rw (free, acquire_slot) refl)
]

-- A slot that is got was free, also before another one was taken.
had_room :
    (o : Option ℕ) (s : Server) (limiters : ℕ → ConcurrencyLimiter)
    → acquire_slot o s ≡ some (record s { limiters = limiters })
    → has_room s o ≡ true
unfolding acquire_slot acquire available
had_room none s limiters got = refl
had_room (some place) s limiters got = ground arith

had_room_before :
    (o g : Option ℕ) (s : Server) (limiters after : ℕ → ConcurrencyLimiter)
    → acquire_slot o s ≡ some (record s { limiters = limiters })
    → acquire_slot g (record s { limiters = limiters }) ≡ some (record s { limiters = after })
    → has_room s g ≡ true
unfolding available
had_room_before o none s limiters after got room = refl
had_room_before o (some place) s limiters after got room =
    let there = had_room (some place) (record s { limiters = limiters }) after room in
    ground (arith, there, acquire_slot_lem o s limiters got place)

-- The job of a taken request.
abbrev pub job_of : Text → Text → Text → MethodHandler → Server → Job
job_of queue_key request_json request_id handler s = record {
  request_json = request_json;
  acquired_id = request_id;
  handler = handler;
  method_limiter = lookup (method_name_from_queue queue_key) s.method_limiters;
}

module _ (R : Redis) (queue_key request_json request_id : Text)
    (snapshot : List (Text × MethodHandler)) where
  open R use {State}

  abbrev pub dispatch : Exec State Server (Unit {0})
  dispatch = dispatch_message R queue_key request_json request_id snapshot

  abbrev within : Server → World State Server → World State Server
  within s w = record w { self = s }

  pub limiter_full :
      (o : Option ℕ) (w : World State Server)
      → acquire_slot o w.self ≡ none
      → acquire_limiter R o w ≡ (err unfinished, w)
  unfolding acquire_limiter
  limiter_full o w full = rw (acquire_limiter, full) refl

  pub limiter_free :
      (o : Option ℕ) (w : World State Server) (s : Server)
      → acquire_slot o w.self ≡ some s
      → acquire_limiter R o w ≡ (ok tt, record w { self = s })
  unfolding acquire_limiter
  limiter_free o w s free = rw (acquire_limiter, free) refl

  module _ (handler : MethodHandler)
      (found : lookup (method_name_from_queue queue_key) snapshot ≡ some handler) where
    pub dispatch_blocked :
        (w : World State Server)
        → acquire_slot (lookup (method_name_from_queue queue_key) w.self.method_limiters) w.self
          ≡ none
        → (dispatch w).0 ≡ err unfinished
    unfolding dispatch_message
    dispatch_blocked w full =
        let o = lookup (method_name_from_queue queue_key) w.self.method_limiters in
        rw (dispatch_message, found, limiter_full o w full) refl

    pub dispatch_capped :
        (w : World State Server) (limiters : ℕ → ConcurrencyLimiter)
        → acquire_slot (lookup (method_name_from_queue queue_key) w.self.method_limiters) w.self
          ≡ some (record w.self { limiters = limiters })
        → acquire_slot w.self.global_limiter (record w.self { limiters = limiters }) ≡ none
        → (dispatch w).0 ≡ err unfinished
    unfolding dispatch_message
    dispatch_capped w limiters free full =
        let o = lookup (method_name_from_queue queue_key) w.self.method_limiters in
        let w1 = record w { self = record w.self { limiters = limiters } } in
        rw
          (
            dispatch_message,
            found,
            limiter_free o w w1.self free,
            limiter_full w.self.global_limiter w1 full,
          )
          refl

    not_submitted :
        (pool : Option ℕ) (shut : Bool) (job : Job) (w : World State Server)
        → (is_some pool && not shut) ≡ false
        → (executor_submit R pool shut job w).0 ≢ ok tt
    unfolding executor_submit
    not_submitted none shut job w h = λ fine. cc fine
    not_submitted (some n) true job w h = λ fine. cc fine
    not_submitted (some n) false job w h = cc h

    submitted :
        (pool : Option ℕ) (shut : Bool) (job : Job) (w : World State Server)
        → (is_some pool && not shut) ≡ true
        → executor_submit R pool shut job w
          ≡ (ok tt, record w { self = record w.self { jobs = w.self.jobs ++ job ∷ [] } })
    unfolding executor_submit
    submitted none shut job w h = cc h
    submitted (some n) true job w h = cc h
    submitted (some n) false job w h = refl

    pub dispatch_refused :
        (w : World State Server) (limiters after : ℕ → ConcurrencyLimiter)
        → acquire_slot (lookup (method_name_from_queue queue_key) w.self.method_limiters) w.self
          ≡ some (record w.self { limiters = limiters })
        → acquire_slot w.self.global_limiter (record w.self { limiters = limiters })
          ≡ some (record w.self { limiters = after })
        → takes_jobs w.self ≡ false
        → (dispatch w).0 ≢ ok tt
    unfolding dispatch_message
    dispatch_refused w limiters after free room closed =
        let o = lookup (method_name_from_queue queue_key) w.self.method_limiters in
        let w1 = record w { self = record w.self { limiters = limiters } } in
        rw
          (
            dispatch_message,
            found,
            limiter_free o w w1.self free,
            limiter_free w.self.global_limiter w1 (record w.self { limiters = after }) room,
          )
          (not_submitted w.self.workers w.self.shut _ _ closed)

    dispatch_done :
        (w : World State Server) (limiters after : ℕ → ConcurrencyLimiter)
        → acquire_slot (lookup (method_name_from_queue queue_key) w.self.method_limiters) w.self
          ≡ some (record w.self { limiters = limiters })
        → acquire_slot w.self.global_limiter (record w.self { limiters = limiters })
          ≡ some (record w.self { limiters = after })
        → takes_jobs w.self ≡ true
        → (dispatch w).1.self ≡ record w.self {
          limiters = after;
          jobs = w.self.jobs ++ job_of queue_key request_json request_id handler w.self ∷ [];
        }
    unfolding dispatch_message
    dispatch_done w limiters after free room taking =
        let o = lookup (method_name_from_queue queue_key) w.self.method_limiters in
        let w1 = record w { self = record w.self { limiters = limiters } } in
        rw
          (
            dispatch_message,
            found,
            limiter_free o w w1.self free,
            limiter_free w.self.global_limiter w1 (record w.self { limiters = after }) room,
            submitted w.self.workers w.self.shut
                (job_of queue_key request_json request_id handler w.self)
                (record w { self = record w.self { limiters = after } }) taking,
          )
          refl

    -- The steps up to the submission.
    pub taken_both :
        {id : Text} {cap : Option ℤ} {c : Threads}
        → Reach id cap c
        → c.reader ≡ polling
        → (limiters after : ℕ → ConcurrencyLimiter)
        → acquire_slot (lookup (method_name_from_queue queue_key) c.server.method_limiters) c.server
          ≡ some (record c.server { limiters = limiters })
        → acquire_slot c.server.global_limiter (record c.server { limiters = limiters })
          ≡ some (record c.server { limiters = after })
        → Reach id cap (record c {
          reader = at_submit (job_of queue_key request_json request_id handler c.server);
          server = record c.server { limiters = after };
        })
    taken_both {c = c} r idle limiters after free room =
        let job = job_of queue_key request_json request_id handler c.server in
        later
          (later
            (later
              (later r (
                look (method_name_from_queue queue_key) idle
                  (had_room_before job.method_limiter c.server.global_limiter c.server limiters
                    after free room)
                  (had_room job.method_limiter c.server limiters free)))
              (route (method_name_from_queue queue_key) job refl refl))
            (take_method job limiters refl free))
          (take_global job after refl room)

    -- From a reachable state whose read loop is polling, a dispatch of a request of a known method
    -- that returns normally, whatever world it runs in, leads to a reachable state: it is a run of
    -- the steps of the read loop.
    pub dispatch_reaches :
        {id : Text} {cap : Option ℤ} {c : Threads}
        → Reach id cap c
        → c.reader ≡ polling
        → (w : World State Server) → (dispatch (record w { self = c.server })).0 ≡ ok tt
        → Reach id cap (record c {
          server = (dispatch (record w { self = c.server })).1.self;
          reader = polling;
        })
    dispatch_reaches {id} {cap} {c} r idle w fine =
        let job = job_of queue_key request_json request_id handler c.server in
        let v = record w { self = c.server } in
        elim (acquire_slot-cases job.method_limiter c.server) [
          | inl full ↦ cc (dispatch_blocked v full, fine)
          | inr (limiters, free) ↦
              elim (acquire_slot-cases c.server.global_limiter
                (record c.server { limiters = limiters })) [
                  | inl full ↦ cc (dispatch_capped v limiters free full, fine)
                  | inr (after, room) ↦ elim (Bool-cases (takes_jobs c.server)) [
                    | inl taking ↦
                        subst (λ s. Reach id cap (record c { server = s; reader = polling }))
                          (sym (dispatch_done v limiters after free room taking))
                          (later (taken_both r idle limiters after free room)
                            (submit job refl taking))
                    | inr closed ↦ absurd (dispatch_refused v limiters after free room closed fine)
                  ]
                ]
        ]
