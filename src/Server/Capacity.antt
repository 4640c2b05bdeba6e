-- ===== src/Server/Capacity.antt =====
-- Slots that `_dispatch_message` of server.py takes.
use anycall.Prelude.{
  ℕ, ◌+◌, ◌≡◌, refl, ap, fun_ext, arith, Bool, true, false, Option, none, some, List, [], ◌∷◌, ◌++◌,
  is_some, eqb, eqb→eq, eqb_self, inl, inr, Bool-cases,
}
use anycall.Text.{Text}
use anycall.Assoc.{lookup}
use anycall.Errors.{ok}
use anycall.Redis.{Redis}
use anycall.Queues.{method_name_from_queue}
use anycall.Exec.{World}
use anycall.Server.{MethodHandler, Job, Server, set_limiter}
use anycall.Server.Limiter.{ConcurrencyLimiter, available, acquire, release}
use anycall.Server.Loops.{has_room, acquire_limiter, executor_submit, dispatch_message}
use anycall.Server.Slots.{freed}

-- The limiters after a slot of an optional limiter is taken.
abbrev pub taken : Option ℕ → (ℕ → ConcurrencyLimiter) → ℕ → ConcurrencyLimiter
taken none limiters = limiters
taken (some place) limiters =
    set_limiter place (record (limiters place) { in_use = (limiters place).in_use + 1 }) limiters

-- Two optional limiters are the same object.
abbrev pub shared : Option ℕ → Option ℕ → Bool
shared (some a) (some b) = eqb a b
shared _ _ = false

room_elsewhere :
    (o g : Option ℕ) (s : Server) (limiters : ℕ → ConcurrencyLimiter)
    → shared g o ≡ false
    → limiters ≡ s.limiters
    → has_room s g ≡ true
    → has_room (record s { limiters = taken o limiters }) g ≡ true
room_elsewhere none none s limiters apart same room = refl
room_elsewhere (some o) none s limiters apart same room = refl
room_elsewhere none (some g) s limiters apart same room = rw same room
room_elsewhere (some o) (some g) s limiters apart same room = rw (apart, same) room

acquire_room :
    (l : ConcurrencyLimiter)
    → available l ≡ true
    → acquire l ≡ some (record l { in_use = l.in_use + 1 })
unfolding acquire available
acquire_room l room = rw room

module _ (R : Redis) where
  open R use {State}

  took :
      (o : Option ℕ) (w : World State Server)
      → has_room w.self o ≡ true
      → acquire_limiter R o w
        ≡ (ok tt, record w { self = record w.self { limiters = taken o w.self.limiters } })
  unfolding acquire_limiter
  took none w room = refl
  took (some place) w room = rw (acquire_room (w.self.limiters place) room, acquire_limiter)

  takes :
      (pool : Option ℕ) (shut : Bool) (job : Job) (w : World State Server)
      → is_some pool ≡ true
      → shut ≡ false
      → executor_submit R pool shut job w
        ≡ (ok tt, record w { self = record w.self { jobs = w.self.jobs ++ job ∷ [] } })
  unfolding executor_submit
  takes none shut job w started unshut = cc started
  takes (some n) true job w started unshut = cc unshut
  takes (some n) false job w started unshut = refl

  -- A taken request of a known method whose limiter and whose server's cap are different and have
  -- room is, while the executor takes jobs, dispatched without waiting: its job is the last in line and holds one slot of each.
  pub dispatch_takes_slots :
      (queue_key request_json request_id : Text) (handler : MethodHandler)
      (snapshot : List (Text × MethodHandler)) (w : World State Server)
      → lookup (method_name_from_queue queue_key) snapshot ≡ some handler
      → has_room w.self (lookup (method_name_from_queue queue_key) w.self.method_limiters) ≡ true
      → has_room w.self w.self.global_limiter ≡ true
      → is_some w.self.workers ≡ true
      → w.self.shut ≡ false
      → shared w.self.global_limiter
          (lookup (method_name_from_queue queue_key) w.self.method_limiters)
        ≡ false
      → let method_limiter = lookup (method_name_from_queue queue_key) w.self.method_limiters in
        let (r, v) = dispatch_message R queue_key request_json request_id snapshot w in
        (r ≡ ok tt)
        × (v.self.limiters ≡ taken w.self.global_limiter (taken method_limiter w.self.limiters))
        × (v.self.jobs
            ≡ w.self.jobs
              ++ record {
                request_json = request_json;
                acquired_id = request_id;
                handler = handler;
                method_limiter = method_limiter;
              }
                ∷ [])
  unfolding dispatch_message
  dispatch_takes_slots queue_key request_json request_id handler snapshot w known room below_cap
        started unshut apart =
      let place = lookup (method_name_from_queue queue_key) w.self.method_limiters in
      let w1 : World State Server = record w {
        self = record w.self { limiters = taken place w.self.limiters };
      } in
      rw
        (
          dispatch_message,
          known,
          took place w room,
          took w.self.global_limiter w1 (
              room_elsewhere place w.self.global_limiter w.self w.self.limiters apart refl
                below_cap),
          takes w.self.workers w.self.shut _ _ started unshut,
        )
        (refl, refl, refl)

release_taken : (l : ConcurrencyLimiter) → release (record l { in_use = l.in_use + 1 }) ≡ l
unfolding release
release_taken l = ap (λ n. record l { in_use = n }) (omega arith)

freed-taken :
    (o : Option ℕ) (limiters : ℕ → ConcurrencyLimiter) → freed o (taken o limiters) ≡ limiters
freed-taken none limiters = refl
freed-taken (some place) limiters = fun_ext λ i. elim (Bool-cases (eqb i place)) [
  | inl here ↦ rw (eqb→eq i place here, eqb_self place) (release_taken (limiters place))
  | inr elsewhere ↦ rw elsewhere refl
]

-- Taking and then giving back a slot of a method's limiter and of the cap leaves every limiter as
-- it was.
pub slots_cancel :
    (g o : Option ℕ) (limiters : ℕ → ConcurrencyLimiter)
    → freed o (freed g (taken g (taken o limiters))) ≡ limiters
slots_cancel g o limiters = rw (freed-taken g (taken o limiters)) (freed-taken o limiters)
