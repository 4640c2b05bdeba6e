-- ===== src/Server/Loops.antt =====
-- The loops of server.py: the heartbeat, and one round of the read loop.
use anycall.Prelude.{
  ℕ, zero, suc, ◌+◌, Bool, true, false, Option, none, some, List, [], ◌∷◌, ◌++◌, if◌then◌else◌,
}
use anycall.Text.{Text, codes, ◌==◌}
use anycall.Assoc.{lookup}
use anycall.Errors.{Exn, attribute_error, raised, unfinished, ok}
use anycall.Queues.{
  inflight_key, heartbeat_key, heartbeat_ttl_seconds, request_queue, method_name_from_queue,
}
use anycall.Redis.{Redis}
use anycall.Exec.{Exec, pure, raise, catch, modify, gets, ◌>>=◌, ◌>>◌}
use anycall.Adapter
use anycall.Adapter.{inflight_owners, heartbeat, release_inflight}
use anycall.Reaping.{reap_orphans}
use anycall.Server.{MethodHandler, Job, Server, clear, set_limiter}
use anycall.Server.Limiter.{available, acquire}

-- HEARTBEAT_PERIOD_SECONDS, in microseconds
abbrev pub heartbeat_period : ℕ
heartbeat_period = 2000000

-- The sum of the methods' own caps.
abbrev pub worker_count : List (Text × MethodHandler) → ℕ
worker_count [] = 0
worker_count ((name, h) ∷ handlers) = h.max_concurrency + worker_count handlers

-- A limiter has room if there is none, or if it has a free slot.
abbrev pub has_room : Server → Option ℕ → Bool
has_room s none = true
has_room s (some place) = available (s.limiters place)

-- `limiter.acquire()` if there is a limiter; none while it has no free slot
unfoldable pub acquire_slot : Option ℕ → Server → Option Server
acquire_slot none s = some s
acquire_slot (some place) s = elim (acquire (s.limiters place)) [
  | none ↦ none
  | some l ↦ some (record s { limiters = set_limiter place l s.limiters })
]

unfoldable pub with_room : Server → List Text → List Text
with_room s [] = []
with_room s (name ∷ names) =
    let rest = with_room s names in
    if has_room s (lookup name s.method_limiters) then name ∷ rest else rest

unfoldable pub methods_with_capacity : Server → List Text → List Text
methods_with_capacity s names = if has_room s s.global_limiter then with_room s names else []

abbrev pub names_of : List (Text × MethodHandler) → List Text
names_of [] = []
names_of ((name, h) ∷ handlers) = name ∷ names_of handlers

abbrev pub queues_of : List Text → List Text
queues_of [] = []
queues_of (name ∷ names) = request_queue name ∷ queues_of names

module _ (R : Redis) where
  open R use {State}

  abbrev pub TickSnapshot : Type 0
  TickSnapshot = Option (List (Text × Text) × (Bool × List Text))

  -- The owners are read before the heartbeat.
  unfoldable pub read_snapshot : Exec State Server TickSnapshot
  read_snapshot = do
    owners ← inflight_owners R inflight_key
    server_id ← gets (λ s. s.server_id)
    beat ← heartbeat R heartbeat_key server_id heartbeat_ttl_seconds
    pure (some (owners, beat))

  unfoldable pub after_snapshot : TickSnapshot → Exec State Server (Unit {0})
  after_snapshot none = pure tt
  after_snapshot (some (owners, (rejoined, alive))) = do
    modify (λ s. record s { heartbeat_registered = true })
    reap_orphans R owners alive

  unfoldable pub heartbeat_tick : Exec State Server (Unit {0})
  heartbeat_tick = catch read_snapshot (λ e. pure none) >>= after_snapshot

  -- `_emit_heartbeats`, for at most so many turns. `start` already ran the first tick, so a turn
  -- sleeps first.
  unfoldable pub emit_heartbeats : ℕ → Exec State Server (Unit {0})
  unfolding heartbeat_tick
  emit_heartbeats zero = pure tt
  emit_heartbeats (suc turns) = do
    running ← gets (λ s. s.running)
    (if running
        then ((λ w. (ok tt, record w { clock = w.clock + heartbeat_period }))
            >> (heartbeat_tick >> emit_heartbeats turns))
        else pure tt)

  unfoldable pub start_once : Bool → Exec State Server (Unit {0})
  start_once true = pure tt
  start_once false = do
    modify (λ s. record s {
      running = true;
      workers = some (worker_count s.method_handlers + 3);
      shut = false;
    })
    heartbeat_tick

  unfoldable pub start : Exec State Server (Unit {0})
  start = do running ← gets (λ s. s.running); start_once running

  -- A limiter without a free slot blocks the loop: it is still waiting.
  unfoldable pub acquire_limiter : Option ℕ → Exec State Server (Unit {0})
  unfolding acquire_slot
  acquire_limiter o w = elim (acquire_slot o w.self) [
    | none ↦ raise unfinished w
    | some s ↦ (ok tt, record w { self = s })
  ]

  -- `self._executor.submit`: an executor that was shut down raises a RuntimeError.
  unfoldable pub executor_submit : Option ℕ → Bool → Job → Exec State Server (Unit {0})
  executor_submit none shut job = raise attribute_error
  executor_submit (some workers) true job =
      raise (raised (codes "cannot schedule new futures after shutdown"))
  executor_submit (some workers) false job = modify (λ s. record s { jobs = s.jobs ++ job ∷ [] })

  -- What was acquired is kept if the executor refuses the job.
  unfoldable pub dispatch_message :
      Text → Text → Text → List (Text × MethodHandler) → Exec State Server (Unit {0})
  dispatch_message queue_key request_json request_id snapshot =
      elim (lookup (method_name_from_queue queue_key) snapshot) [
        | none ↦
            if request_id == []
            then pure tt
            else (release_inflight R inflight_key request_id >> pure tt)
        | some handler ↦ do
          method_limiter ← gets (λ s. lookup (method_name_from_queue queue_key) s.method_limiters)
          acquire_limiter method_limiter
          global_limiter ← gets (λ s. s.global_limiter)
          acquire_limiter global_limiter
          pool ← gets (λ s. s.workers)
          shut ← gets (λ s. s.shut)
          executor_submit pool shut (record {
            request_json = request_json;
            acquired_id = request_id;
            handler = handler;
            method_limiter = method_limiter;
          })
      ]

  -- `Doorbell.wait`, in which at most the timeout passes.
  unfoldable pub wait_bell : ℕ → Exec State Server (Unit {0})
  wait_bell waited w =
      modify clear (if w.self.rung then w else record w { clock = w.clock + waited })

  unfoldable pub route :
      ℕ → List (Text × MethodHandler) → Option (Text × Text × Text) → Exec State Server (Unit {0})
  route waited snapshot none = wait_bell waited
  route waited snapshot (some (queue_key, request_json, request_id)) =
      dispatch_message queue_key request_json request_id snapshot

  unfoldable pub poll_available :
      (List Text → List Text)
      → ℕ
      → List (Text × MethodHandler)
      → List Text
      → Exec State Server (Unit {0})
  unfolding route
  poll_available shuffle waited snapshot [] = wait_bell waited
  poll_available shuffle waited snapshot (name ∷ names) = do
    modify clear
    server_id ← gets (λ s. s.server_id)
    acquired ← Adapter.acquire R inflight_key (shuffle (queues_of (name ∷ names))) server_id
    route waited snapshot acquired

  -- What a round raises is passed over or logged; a round that is blocked goes on waiting.
  unfoldable pub passed_over : Exn → Exec State Server (Unit {0})
  passed_over unfinished = raise unfinished
  passed_over _ = pure tt

  -- One round of `_poll_all_queues`, with the order that `random.shuffle` gives and the time for
  -- which the doorbell is waited for.
  unfoldable pub poll_round : (List Text → List Text) → ℕ → Exec State Server (Unit {0})
  unfolding passed_over
  poll_round shuffle waited =
      catch
        (do
          snapshot ← gets (λ s. s.method_handlers)
          available_methods ← gets (λ s. methods_with_capacity s (names_of snapshot))
          poll_available shuffle waited snapshot available_methods)
        passed_over

  -- `_poll_all_queues`, for at most so many rounds as there are waits.
  unfoldable pub poll_all_queues : (List Text → List Text) → List ℕ → Exec State Server (Unit {0})
  unfolding poll_round
  poll_all_queues shuffle [] = pure tt
  poll_all_queues shuffle (waited ∷ waits) = do
    running ← gets (λ s. s.running)
    (if running then (poll_round shuffle waited >> poll_all_queues shuffle waits) else pure tt)
