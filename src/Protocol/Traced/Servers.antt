-- ===== src/Protocol/Traced/Servers.antt =====
-- What a server of server.py does with Redis, as runs of commands of the protocol.
use anycall.Prelude.{
  false, ℕ, ◌≡◌, ◌⊎◌, refl, Bool, true, Option, none, some, List, [], ◌∷◌, Bool-cases, inl, inr,
  Option-cases,
}
use anycall.Text.{Text, codes}
use anycall.Json.{Json, str}
use anycall.Errors.{Exn, Result, ok, err, unfinished}
use anycall.Model.Request.{AnyCallRequest}
use anycall.Model.Response
use anycall.Model.Response.{AnyCallResponse}
use anycall.Assoc.{lookup}
use anycall.Serialization.{Dacite}
use anycall.Queues.{inflight_key, method_name_from_queue}
use anycall.Redis.{Redis, contains}
use anycall.Exec.{Exec}
use anycall.Adapter
use anycall.Adapter.{
  release_inflight, respond, respond_commands, inflight_owners, heartbeat, heartbeat_script,
}
use anycall.Server.{Server, set_limiter, MethodHandler, Job}
use anycall.Server.Limiter.{ConcurrencyLimiter, acquire}
use anycall.Server.Invoke.{read_request}
use anycall.Server.Requests.{send, process_read, process_request, process_message, release_limiter}
use anycall.Server.Loops.{
  read_snapshot, after_snapshot, heartbeat_tick, acquire_slot, acquire_limiter, executor_submit,
  dispatch_message, wait_bell, route, poll_available, poll_round, passed_over,
}
use anycall.Protocol.Traced.{Steady, Traced}
use anycall.Protocol.Traced.Rules.{Traced-still, Traced-pure, Traced-raise}
use anycall.Protocol.Traced.Trips.{Traced-round_trip, traced_rules}
use anycall.Protocol.Traced.Methods.{
  release_inflight-Traced, respond-Traced, reap_orphans-Traced, inflight_owners-Traced,
  heartbeat-Traced,
}
use anycall.Protocol.Traced.Commands.{takes}

-- A server that is among those that have heartbeaten.
abbrev pub Listed : List Text → Server → Type 0
Listed ids s = contains s.server_id ids ≡ true

-- A slot changes the limiters at most.
slot_cases :
    (o : Option ℕ) (s : Server)
    → (acquire_slot o s ≡ none)
      ⊎ ((limiters : ℕ → ConcurrencyLimiter) × (acquire_slot o s
            ≡ some (record s { limiters = limiters })))
unfolding acquire_slot
slot_cases none s = inr (s.limiters, refl)
slot_cases (some place) s = elim (Option-cases (acquire (s.limiters place))) [
  | inl full ↦ inl (rw (full, acquire_slot) refl)
  | inr (l, free) ↦ inr (set_limiter place l s.limiters, rw (free, acquire_slot) refl)
]

module _ (R : Redis) (steady : Steady R) (ids : List Text) (P : Server → Type 0) where
  pub read_snapshot-Traced : Traced R ids P (read_snapshot R)
  unfolding read_snapshot
  read_snapshot-Traced =
      search (traced_rules, inflight_owners-Traced R steady ids, heartbeat-Traced R steady ids)

module _ (R : Redis) (steady : Steady R) (ids : List Text) where
  open R use {State}

  abbrev T : {A : Type 0} → Exec State Server A → Type 0
  T m = Traced R ids (Listed ids) m

  after_snapshot-Traced :
      (o : Option (List (Text × Text) × (Bool × List Text))) → T (after_snapshot R o)
  unfolding after_snapshot
  after_snapshot-Traced none = Traced-pure R ids _ tt
  after_snapshot-Traced (some (owners, (rejoined, alive))) =
      search (traced_rules, reap_orphans-Traced R steady ids)

  pub heartbeat_tick-Traced : T (heartbeat_tick R)
  unfolding heartbeat_tick
  heartbeat_tick-Traced =
      search (traced_rules, read_snapshot-Traced R steady ids, after_snapshot-Traced)

  acquire_limiter-Traced : (o : Option ℕ) → T (acquire_limiter R o)
  unfolding acquire_limiter
  acquire_limiter-Traced o = Traced-still R ids _ _ (λ w. elim (slot_cases o w.self) [
    | inl blocked ↦ rw (blocked, acquire_limiter) (refl, refl, λ p. p)
    | inr (limiters, free) ↦ rw (free, acquire_limiter) (refl, refl, λ p. p)
  ])

  wait_bell-Traced : (waited : ℕ) → T (wait_bell R waited)
  unfolding wait_bell
  wait_bell-Traced waited = Traced-still R ids _ _ (λ w. elim (Bool-cases w.self.rung) [
    | inl rung ↦ rw rung (refl, refl, λ p. p)
    | inr quiet ↦ rw quiet (refl, refl, λ p. p)
  ])

  executor_submit-Traced :
      (pool : Option ℕ) (shut : Bool) (job : Job) → T (executor_submit R pool shut job)
  unfolding executor_submit
  executor_submit-Traced none shut job = search traced_rules
  executor_submit-Traced (some n) true job = search traced_rules
  executor_submit-Traced (some n) false job = search traced_rules

  dispatch_message-Traced :
      (queue_key request_json request_id : Text) (snapshot : List (Text × MethodHandler))
      → T (dispatch_message R queue_key request_json request_id snapshot)
  unfolding dispatch_message
  dispatch_message-Traced queue_key request_json request_id snapshot =
      elim (Option-cases (lookup (method_name_from_queue queue_key) snapshot)) [
        | inl unknown ↦
            rw (unknown, dispatch_message)
              (search (traced_rules, release_inflight-Traced R steady ids))
        | inr (handler, known) ↦
            rw (known, dispatch_message)
              (search (traced_rules, acquire_limiter-Traced, executor_submit-Traced) depth 8)
      ]

  route-Traced :
      (waited : ℕ) (snapshot : List (Text × MethodHandler)) (o : Option (Text × Text × Text))
      → T (route R waited snapshot o)
  unfolding route
  route-Traced waited snapshot none = wait_bell-Traced waited
  route-Traced waited snapshot (some (queue_key, request_json, request_id)) =
      dispatch_message-Traced queue_key request_json request_id snapshot

  acquire-Traced :
      (me : Text) (keys : List Text)
      → contains me ids ≡ true
      → T (Adapter.acquire R inflight_key keys me)
  unfolding Adapter.acquire
  acquire-Traced me keys listed = Traced-round_trip R ids _ _ (takes R steady ids me keys listed)

  poll_available-Traced :
      (shuffle : List Text → List Text) (waited : ℕ) (snapshot : List (Text × MethodHandler))
      (names : List Text)
      → T (poll_available R shuffle waited snapshot names)
  unfolding poll_available
  poll_available-Traced shuffle waited snapshot [] = wait_bell-Traced waited
  poll_available-Traced shuffle waited snapshot (name ∷ names) =
      search (traced_rules, acquire-Traced, route-Traced)

  passed_over-Traced : (e : Exn) → T (passed_over R e)
  unfolding passed_over
  passed_over-Traced unfinished = Traced-raise R ids _ unfinished
  passed_over-Traced _ = Traced-pure R ids _ tt

  pub poll_round-Traced :
      (shuffle : List Text → List Text) (waited : ℕ) → T (poll_round R shuffle waited)
  unfolding poll_round
  poll_round-Traced shuffle waited =
      search (traced_rules, poll_available-Traced, passed_over-Traced)

module _ (R : Redis) (steady : Steady R) (ids : List Text) (dacite : Dacite) (describe : Exn → Text)
    (format : Json → Text) where
  open R use {State}

  send-Traced :
      (r : AnyCallResponse) (acquired_id : Text) → T R steady ids (send format R r acquired_id)
  unfolding send
  send-Traced r acquired_id = search (traced_rules, respond-Traced R steady ids)

  process_read-Traced :
      (handler : MethodHandler) (acquired_id : Text) (r : AnyCallRequest)
      → T R steady ids (process_read dacite describe format R handler acquired_id r)
  unfolding process_read
  process_read-Traced handler acquired_id r = search (traced_rules, send-Traced)

  process_request-Traced :
      (handler : MethodHandler) (request_json acquired_id : Text)
      → T R steady ids (process_request dacite describe format R handler request_json acquired_id)
  unfolding process_request
  process_request-Traced handler request_json acquired_id = go (read_request dacite request_json)
    where
      go :
          (x : Result AnyCallRequest)
          → T R steady ids (elim x as (λ _. Exec State Server (Unit {0})) [
            | ok r ↦ process_read dacite describe format R handler acquired_id r
            | err e ↦
                send format R (Response.error (str (codes "unknown")) (describe e)) acquired_id
          ])
      go (ok r) = process_read-Traced handler acquired_id r
      go (err e) = send-Traced _ acquired_id

  pub process_message-Traced :
      (job : Job) → T R steady ids (process_message dacite describe format R job)
  unfolding process_message release_limiter
  process_message-Traced job = search (traced_rules, process_request-Traced)
