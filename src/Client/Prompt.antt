-- ===== src/Client/Prompt.antt =====
-- A call of client.py whose response is there when it first waits.
use anycall.Client.Guards.{not_zero}
use anycall.Prelude.{
  leb, max, min, ℕ, zero, suc, ◌+◌, ◌-◌, ◌<◌, ◌≡◌, refl, arith, false, none, some, List, [], ◌∷◌,
}
use anycall.Prelude.Int.{ℤ, pos, negsuc, sub_ℕ}
use anycall.Text.{Text, codes}
use anycall.Json.{Json}
use anycall.Errors.{Exn, ok}
use anycall.Model.Request
use anycall.Serialization.{Dacite, PyType, Object, serialize}
use anycall.Serialization.Wire.{request_text}
use anycall.Queues.{
  request_queue, response_queue, wake_channel, heartbeat_key, heartbeat_ttl_seconds,
}
use anycall.Redis.{Redis}
use anycall.Exec.{World, Turn, answered, round_trip, pipeline, run_all}
use anycall.Adapter.{micros, alive_count, push_and_wake, pop, brpop, wait_out, delete}
use anycall.Client.{
  waiter_reap_slice, Client, saw_activity, await_response, wait_rounds, next_slice, deadline_of,
  received,
}
use anycall.Client.Call.{call_impl, check_alive, check_depth, publish_and_wait}
use anycall.Client.Decode.{read_response, rethrow}

not_over : (now n : ℕ) → leb (now + suc n) now ≡ false
not_over now n = ground arith

-- There is always a first slice.
first_slice :
    (timeout : ℤ) (now : ℕ) → (slice : ℕ) × (next_slice (deadline_of timeout now) now ≡ some slice)
unfolding next_slice deadline_of
first_slice (pos zero) now = (30000000, refl)
first_slice (pos (suc n)) now =
    (max (min waiter_reap_slice (now + suc n - now)) 1000, rw (not_over now n))
first_slice (negsuc n) now = (30000000, refl)

-- A round trip before which nobody else does anything, and one before which others do.
abbrev pub quiet : {S : Type 0} → ℕ → Turn S
quiet elapsed = record { others = λ s. s; elapsed = elapsed; fault = answered }

abbrev pub busy : {S : Type 0} → ℕ → (S → S) → Turn S
busy elapsed others = record { others = others; elapsed = elapsed; fault = answered }

module _ (R : Redis) where
  open R use {State, time, zcount, lpush, publish, contents, rpop, del}

  abbrev pub published : Text → Text → State → State
  published name item s =
      publish (wake_channel name) (codes "1") (lpush (request_queue name) item s)

  -- What is stored once the response is taken and its queue deleted.
  abbrev pub collected : Text → State → State
  collected uuid s = (del (response_queue uuid) (rpop (response_queue uuid) s).1).1

  -- The calling process between two round trips.
  abbrev pub calling : State → ℕ → List (Turn State) → Client → World State Client
  calling s clock turns self = record { redis = s; clock = clock; turns = turns; self = self }

  brpop_one :
      (queue reply : Text) (s : State)
      → (contents s).list queue ≡ reply ∷ []
      → brpop R (queue ∷ []) s ≡ (some (queue, reply), (rpop queue s).1)
  unfolding brpop
  brpop_one queue reply s there = rw (R.rpop_value queue s, there, brpop)

  alive_counted :
      (servers clock n0 n1 : ℕ) (turns : List (Turn State)) (s : State) (self : Client)
      → zcount heartbeat_key (sub_ℕ (time s) (micros heartbeat_ttl_seconds)) s ≡ servers
      → alive_count R heartbeat_key heartbeat_ttl_seconds
          (calling s clock (quiet n0 ∷ quiet n1 ∷ turns) self)
        ≡ (ok servers, calling s (clock + n0 + n1) turns self)
  unfolding alive_count round_trip
  alive_counted servers clock n0 n1 turns s self alive = simp alive

  checked :
      (servers clock n0 n1 : ℕ) (turns : List (Turn State)) (s : State) (self : Client)
      (name : Text)
      → zcount heartbeat_key (sub_ℕ (time s) (micros heartbeat_ttl_seconds)) s ≡ servers
      → 0 < servers
      → let now = clock + n0 + n1 in
        check_alive R name (calling s clock (quiet n0 ∷ quiet n1 ∷ turns) self)
        ≡ (ok tt, calling s now turns (saw_activity now self))
  unfolding check_alive
  checked servers clock n0 n1 turns s self name alive some_alive =
      simp (alive_counted servers clock n0 n1 turns s self alive, not_zero servers some_alive)

  awaited :
      (rounds clock n : ℕ) (queue reply : Text) (others : State → State) (s : State) (self : Client)
      → (contents (others s)).list queue ≡ reply ∷ []
      → await_response R (suc rounds) queue (calling s clock (busy n others ∷ []) self) ≡ (
        ok (some reply),
        calling (rpop queue (others s)).1 (clock + n) [] (saw_activity (clock + n) self),
      )
  unfolding await_response wait_rounds pop wait_out round_trip received
  awaited rounds clock n queue reply others s self there =
      let (slice, first) = first_slice self.timeout clock in
      rw (first, wait_rounds) (simp (brpop_one queue reply (others s) there))

  module _ (dacite : Dacite) (describe : Exn → Text) (format : Json → Text) where
    pub prompt_call :
        (rounds servers clock n0 n1 n2 n3 : ℕ) (name uuid payload reply : Text)
        (argument value : Object) (t : PyType) (others : State → State) (s : State) (self : Client)
        → serialize argument ≡ ok payload
        → zcount heartbeat_key (sub_ℕ (time s) (micros heartbeat_ttl_seconds)) s ≡ servers
        → 0 < servers
        → self.default_max_queue_depth ≡ none
        → let arrived =
            others (published name (request_text (Request.create uuid name payload)) s) in
          (contents arrived).list (response_queue uuid) ≡ reply ∷ []
          → read_response dacite describe format name uuid t (some reply) ≡ ok value
          → let (r, w) =
              call_impl R dacite describe format
                (suc rounds)
                name
                argument
                t
                none
                uuid
                (calling s clock (quiet n0 ∷ quiet n1 ∷ quiet n2 ∷ busy n3 others ∷ []) self) in
            (r ≡ ok value) × (w.redis ≡ collected uuid arrived)
    unfolding call_impl check_depth publish_and_wait rethrow push_and_wake pipeline run_all delete
        round_trip serialize
    prompt_call rounds servers clock n0 n1 n2 n3 name uuid payload reply argument value t others s
          self text alive some_alive unlimited there reads =
        let now = clock + n0 + n1 in
        let arrived = published name (request_text (Request.create uuid name payload)) s in
        simp
          (
            text,
            unlimited,
            checked servers clock n0 n1 (quiet n2 ∷ busy n3 others ∷ []) s self name alive
                some_alive,
            reads,
            awaited rounds (now + n2) n3 (response_queue uuid) reply others arrived
                (record self { default_max_queue_depth = none; last_activity = now }) there,
          )
          (refl, refl)
