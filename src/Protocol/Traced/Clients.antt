-- ===== src/Protocol/Traced/Clients.antt =====
-- What a client of client.py does with Redis, as runs of commands of the protocol.
use anycall.Prelude.{
  Bool-cases, ltb, ℕ, refl, Option, none, some, List, [], ◌∷◌, inl, inr, zero, suc, Option-cases,
}
use anycall.Prelude.Int.{ℤ}
use anycall.Text.{Text, codes}
use anycall.Json.{Json}
use anycall.Errors.{Exn, Result, ok, err, unfinished}
use anycall.Model.Request.{AnyCallRequest}
use anycall.Serialization.{Dacite, PyType, Object}
use anycall.Queues.{heartbeat_key, heartbeat_ttl_seconds, response_queue}
use anycall.Redis.{Redis}
use anycall.Exec.{World, Exec, lift, ◌>>=◌}
use anycall.Adapter.{alive_members, alive_count, length, pop, wait_out, push_and_wake, delete}
use anycall.Client.{
  Client, reap_owned, reap_locked, reap_if_quiet, received, wait_rounds, await_response, next_slice,
}
use anycall.Client.Call.{
  cleaned, finally, check_depth, check_alive, publish_and_wait, call_impl, call, raw_call,
}
use anycall.Protocol.{Traffic}
use anycall.Protocol.Traced.{Steady, Traced, After, Started}
use anycall.Protocol.Traced.Rules.{
  Traced-bind, Traced-still, Traced-pure, Traced-lift, continue-After, from,
}
use anycall.Protocol.Traced.Trips.{Traced-round_trip, Traced-pipeline, traced_rules}
use anycall.Protocol.Traced.Commands.{reads, pops, cleans_up, pushes}
use anycall.Protocol.Traced.Methods.{reap_orphans-Traced, inflight_owners-Traced}

-- Nothing is asked of a client.
abbrev pub Anyone : Client → Type 0
Anyone c = Unit {0}

module _ (R : Redis) (steady : Steady R) (ids : List Text) where
  open R use {State}

  abbrev T : {A : Type 0} → Exec State Client A → Type 0
  T m = Traced R ids Anyone m

  alive_members-Traced : T (alive_members R heartbeat_key heartbeat_ttl_seconds)
  unfolding alive_members
  alive_members-Traced = search (traced_rules, Traced-round_trip, reads R steady ids)

  alive_count-Traced : T (alive_count R heartbeat_key heartbeat_ttl_seconds)
  unfolding alive_count
  alive_count-Traced = search (traced_rules, Traced-round_trip, reads R steady ids)

  length-Traced : (key : Text) → T (length R key)
  unfolding length
  length-Traced key = search (traced_rules, Traced-round_trip, reads R steady ids)

  delete-Traced : (id : Text) → T (delete R (response_queue id))
  unfolding delete
  delete-Traced id = search (traced_rules, Traced-round_trip, cleans_up R steady ids)

  push_and_wake-Traced : (queue value channel : Text) → T (push_and_wake R queue value channel)
  unfolding push_and_wake
  push_and_wake-Traced queue value channel =
      Traced-pipeline R ids Anyone _ (pushes R steady ids queue value channel (codes "1"))

  wait_out-Traced : (timeout : ℕ) (o : Option (Text × Text)) → T (wait_out R timeout o)
  unfolding wait_out
  wait_out-Traced timeout none = elim (Bool-cases (ltb timeout 1000)) [
    | inl short ↦ rw (short, wait_out) (Traced-still R ids Anyone _ (λ w. (refl, refl, λ p. p)))
    | inr long ↦ rw (long, wait_out) (Traced-still R ids Anyone _ (λ w. (refl, refl, λ p. p)))
  ]
  wait_out-Traced timeout (some popped) = Traced-pure R ids Anyone (some popped)

  pop-Traced : (queue : Text) (timeout : ℕ) → T (pop R (queue ∷ []) timeout)
  unfolding pop
  pop-Traced queue timeout =
      search (traced_rules, Traced-round_trip, pops R steady ids, wait_out-Traced)

  pub reap_owned-Traced : (owners : List (Text × Text)) → T (reap_owned R owners)
  unfolding reap_owned
  reap_owned-Traced [] = Traced-pure R ids Anyone tt
  reap_owned-Traced (entry ∷ owners) =
      search (traced_rules, alive_members-Traced, reap_orphans-Traced R steady ids)

  pub reap_locked-Traced : T (reap_locked R)
  unfolding reap_locked
  reap_locked-Traced = search (traced_rules, inflight_owners-Traced R steady ids, reap_owned-Traced)

  reap_if_quiet-Traced : T (reap_if_quiet R)
  unfolding reap_if_quiet
  reap_if_quiet-Traced = search (traced_rules, reap_locked-Traced)

  received-Traced :
      (o : Option (Text × Text)) (again : Exec State Client (Option Text))
      → T again
      → T (received R o again)
  unfolding received
  received-Traced (some (key, value)) again h = search traced_rules
  received-Traced none again h = search (traced_rules, reap_if_quiet-Traced)

  wait_rounds-Traced :
      (rounds : ℕ) (queue : Text) (deadline : Option ℕ) → T (wait_rounds R rounds queue deadline)
  unfolding wait_rounds
  wait_rounds-Traced zero queue deadline = Traced-still R ids Anyone _ (λ w. (refl, refl, λ p. p))
  wait_rounds-Traced (suc rounds) queue deadline = record {
    at = λ w beats started lawful p. elim (Option-cases (next_slice deadline w.clock)) [
      | inl over ↦
          rw (over, wait_rounds)
            ((Traced-pure R ids Anyone {A = Option Text} none).at w beats started lawful p)
      | inr (wait, slice) ↦
          rw (slice, wait_rounds)
            ((Traced-bind R ids Anyone (pop R (queue ∷ []) wait)
                (λ popped. received R popped (wait_rounds R rounds queue deadline))
                (pop-Traced queue wait)
                (λ o. received-Traced o _ (wait_rounds-Traced rounds queue deadline))).at
              w beats started lawful p)
    ];
  }

  await_response-Traced : (rounds : ℕ) (queue : Text) → T (await_response R rounds queue)
  unfolding await_response
  await_response-Traced rounds queue = search (traced_rules, wait_rounds-Traced)

  module _ {A : Type 0} (cleanup : Exec State Client ℕ) (clean : T cleanup) where
    cleaned-After :
        (r : Result A) (m : Traffic R) (w : World State Client)
        → Started ids m.beats
        → After R ids Anyone m w
        → After R ids Anyone m (cleaned r cleanup w).1
    cleaned-After (err unfinished) m w started h = h
    cleaned-After r m w started h =
        continue-After R ids Anyone (ok tt) (λ _. cleanup >>= λ _. lift r) m w started h
          (λ _.
            Traced-bind R ids Anyone cleanup (λ _. lift r) clean (λ _. Traced-lift R ids Anyone r))

    finally-Traced : (m : Exec State Client A) → T m → T (finally m cleanup)
    finally-Traced m h = record {
      at = λ w beats started lawful p.
          cleaned-After (m w).0 (from R ids Anyone w beats) (m w).1 started
            (h.at w beats started lawful p);
    }

  check_depth-Traced : (name : Text) (depth : Option ℤ) → T (check_depth R name depth)
  unfolding check_depth
  check_depth-Traced name none = Traced-pure R ids Anyone tt
  check_depth-Traced name (some max_depth) = search (traced_rules, length-Traced)

  check_alive-Traced : (name : Text) → T (check_alive R name)
  unfolding check_alive
  check_alive-Traced name = search (traced_rules, alive_count-Traced)

  module _ (dacite : Dacite) (describe : Exn → Text) (format : Json → Text) (rounds : ℕ) where
    publish_and_wait-Traced :
        (name : Text) (r : AnyCallRequest) (uuid : Text) (type : PyType)
        → T (publish_and_wait R dacite describe format rounds name r uuid type)
    unfolding publish_and_wait
    publish_and_wait-Traced name r uuid type =
        search (traced_rules, push_and_wake-Traced, await_response-Traced)

    pub call_impl-Traced :
        (name : Text) (argument : Object) (type : PyType) (depth : Option ℤ) (uuid : Text)
        → T (call_impl R dacite describe format rounds name argument type depth uuid)
    unfolding call_impl
    call_impl-Traced name argument type depth uuid =
        search
          (
            traced_rules, finally-Traced, delete-Traced, publish_and_wait-Traced,
            check_alive-Traced, check_depth-Traced,
          )
          depth 12

    pub call-Traced :
        (name : Text) (argument : Object) (type : Option PyType) (depth : Option ℤ) (uuid : Text)
        → T (call R dacite describe format rounds name argument type depth uuid)
    unfolding call
    call-Traced name argument type depth uuid = search (traced_rules, call_impl-Traced)

    pub raw_call-Traced :
        (name : Text) (argument : Object) (depth : Option ℤ) (uuid : Text)
        → T (raw_call R dacite describe format rounds name argument depth uuid)
    unfolding raw_call
    raw_call-Traced name argument depth uuid = call_impl-Traced name argument _ depth uuid
