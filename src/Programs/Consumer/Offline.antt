-- ===== src/Programs/Consumer/Offline.antt =====
-- The examples of the sample consumer with no server.
use anycall.Prelude.{ℕ, ◌≡◌, refl, false, none, [], ◌∷◌}
use anycall.Prelude.Int.{pos, sub_ℕ}
use anycall.Text.{Text, codes, ◌==◌}
use anycall.Json.{Json, obj, str}
use anycall.Json.Print.{dumps}
use anycall.Errors.{Exn, no_server_available_error, ok, err, class_of, base, message_of}
use anycall.Serialization.{Dacite, PyType, serialize}
use anycall.Queues.{heartbeat_key, heartbeat_ttl_seconds}
use anycall.Redis.{Redis}
use anycall.Exec.{alone, round_trip}
use anycall.Adapter.{micros, alive_count}
use anycall.Registry
use anycall.Client.{Client}
use anycall.Client.Call.{call, raw_call, call_impl, register_type, resolve_type}
use anycall.Client.Decode.{dict_type}
use anycall.Client.Guards.{call_unserved}
use anycall.Core.{make_client}
use anycall.Programs.{sentiment_type, text_request, text_request_fields, analyze}
use anycall.Programs.Consumer.{
  expected, run_examples, skipping, handle_framework, connect, expecting, report, assert,
  example_call_with_explicit_type, example_call_with_registry, example_raw_call,
  example_registry_absent_error, example_duplicate_type_error, example_duplicate_type_idempotent,
}

abbrev pub absent_text : Text
absent_text =
    codes
      "No response type registered for operation 'unknown-operation'. Either call with explicit type: call('unknown-operation', req, YourType), or register the type first: register_type('unknown-operation', YourType)."

abbrev pub duplicate_text : Text
duplicate_text =
    codes
      "Operation 'analyze-sentiment' already registered with type Sentiment, cannot register OrderResponse. Either register with same type (idempotent) or recreate client."

-- The client of an example, new and with the type registered.
abbrev pub new_here : ℕ → Client
new_here now = (make_client (pos 0) false none now).client

abbrev pub registered_here : ℕ → Client
registered_here now = record (new_here now) {
  registry = record { types = (analyze, sentiment_type) ∷ [] };
}

module _ (R : Redis) (dacite : Dacite) (describe : Exn → Text) (format : Json → Text) (rounds : ℕ)
    (s : R.State) (clock : ℕ)
    (nobody : R.zcount heartbeat_key (sub_ℕ (R.time s) (micros heartbeat_ttl_seconds)) s ≡ 0) where
  refused :
      (text uuid : Text) (t : PyType) (self : Client)
      → call_impl R dacite describe format rounds analyze
          (text_request (str text))
          t
          none
          uuid
          (alone s clock self)
        ≡ (err (no_server_available_error analyze), alone s clock self)
  unfolding serialize alive_count round_trip
  refused text uuid t self =
      call_unserved R dacite describe format rounds analyze (text_request (str text)) t none uuid
        (dumps (obj (text_request_fields (str text)))) (alone s clock self) (alone s clock self)
        refl (simp nobody)

  explicit_skipped :
      (uuid : Text) (self : Client)
      → skipping
          (example_call_with_explicit_type R dacite describe format rounds uuid)
          (alone s clock self)
        ≡ (ok tt, alone s clock (new_here clock))
  unfolding skipping example_call_with_explicit_type connect call make_client handle_framework
      class_of base
  explicit_skipped uuid self =
      rw (refused (codes "This is great!") uuid sentiment_type (new_here clock))

  registry_skipped :
      (uuid : Text) (self : Client)
      → skipping
          (example_call_with_registry R dacite describe format rounds uuid)
          (alone s clock self)
        ≡ (ok tt, alone s clock (registered_here clock))
  unfolding skipping example_call_with_registry connect call make_client handle_framework class_of
      base register_type Registry.register Registry.lookup resolve_type Registry.get ◌==◌
  registry_skipped uuid self =
      rw (refused (codes "Absolutely wonderful!") uuid sentiment_type (registered_here clock))

  raw_skipped :
      (uuid : Text) (self : Client)
      → skipping (example_raw_call R dacite describe format rounds uuid) (alone s clock self)
        ≡ (ok tt, alone s clock (new_here clock))
  unfolding skipping example_raw_call connect raw_call make_client handle_framework class_of base
  raw_skipped uuid self = rw (refused (codes "Looking good!") uuid dict_type (new_here clock))

  absent_reported :
      (uuid : Text) (self : Client)
      → example_registry_absent_error R dacite describe format rounds uuid (alone s clock self)
        ≡ (ok (expected absent_text), alone s clock (new_here clock))
  unfolding example_registry_absent_error connect call make_client resolve_type Registry.get
      Registry.lookup expecting report handle_framework class_of base message_of assert
  absent_reported uuid self = refl

  duplicate_reported :
      (self : Client)
      → example_duplicate_type_error R dacite describe format rounds (alone s clock self)
        ≡ (ok (expected duplicate_text), alone s clock (registered_here clock))
  unfolding example_duplicate_type_error connect make_client register_type Registry.register
      Registry.lookup Registry.conflict_message ◌==◌ expecting report handle_framework class_of base
      message_of assert
  duplicate_reported self = refl

  idempotent_passes :
      (self : Client)
      → example_duplicate_type_idempotent R dacite describe format rounds (alone s clock self)
        ≡ (ok tt, alone s clock (registered_here clock))
  unfolding example_duplicate_type_idempotent connect make_client register_type Registry.register
      Registry.lookup ◌==◌
  idempotent_passes self = refl

  -- Over a working connection, with no interference and no server alive, the consumer's script of
  -- examples runs to its end: its three calls are skipped, the errors of a missing type and of a
  -- second type are raised with their texts, a second registration of the same type is passed, and
  -- Redis is as it was.
  pub examples_run_offline :
      (first second third fourth : Text) (self : Client)
      → run_examples R dacite describe format rounds first second third fourth (alone s clock self)
        ≡ (
          ok (expected absent_text, expected duplicate_text),
          alone s clock (registered_here clock),
        )
  unfolding run_examples
  examples_run_offline first second third fourth self = simp (
    explicit_skipped first self,
    registry_skipped second (new_here clock),
    raw_skipped third (registered_here clock),
    absent_reported fourth (new_here clock),
    duplicate_reported (new_here clock),
    idempotent_passes (registered_here clock),
  )
