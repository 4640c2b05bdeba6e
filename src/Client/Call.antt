-- ===== src/Client/Call.antt =====
-- The calls of client.py: `call`, `raw_call`, `_call_impl` and the small methods.
use anycall.Prelude.{ℕ, Option, none, some, ◌++◌, eqb, if◌then◌else◌}
use anycall.Prelude.Int.{ℤ, at_least}
use anycall.Text.{Text, codes}
use anycall.Json.{Json}
use anycall.Errors.{
  Exn, unfinished, any_call_error, queue_full_error, no_server_available_error, serialization_error,
  Result, ok, err,
}
use anycall.Model.Request
use anycall.Model.Request.{AnyCallRequest}
use anycall.Serialization.{Dacite, PyType, Object, request, serialize}
use anycall.Queues.{
  request_queue, response_queue, wake_channel, heartbeat_key, heartbeat_ttl_seconds,
}
use anycall.Registry
use anycall.Registry.{TypeRegistry}
use anycall.Redis.{Redis}
use anycall.Exec.{Exec, pure, raise, lift, monotonic, gets, modify, ◌>>=◌, ◌>>◌}
use anycall.Adapter.{push_and_wake, delete, alive_count, length}
use anycall.Client.{Client, saw_activity, await_response}
use anycall.Client.Decode.{rethrow, is_type_or_value_error, read_response, dict_type}

-- `try: m finally: cleanup`. An exception of the cleanup replaces what came before. A call that is
-- still waiting has not come to its cleanup.
abbrev pub cleaned : {S L A : Type 0} → Result A → Exec S L ℕ → Exec S L A
cleaned (err unfinished) cleanup w = (err unfinished, w)
cleaned r cleanup w = (cleanup >>= λ _. lift r) w

abbrev pub finally : {S L A : Type 0} → Exec S L A → Exec S L ℕ → Exec S L A
finally m cleanup w = let (r, w') = m w in cleaned r cleanup w'

abbrev pub or_else : Option ℤ → Option ℤ → Option ℤ
or_else none default = default
or_else (some depth) default = some depth

-- `registry.get` with the error of a missing type
unfoldable pub resolve_type : TypeRegistry → Text → Option PyType → Result PyType
resolve_type registry method_name (some t) = ok t
resolve_type registry method_name none = elim (Registry.get registry method_name) [
  | some t ↦ ok t
  | none ↦ err (
      any_call_error (codes "unknown") (
        codes "No response type registered for operation '"
        ++ (method_name
            ++ (codes "'. Either call with explicit type: call('"
                ++ (method_name
                    ++ (codes "', req, YourType), or register the type first: register_type('"
                        ++ (method_name ++ codes "', YourType).")))))))
]

module _ (R : Redis) where
  open R use {State}

  -- The check against `max_queue_depth`, before anything is pushed.
  unfoldable pub check_depth : Text → Option ℤ → Exec State Client (Unit {0})
  check_depth method_name none = pure tt
  check_depth method_name (some max_depth) = do
    queue_depth ← length R (request_queue method_name)
    if at_least max_depth queue_depth
        then raise (queue_full_error method_name queue_depth max_depth)
        else pure tt

  -- The check that some server is alive, which counts as a sign of one.
  unfoldable pub check_alive : Text → Exec State Client (Unit {0})
  check_alive method_name = do
    alive ← alive_count R heartbeat_key heartbeat_ttl_seconds
    if eqb alive 0
        then raise (no_server_available_error method_name)
        else do now ← monotonic; modify (saw_activity now)

  unfoldable pub get_queue_depth : Text → Exec State Client ℕ
  get_queue_depth method_name = length R (request_queue method_name)

  unfoldable pub register_type : Text → PyType → Exec State Client (Unit {0})
  register_type operation response_type = do
    registry ← gets (λ c. c.registry)
    registry' ← lift (Registry.register registry operation response_type)
    modify (λ c. record c { registry = registry' })

  unfoldable pub set_default_max_queue_depth : Option ℤ → Exec State Client (Unit {0})
  set_default_max_queue_depth depth = modify (λ c. record c { default_max_queue_depth = depth })

  unfoldable pub get_default_max_queue_depth : Exec State Client (Option ℤ)
  get_default_max_queue_depth = gets (λ c. c.default_max_queue_depth)

  module _ (dacite : Dacite) (describe : Exn → Text) (format : Json → Text) (rounds : ℕ) where
    -- The body of the `try` in `_call_impl`: publish, wait and read.
    unfoldable pub publish_and_wait :
        Text → AnyCallRequest → Text → PyType → Exec State Client Object
    publish_and_wait method_name rpc_request uuid response_type = do
      request_json ← lift (
          rethrow is_type_or_value_error
            (λ e.
              serialization_error method_name
                (codes "Failed to serialize RPC request: " ++ describe e))
            (serialize (request rpc_request)))
      push_and_wake R (request_queue method_name) request_json (wake_channel method_name)
      response_json ← await_response R rounds (response_queue uuid)
      lift (read_response dacite describe format method_name uuid response_type response_json)

    -- `_call_impl`, with the uuid that `AnyCallRequest.create` draws.
    unfoldable pub call_impl : Text → Object → PyType → Option ℤ → Text → Exec State Client Object
    unfolding check_depth check_alive publish_and_wait
    call_impl method_name argument response_type max_queue_depth uuid = do
      default ← gets (λ c. c.default_max_queue_depth)
      payload ← lift (
          rethrow is_type_or_value_error
            (λ e.
              serialization_error method_name (codes "Failed to serialize request: " ++ describe e))
            (serialize argument))
      check_alive method_name
      check_depth method_name (or_else max_queue_depth default)
      finally
          (publish_and_wait method_name (Request.create uuid method_name payload) uuid
            response_type)
          (delete R (response_queue uuid))

    unfoldable pub call : Text → Object → Option PyType → Option ℤ → Text → Exec State Client Object
    unfolding resolve_type call_impl
    call method_name argument response_type max_queue_depth uuid = do
      registry ← gets (λ c. c.registry)
      resolved_type ← lift (resolve_type registry method_name response_type)
      call_impl method_name argument resolved_type max_queue_depth uuid

    unfoldable pub raw_call : Text → Object → Option ℤ → Text → Exec State Client Object
    unfolding call_impl
    raw_call method_name argument max_queue_depth uuid =
        call_impl method_name argument dict_type max_queue_depth uuid
