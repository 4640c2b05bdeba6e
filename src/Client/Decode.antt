-- ===== src/Client/Decode.antt =====
-- What `_call_impl` of client.py makes of the response that it waited for.
use anycall.Prelude.{
  Bool, true, false, ◌||◌, not, Option, none, some, [], ◌∷◌, ◌++◌, eqb, if◌then◌else◌,
}
use anycall.Text.{Text, codes, ◌==◌}
use anycall.Json.{Json, null, bool, number, str, arr, obj, no_items, no_fields}
use anycall.Errors.{
  Exn, type_error, value_error, decode_failed, timeout_error, server_lost_error, remote_exception,
  serialization_error, json_decode_error, Result, ok, err, ◌>>=◌,
}
use anycall.Model.Dataclass.{is_set}
use anycall.Serialization.{Dacite, PyType, other_class, response_class, Object, deserialize}

-- `bool(value)`. A number is false if its literal has no digit but 0 before an exponent.
unfoldable pub is_zero_literal : Text → Bool
is_zero_literal [] = true
is_zero_literal (c ∷ n) =
    let rest = is_zero_literal n in
    if eqb c b'e' || eqb c b'E'
    then true
    else if eqb c b'-' || eqb c b'.' || eqb c b'0'
    then rest
    else false

unfoldable pub truthy : Json → Bool
unfolding is_zero_literal
truthy null = false
truthy (bool b) = b
truthy (number n) = not (is_zero_literal n)
truthy (str s) = not (s == [])
truthy (arr no_items) = false
truthy (obj no_fields) = false
truthy _ = true

-- `value or default`
abbrev pub or_default : Json → Json → Json
or_default value default = if truthy value then value else default

-- `except (TypeError, ValueError)`: a JSONDecodeError is a ValueError
unfoldable pub is_type_or_value_error : Exn → Bool
is_type_or_value_error type_error = true
is_type_or_value_error value_error = true
is_type_or_value_error decode_failed = true
is_type_or_value_error _ = false

unfoldable pub is_decode_error : Exn → Bool
is_decode_error decode_failed = true
is_decode_error _ = false

-- `try: m except caught as e: raise wrap(e)`
unfoldable pub rethrow : {A : Type 0} → (Exn → Bool) → (Exn → Exn) → Result A → Result A
rethrow test wrap (ok a) = ok a
rethrow test wrap (err e) = if test e then err (wrap e) else err e

-- The type object of `AnyCallResponse`, and `dict`.
abbrev pub response_type : PyType
response_type = record { ident = 0; name = codes "AnyCallResponse"; kind = response_class }

abbrev pub dict_type : PyType
dict_type = record { ident = 1; name = codes "dict"; kind = other_class }

-- Of `str(e)` and of `str(value)` for a value that is no text the source says nothing: they are the
-- interpreter's.
module _ (dacite : Dacite) (describe : Exn → Text) (format : Json → Text) where
  -- What `_call_impl` makes of a response that it read.
  unfoldable pub decode_response : Text → Text → PyType → Object → Result Object
  unfolding truthy is_set
  decode_response method_name call_id target (Object.response r) =
      if is_set r.lost_server
      then err (
          server_lost_error method_name
            (or_default r.error_msg
              (str (codes "server " ++ (format r.lost_server ++ codes " was lost"))))
            call_id r.lost_server)
      else if is_set r.error_msg
      then err (
          remote_exception method_name (or_default r.error_msg (str (codes "Unknown error")))
            (codes "RemoteExecutionError"))
      else if is_set r.payload
      then rethrow is_decode_error
          (λ e.
            json_decode_error method_name
              (codes "Failed to decode response payload: " ++ describe e))
          (deserialize dacite r.payload target)
      else err (serialization_error method_name (codes "Response payload is missing"))
  decode_response method_name call_id target _ = err type_error

  unfoldable pub read_response : Text → Text → PyType → Option Text → Result Object
  unfolding decode_response rethrow
  read_response method_name call_id target none = err (
      timeout_error method_name (codes "Timeout waiting for response from method: " ++ method_name)
        call_id)
  read_response method_name call_id target (some response_json) =
      rethrow is_decode_error
        (λ e. json_decode_error method_name (codes "Failed to decode response: " ++ describe e))
        (deserialize dacite (str response_json) response_type)
      >>= decode_response method_name call_id target
