-- ===== src/Programs/Consumer.antt =====
-- implementations/python/example-consumer/src/example_consumer/: the examples and the main program.
-- What they print about an expected error is a value here.
pub mod Offline
pub mod Sample
pub mod Online
use anycall.Prelude.{
  ℕ, Bool, true, false, ◌||◌, ◌&&◌, Option, none, some, [], ◌∷◌, ◌++◌, eqb, if◌then◌else◌,
}
use anycall.Prelude.Int.{pos}
use anycall.Text.{Text, codes, ◌==◌}
use anycall.Json.{Json, str, obj, get}
use anycall.Errors.{
  Exn, raised, type_error, any_call_error_class, message_of, Result, ok, err, or_raise,
}
use anycall.Errors.Hierarchy.{is_instance}
use anycall.Serialization.{Dacite, PyType, Object, dataclass, instance_of, plain}
use anycall.Redis.{Redis}
use anycall.Exec.{Exec, pure, raise, lift, catch, monotonic, modify, ◌>>=◌, ◌>>◌}
use anycall.Client.{Client}
use anycall.Client.Call.{register_type, call, raw_call}
use anycall.Core.{make_client}
use anycall.Programs.{sentiment_type, text_request, text_of, analyze}

-- `OrderResponse`
abbrev pub order_type : PyType
order_type = record { ident = 6; name = codes "OrderResponse"; kind = dataclass }

abbrev pub unknown_operation : Text
unknown_operation = codes "unknown-operation"

-- An AssertionError, and a KeyError for a key.
abbrev pub assertion_error : Exn
assertion_error = raised []

abbrev pub key_error : Text → Exn
key_error key = raised (codes "'" ++ (key ++ codes "'"))

-- `part in text`
abbrev pub is_prefix : Text → Text → Bool
is_prefix [] s = true
is_prefix (c ∷ p) [] = false
is_prefix (c ∷ p) (d ∷ s) = if eqb c d then is_prefix p s else false

abbrev pub is_in : Text → Text → Bool
is_in p [] = is_prefix p []
is_in p (c ∷ s) = is_prefix p (c ∷ s) || is_in p s

-- `isinstance(value, Sentiment)` and `isinstance(value, dict)`
abbrev pub is_sentiment : Object → Bool
is_sentiment (instance_of t d) = eqb t.ident sentiment_type.ident
is_sentiment _ = false

abbrev pub is_dict : Object → Bool
is_dict (plain (obj d)) = true
is_dict _ = false

-- `value[key]`
abbrev pub subscript : Object → Text → Result Json
subscript (plain (obj d)) key = or_raise (get key d) (key_error key)
subscript _ key = err type_error

-- `value == text`
abbrev pub is_text : Json → Text → Bool
is_text (str s) text = s == text
is_text _ text = false

-- `str(e)`, which is that of the message if there is one
abbrev pub shown : (Json → Text) → Text → Option Json → Text
shown format other none = other
shown format other (some (str text)) = text
shown format other (some value) = format value

-- What an example prints in the end of its `try`: the error it expects, or that it is missing.
pub data Report : Type 0 where
  expected : Text → Report
  missed : Report

module _ {S : Type 0} where
  unfoldable pub assert : Bool → Exec S Client (Unit {0})
  assert true = pure tt
  assert false = raise assertion_error

  -- `AnyCall.client(uri)`: no timeout, no metrics and no limit of the depth
  unfoldable pub connect : Exec S Client (Unit {0})
  connect = do now ← monotonic; modify (λ _. (make_client (pos 0) false none now).client)

  -- `except AnyCallError as e`
  unfoldable pub handle_framework : {A : Type 0} → (Exn → Exec S Client A) → Exn → Exec S Client A
  handle_framework handler e = if is_instance e any_call_error_class then handler e else raise e

  unfoldable pub skipping : Exec S Client (Unit {0}) → Exec S Client (Unit {0})
  unfolding handle_framework
  skipping example = catch example (handle_framework (λ e. pure tt))

  unfoldable pub check_sentiment : Text → Object → Exec S Client (Unit {0})
  unfolding text_of assert
  check_sentiment text value = do
    assert (is_sentiment value)
    found ← lift (text_of value)
    assert (is_text found text)

  unfoldable pub check_raw : Text → Object → Exec S Client (Unit {0})
  unfolding assert
  check_raw text value = do
    assert (is_dict value)
    found ← lift (subscript value (codes "text"))
    assert (is_text found text)
    label ← lift (subscript value (codes "label"))
    assert (is_text label (codes "positive"))

module _ (R : Redis) (dacite : Dacite) (describe : Exn → Text) (format : Json → Text)
    (rounds : ℕ) where
  open R use {State}

  -- What the handler of an expected error prints and asserts.
  unfoldable pub report : (Text → Bool) → Exn → Exec State Client Report
  unfolding assert
  report check e = do
    let text = shown format (describe e) (message_of e)
    assert (check text)
    pure (expected text)

  unfoldable pub expecting :
      {A : Type 0} → (Text → Bool) → Exec State Client A → Exec State Client Report
  unfolding handle_framework report
  expecting check action = catch (action >>= λ _. pure missed) (handle_framework (report check))

  unfoldable pub example_call_with_explicit_type : Text → Exec State Client (Unit {0})
  unfolding connect check_sentiment
  example_call_with_explicit_type uuid = do
    connect
    let text = codes "This is great!"
    value ←
        call R dacite describe format rounds analyze (text_request (str text)) (some sentiment_type)
          none uuid
    check_sentiment text value

  unfoldable pub example_call_with_registry : Text → Exec State Client (Unit {0})
  unfolding connect check_sentiment
  example_call_with_registry uuid = do
    connect
    register_type R analyze sentiment_type
    let text = codes "Absolutely wonderful!"
    value ← call R dacite describe format rounds analyze (text_request (str text)) none none uuid
    check_sentiment text value

  unfoldable pub example_raw_call : Text → Exec State Client (Unit {0})
  unfolding connect check_raw
  example_raw_call uuid = do
    connect
    let text = codes "Looking good!"
    value ← raw_call R dacite describe format rounds analyze (text_request (str text)) none uuid
    check_raw text value

  unfoldable pub example_registry_absent_error : Text → Exec State Client Report
  unfolding connect expecting
  example_registry_absent_error uuid = do
    connect
    expecting
        (λ text.
          is_in unknown_operation text
          && (is_in (codes "register_type") text || is_in (codes "explicit type") text))
        (call R dacite describe format rounds unknown_operation
          (text_request (str (codes "Unknown operation"))) none none uuid)

  unfoldable pub example_duplicate_type_error : Exec State Client Report
  unfolding connect expecting
  example_duplicate_type_error = do
    connect
    register_type R analyze sentiment_type
    expecting (λ text. is_in analyze text && is_in (codes "already registered") text)
        (register_type R analyze order_type)

  unfoldable pub example_duplicate_type_idempotent : Exec State Client (Unit {0})
  unfolding connect
  example_duplicate_type_idempotent = do
    connect
    register_type R analyze sentiment_type
    register_type R analyze sentiment_type

  -- The script, with the uuids that its calls draw: what its expected errors printed.
  unfoldable pub run_examples : Text → Text → Text → Text → Exec State Client (Report × Report)
  unfolding skipping
  run_examples first second third fourth = do
    skipping (example_call_with_explicit_type first)
    skipping (example_call_with_registry second)
    skipping (example_raw_call third)
    absent ← example_registry_absent_error fourth
    duplicate ← example_duplicate_type_error
    example_duplicate_type_idempotent
    pure (absent, duplicate)

  -- `main` of main.py: what it logs as the response
  unfoldable pub consumer_main : Text → Exec State Client Object
  consumer_main uuid = do
    now ← monotonic
    modify (λ _. (make_client (pos 0) true none now).client)
    call R dacite describe format rounds analyze (text_request (str (codes "Hello, AnyCall!")))
        (some sentiment_type) none uuid
