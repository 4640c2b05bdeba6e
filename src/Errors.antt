-- ===== src/Errors.antt =====
-- implementations/python/lib/src/anycall/exceptions.py, and results that may raise.
pub mod Hierarchy
use anycall.Prelude.{
  ℕ, zero, suc, ◌+◌, ◌/◌, ◌%◌, Bool, true, false, Option, none, some, [], ◌∷◌, ◌++◌, ltb,
  if◌then◌else◌,
}
use anycall.Prelude.Int.{ℤ, pos, negsuc}
use anycall.Text.{Text, codes}
use anycall.Json.{Json, str}

-- `str(n)` of an integer
show_from : ℕ → ℕ → Text
show_from zero n = []
show_from (suc f) n =
    let more = show_from f (n / 10) in
    if ltb n 10 then (n + 48) ∷ [] else more ++ (n % 10 + 48) ∷ []

unfoldable pub show : ℕ → Text
unfolding show_from
show n = show_from (suc n) n

unfoldable pub show_ℤ : ℤ → Text
unfolding show
show_ℤ (pos n) = show n
show_ℤ (negsuc n) = b'-' ∷ show (suc n)

-- An exception value. The interpreter's own and those of `json` and `redis` carry no text here;
-- `raised` is what a handler or another package raises, with its text. `unfinished` is no exception:
-- it marks a call that still waits when the rounds that it was given are used up, a read loop that
-- is blocked by a limiter, and a wait so short that Redis takes it for one without end.
pub data Exn : Type 0 where
  type_error value_error attribute_error decode_failed redis_error redis_timeout unfinished : Exn
  raised : Text → Exn
  any_call_error : Text → Text → Exn
  timeout_error : Text → Text → Text → Exn
  queue_full_error : Text → ℕ → ℤ → Exn
  no_server_available_error : Text → Exn
  server_lost_error : Text → Json → Text → Json → Exn
  remote_exception : Text → Json → Text → Exn
  serialization_error : Text → Text → Exn
  json_decode_error : Text → Text → Exn

-- The classes, by their names.
pub data Class : Type 0 where
  exception foreign any_call_error_class publish_error_class timeout_error_class
        queue_full_error_class :
      Class
  no_server_available_error_class server_lost_error_class remote_execution_error_class
        remote_exception_class :
      Class
  serialization_error_class json_decode_error_class : Class

unfoldable pub class_of : Exn → Class
class_of (any_call_error service message) = any_call_error_class
class_of (timeout_error service message call_id) = timeout_error_class
class_of (queue_full_error method depth max_depth) = queue_full_error_class
class_of (no_server_available_error method) = no_server_available_error_class
class_of (server_lost_error service message call_id server_id) = server_lost_error_class
class_of (remote_exception service message type_name) = remote_exception_class
class_of (serialization_error service message) = serialization_error_class
class_of (json_decode_error service message) = json_decode_error_class
class_of _ = foreign

-- The class that a class statement names as its base.
unfoldable pub base : Class → Class
base any_call_error_class = exception
base publish_error_class = any_call_error_class
base timeout_error_class = publish_error_class
base queue_full_error_class = publish_error_class
base no_server_available_error_class = publish_error_class
base server_lost_error_class = publish_error_class
base remote_execution_error_class = any_call_error_class
base remote_exception_class = remote_execution_error_class
base serialization_error_class = any_call_error_class
base json_decode_error_class = serialization_error_class
base _ = exception

-- `self.message`
unfoldable pub message_of : Exn → Option Json
unfolding show show_ℤ
message_of (any_call_error s message) = some (str message)
message_of (timeout_error s message call_id) = some (str message)
message_of (queue_full_error method depth max_depth) = some (
    str (
      codes "Queue for method '"
      ++ (method
          ++ (codes "' is full: depth="
              ++ (show depth ++ (codes " >= max_queue_depth=" ++ show_ℤ max_depth))))))
message_of (no_server_available_error method) =
    some (str (codes "No server is currently alive to handle method: " ++ method))
message_of (server_lost_error s message call_id server_id) = some message
message_of (remote_exception s message type_name) = some message
message_of (serialization_error s message) = some (str message)
message_of (json_decode_error s message) = some (str message)
message_of _ = none

pub data Result {ℓ} (A : Type ℓ) : Type ℓ where
  ok : A → Result A
  err : Exn → Result A

infixl 5 ◌>>=◌
abbrev pub ◌>>=◌ {ℓ κ} : {A : Type ℓ} {B : Type κ} → Result A → (A → Result B) → Result B
ok a >>= f = f a
err e >>= f = err e

abbrev pub or_raise {ℓ} : {A : Type ℓ} → Option A → Exn → Result A
or_raise none e = err e
or_raise (some a) e = ok a
