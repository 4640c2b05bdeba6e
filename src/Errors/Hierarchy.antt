-- ===== src/Errors/Hierarchy.antt =====
-- Subclasses among the errors of exceptions.py.
use anycall.Prelude.{ℕ, zero, suc, Bool, ◌||◌, eqb}
use anycall.Errors.{
  Exn, Class, exception, foreign, any_call_error_class, publish_error_class, timeout_error_class,
  queue_full_error_class, no_server_available_error_class, server_lost_error_class,
  remote_execution_error_class, remote_exception_class, serialization_error_class,
  json_decode_error_class, class_of, base,
}

abbrev index : Class → ℕ
index exception = 0
index foreign = 1
index any_call_error_class = 2
index publish_error_class = 3
index timeout_error_class = 4
index queue_full_error_class = 5
index no_server_available_error_class = 6
index server_lost_error_class = 7
index remote_execution_error_class = 8
index remote_exception_class = 9
index serialization_error_class = 10
index json_decode_error_class = 11

-- `issubclass(c, d)`, looking up to `n` bases above `c`
abbrev is_subclass_within : ℕ → Class → Class → Bool
is_subclass_within zero c d = eqb (index c) (index d)
is_subclass_within (suc n) c d = eqb (index c) (index d) || is_subclass_within n (base c) d

-- No class stands more than three bases below `Exception`.
abbrev pub is_instance : Exn → Class → Bool
is_instance e d = is_subclass_within 3 (class_of e) d
