-- ===== src/Serialization.antt =====
-- implementations/python/lib/src/anycall/serialization.py.
pub mod Wire
use anycall.Prelude.{ℕ, Option, none, some}
use anycall.Text.{Text}
use anycall.Json.{Json, Fields, str, obj}
use anycall.Json.Print.{dumps}
use anycall.Json.Parse.{loads}
use anycall.Errors.{Exn, type_error, decode_failed, Result, ok, err, or_raise, ◌>>=◌}
use anycall.Model.Request
use anycall.Model.Request.{AnyCallRequest}
use anycall.Model.Response
use anycall.Model.Response.{AnyCallResponse}

pub data Kind : Type 0 where
  request_class response_class dataclass other_class : Kind

-- A type object: its identity, its `__name__`, and what the code asks about it.
pub record PyType : Type 0 where
  pub ident : ℕ
  pub name : Text
  pub kind : Kind

-- What is handed to `serialize` or comes from `deserialize`: an instance of a dataclass shows what
-- `asdict` gives, and `opaque` is what `json.dumps` refuses with a TypeError.
pub data Object : Type 0 where
  request : AnyCallRequest → Object
  response : AnyCallResponse → Object
  instance_of : PyType → Fields → Object
  plain : Json → Object
  opaque : Object

unfoldable pub serialize : Object → Result Text
serialize (request r) = ok (dumps (Request.to_dict r))
serialize (response r) = ok (dumps (Response.to_dict r))
serialize (instance_of t d) = ok (dumps (obj d))
serialize (plain v) = ok (dumps v)
serialize opaque = err type_error

-- `json.loads` of a value: only a text can be read.
unfoldable pub loads_value : Json → Result Json
loads_value (str s) = or_raise (loads s) decode_failed
loads_value _ = err type_error

-- `dacite.from_dict(target_type, data)`, of another package
abbrev pub Dacite : Type 0
Dacite = PyType → Json → Result Object

unfoldable pub build : Dacite → Kind → PyType → Json → Result Object
build dacite request_class t value = do r ← Request.from_dict value; ok (request r)
build dacite response_class t value = do r ← Response.from_dict value; ok (response r)
build dacite dataclass t value = dacite t value
build dacite other_class t value = ok (plain value)

unfoldable pub deserialize : Dacite → Json → PyType → Result Object
unfolding loads_value build
deserialize dacite json_str t = do value ← loads_value json_str; build dacite t.kind t value
