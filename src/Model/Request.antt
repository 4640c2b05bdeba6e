-- ===== src/Model/Request.antt =====
-- `AnyCallRequest` of model.py.
use anycall.Prelude.{Bool, ◌||◌, if◌then◌else◌}
use anycall.Text.{Text, codes, ◌==◌}
use anycall.Json.{Json, Fields, str, obj, no_fields, field}
use anycall.Errors.{type_error, Result, ok, err, ◌>>=◌}
use anycall.Model.Dataclass.{all_known, require, normalize, items_of}

pub record AnyCallRequest : Type 0 where
  pub request_id : Json
  pub method_name : Json
  pub payload : Json

-- The uuid is drawn by the caller.
unfoldable pub create : Text → Text → Text → AnyCallRequest
create uuid method_name payload = record {
  request_id = str uuid;
  method_name = str method_name;
  payload = str payload;
}

unfoldable pub normal_key : Text → Text
normal_key key =
    if key == codes "requestId"
    then codes "request_id"
    else if key == codes "methodName"
    then codes "method_name"
    else key

unfoldable pub is_parameter : Text → Bool
is_parameter k = k == codes "request_id" || k == codes "method_name" || k == codes "payload"

-- `AnyCallRequest(**normalized)`
unfoldable pub construct : Fields → Result AnyCallRequest
unfolding is_parameter all_known require
construct d =
    if all_known is_parameter d
    then (do
      request_id ← require (codes "request_id") d
      method_name ← require (codes "method_name") d
      payload ← require (codes "payload") d
      ok (record { request_id = request_id; method_name = method_name; payload = payload }))
    else err type_error

unfoldable pub from_dict : Json → Result AnyCallRequest
unfolding construct normalize items_of
from_dict value = do items ← items_of value; construct (normalize normal_key no_fields items)

unfoldable pub to_dict : AnyCallRequest → Json
to_dict r = obj (
    field (codes "requestId") r.request_id
      (field (codes "methodName") r.method_name (field (codes "payload") r.payload no_fields)))
