-- ===== src/Model/Response.antt =====
-- `AnyCallResponse` of model.py.
use anycall.Prelude.{Bool, ◌||◌, ◌++◌, if◌then◌else◌}
use anycall.Text.{Text, codes, ◌==◌}
use anycall.Json.{Json, Fields, null, str, obj, no_fields, field}
use anycall.Errors.{type_error, Result, ok, err, ◌>>=◌}
use anycall.Model.Dataclass.{is_set, all_known, require, optional, normalize, items_of}

pub record AnyCallResponse : Type 0 where
  pub request_id : Json
  pub payload : Json
  pub error_msg : Json
  pub lost_server : Json

unfoldable pub success : Json → Text → AnyCallResponse
success request_id payload = record {
  request_id = request_id;
  payload = str payload;
  error_msg = null;
  lost_server = null;
}

unfoldable pub error : Json → Text → AnyCallResponse
error request_id error_message = record {
  request_id = request_id;
  payload = null;
  error_msg = str error_message;
  lost_server = null;
}

unfoldable pub server_lost : Text → Text → AnyCallResponse
server_lost request_id server_id = record {
  request_id = str request_id;
  payload = null;
  error_msg = str (
      codes "server "
      ++ (server_id ++ codes " stopped heartbeating while processing this request"));
  lost_server = str server_id;
}

unfoldable pub has_error : AnyCallResponse → Bool
unfolding is_set
has_error r = is_set r.error_msg

unfoldable pub normal_key : Text → Text
normal_key key =
    if key == codes "requestId"
    then codes "request_id"
    else if key == codes "error"
    then codes "error_msg"
    else if key == codes "errorMsg"
    then codes "error_msg"
    else if key == codes "lostServer"
    then codes "lost_server"
    else key

unfoldable pub is_parameter : Text → Bool
is_parameter k =
    k == codes "request_id"
    || k == codes "payload"
    || k == codes "error_msg"
    || k == codes "lost_server"

-- `AnyCallResponse(**normalized)`
unfoldable pub construct : Fields → Result AnyCallResponse
unfolding is_parameter all_known require
construct d =
    if all_known is_parameter d
    then (do
      request_id ← require (codes "request_id") d
      ok (record {
        request_id = request_id;
        payload = optional (codes "payload") d;
        error_msg = optional (codes "error_msg") d;
        lost_server = optional (codes "lost_server") d;
      }))
    else err type_error

unfoldable pub from_dict : Json → Result AnyCallResponse
unfolding construct normalize items_of
from_dict value = do items ← items_of value; construct (normalize normal_key no_fields items)

unfoldable pub to_dict : AnyCallResponse → Json
unfolding is_set
to_dict r = obj (
    field (codes "requestId") r.request_id (
      field (codes "payload") r.payload (
        field (codes "error") r.error_msg (
          if is_set r.lost_server
          then field (codes "lostServer") r.lost_server no_fields
          else no_fields))))
