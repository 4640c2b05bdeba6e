-- ===== src/Server/Invoke.antt =====
-- What `_process_request` of server.py computes between reading a request and answering it.
use anycall.Text.{Text, codes}
use anycall.Json.{str}
use anycall.Errors.{type_error, Result, ok, err, ◌>>=◌}
use anycall.Model.Request.{AnyCallRequest}
use anycall.Model.Response
use anycall.Model.Response.{AnyCallResponse}
use anycall.Serialization.{Dacite, PyType, Object, request, request_class, serialize, deserialize}
use anycall.Server.{MethodHandler}

abbrev pub request_type : PyType
request_type = record { ident = 2; name = codes "AnyCallRequest"; kind = request_class }

unfoldable pub as_request : Object → Result AnyCallRequest
as_request (request r) = ok r
as_request _ = err type_error

module _ (dacite : Dacite) where
  unfoldable pub read_request : Text → Result AnyCallRequest
  unfolding as_request
  read_request request_json = do
    value ← deserialize dacite (str request_json) request_type
    as_request value

  -- From the payload to the response.
  unfoldable pub run_method : MethodHandler → AnyCallRequest → Result AnyCallResponse
  run_method handler r = do
    param ← deserialize dacite r.payload handler.parameter_type
    result ←
        handler.method (record { request_id = r.request_id; method_name = r.method_name }) param
    result_json ← serialize result
    ok (Response.success r.request_id result_json)
