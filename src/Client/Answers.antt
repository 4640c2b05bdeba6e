-- ===== src/Client/Answers.antt =====
-- What `_call_impl` of client.py makes of each kind of response that a server or a reaper writes.
use anycall.Prelude.{◌≡◌, refl, arith, false, some, [], ◌++◌}
use anycall.Text.{Text, codes, ◌==◌}
use anycall.Json.{Json, str}
use anycall.Json.Print.{dumps}
use anycall.Json.RoundTrip.{Writable, loads-dumps, dumps-IsText, append-IsText}
use anycall.Errors.{Exn, remote_exception, server_lost_error, ok, err}
use anycall.Model.Response
use anycall.Model.Response.{AnyCallResponse}
use anycall.Serialization.{Dacite, PyType, plain, response, serialize, deserialize}
use anycall.Serialization.Wire.{response_text, ResponseIsWritable, response_wire}
use anycall.Client.Decode.{decode_response, read_response, response_type, dict_type, rethrow}

module _ (dacite : Dacite) (describe : Exn → Text) (format : Json → Text) where
  -- A response that a server writes is decoded as the response that it wrote.
  pub read_written :
      (method_name uuid : Text) (t : PyType) (r : AnyCallResponse)
      → ResponseIsWritable r
      → read_response dacite describe format method_name uuid t (some (response_text r))
        ≡ decode_response dacite describe format method_name uuid t (response r)
  unfolding read_response rethrow serialize
  read_written method_name uuid t r writable =
      let read : deserialize dacite (str (response_text r)) response_type ≡ ok (response r) =
        response_wire dacite response_type r refl writable in
      rw read

  -- A JSON value and an id that JSON carries, written as a success response, come back from the
  -- reading half of a raw call as the same value.
  pub read_success :
      (method_name uuid : Text) (id v : Json)
      → Writable id
      → Writable v
      → read_response dacite describe format method_name uuid dict_type
          (some (response_text (Response.success id (dumps v))))
        ≡ ok (plain v)
  unfolding Response.success decode_response deserialize rethrow
  read_success method_name uuid id v id_writable v_writable = rw (
    read_written method_name uuid dict_type (Response.success id (dumps v)) (record {
      request_id = id_writable;
      payload = dumps-IsText v v_writable;
      error_msg = tt;
      lost_server = tt;
    }),
    loads-dumps v v_writable,
  )

  -- A non-empty error text written as an error response is raised by the caller as a
  -- RemoteException with that text.
  pub read_error :
      (method_name uuid text : Text) (id : Json) (t : PyType)
      → Writable id
      → Writable (str text)
      → (text == []) ≡ false
      → read_response dacite describe format method_name uuid t
          (some (response_text (Response.error id text)))
        ≡ err (remote_exception method_name (str text) (codes "RemoteExecutionError"))
  unfolding Response.error decode_response
  read_error method_name uuid text id t id_writable text_writable some_text = rw (
    read_written method_name uuid t (Response.error id text) (record {
      request_id = id_writable;
      payload = tt;
      error_msg = text_writable;
      lost_server = tt;
    }),
    some_text,
  )

  -- The response that a reaper writes, for texts that JSON carries, is raised by the waiting call
  -- as a ServerLostError that names the lost server.
  pub read_lost :
      (method_name uuid id owner : Text) (t : PyType)
      → Writable (str id)
      → Writable (str owner)
      → read_response dacite describe format method_name uuid t
          (some (response_text (Response.server_lost id owner)))
        ≡ err (
            server_lost_error method_name
              (str (
                codes "server "
                ++ (owner ++ codes " stopped heartbeating while processing this request")))
              uuid
              (str owner))
  unfolding Response.server_lost decode_response ◌==◌
  read_lost method_name uuid id owner t id_writable owner_writable = rw (
      read_written method_name uuid t (Response.server_lost id owner) (record {
        request_id = id_writable;
        payload = tt;
        error_msg =
            append-IsText (codes "server ") _ (omega arith)
              (append-IsText owner _ owner_writable (omega arith));
        lost_server = owner_writable;
      }))
