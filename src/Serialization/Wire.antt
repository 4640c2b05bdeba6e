-- ===== src/Serialization/Wire.antt =====
-- `serialize` and then `deserialize` of serialization.py.
use anycall.Prelude.{◌≡◌, refl, arith, Bool-cases, inl, inr}
use anycall.Text.{Text, ◌==◌}
use anycall.Json.{Json, str, get}
use anycall.Json.Print.{dumps}
use anycall.Json.RoundTrip.{Writable, loads-dumps}
use anycall.Errors.{ok, ◌>>=◌}
use anycall.Model.Dataclass.{is_set}
use anycall.Model.Request
use anycall.Model.Request.{AnyCallRequest}
use anycall.Model.Response
use anycall.Model.Response.{AnyCallResponse}
use anycall.Model.RoundTrip.{request_round_trip, response_round_trip}
use anycall.Serialization.{
  Dacite, PyType, request_class, response_class, other_class, request, response, plain, serialize,
  deserialize,
}

abbrev pub request_text : AnyCallRequest → Text
request_text r = dumps (Request.to_dict r)

abbrev pub response_text : AnyCallResponse → Text
response_text r = dumps (Response.to_dict r)

-- The fields hold values that JSON can carry.
abbrev pub RequestIsWritable : AnyCallRequest → Type 0
RequestIsWritable r = Writable r.request_id × Writable r.method_name × Writable r.payload

pub record ResponseIsWritable (r : AnyCallResponse) : Type 0 where
  pub request_id : Writable r.request_id
  pub payload : Writable r.payload
  pub error_msg : Writable r.error_msg
  pub lost_server : Writable r.lost_server

pub to_dict-Writable_request :
    (r : AnyCallRequest) → RequestIsWritable r → Writable (Request.to_dict r)
unfolding Request.to_dict get ◌==◌
to_dict-Writable_request r w =
    ((refl, (refl, (refl, tt))), (omega arith, w.0, (omega arith, w.1, (omega arith, w.2, tt))))

pub to_dict-Writable_response :
    (r : AnyCallResponse) → ResponseIsWritable r → Writable (Response.to_dict r)
unfolding Response.to_dict get ◌==◌
to_dict-Writable_response r w = elim (Bool-cases (is_set r.lost_server)) [
  | inl lost ↦ rw lost (
    (refl, (refl, (refl, (refl, tt)))),
    (
      omega arith,
      w.request_id,
      (omega arith, w.payload, (omega arith, w.error_msg, (omega arith, w.lost_server, tt))),
    ),
  )
  | inr answered ↦ rw answered (
    (refl, (refl, (refl, tt))),
    (omega arith, w.request_id, (omega arith, w.payload, (omega arith, w.error_msg, tt))),
  )
]

-- A request whose fields JSON carries is serialized and deserialized as AnyCallRequest to the same
-- request.
pub request_wire :
    (dacite : Dacite) (t : PyType) (r : AnyCallRequest)
    → t.kind ≡ request_class
    → RequestIsWritable r
    → (serialize (request r) >>= λ text. deserialize dacite (str text) t) ≡ ok (request r)
unfolding serialize deserialize
request_wire dacite t r kind w =
    rw (loads-dumps (Request.to_dict r) (to_dict-Writable_request r w), kind, request_round_trip r)

-- A response whose fields JSON carries is serialized and deserialized as AnyCallResponse to the
-- same response, with or without a lost server.
pub response_wire :
    (dacite : Dacite) (t : PyType) (r : AnyCallResponse)
    → t.kind ≡ response_class
    → ResponseIsWritable r
    → (serialize (response r) >>= λ text. deserialize dacite (str text) t) ≡ ok (response r)
unfolding serialize deserialize
response_wire dacite t r kind w =
    rw (
      loads-dumps (Response.to_dict r) (to_dict-Writable_response r w),
      kind,
      response_round_trip r,
    )

-- A JSON value without repeated keys or surrogates is serialized and deserialized, at a type that
-- is no dataclass, to the same value.
pub plain_wire :
    (dacite : Dacite) (t : PyType) (v : Json)
    → t.kind ≡ other_class
    → Writable v
    → (serialize (plain v) >>= λ text. deserialize dacite (str text) t) ≡ ok (plain v)
unfolding serialize deserialize
plain_wire dacite t v kind w = rw (loads-dumps v w, kind)
