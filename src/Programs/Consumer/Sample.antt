-- ===== src/Programs/Consumer/Sample.antt =====
-- A call of the sample supplier: what its method makes of a text, and what its caller reads.
use anycall.Prelude.{◌≡◌, refl, arith, some}
use anycall.Text.{Text, codes, ◌==◌}
use anycall.Json.{Json, obj, str, get}
use anycall.Json.Print.{dumps}
use anycall.Json.RoundTrip.{Writable, loads-dumps, dumps-IsText}
use anycall.Errors.{Exn, ok}
use anycall.Model.Request
use anycall.Model.Response
use anycall.Serialization.{Dacite, serialize, deserialize}
use anycall.Serialization.Wire.{response_text}
use anycall.Server.Invoke.{run_method}
use anycall.Server.Served.{handler_of}
use anycall.Client.Decode.{read_response, decode_response, rethrow}
use anycall.Client.Answers.{read_written}
use anycall.Protocol.Called.{Served, request_of, answer_of}
use anycall.Programs.{
  sentiment_type, text_request_type, text_request, text_request_fields, sentiment, sentiment_fields,
  text_of, analyze,
}
use anycall.Programs.Supplier.{analyze_sentiment, analyze_member}

-- What `dacite.from_dict` makes of the two dataclasses: their fields are texts.
pub record Builds (dacite : Dacite) : Type 0 where
  pub builds_request :
      (text : Text)
      → dacite text_request_type (obj (text_request_fields (str text)))
        ≡ ok (text_request (str text))
  pub builds_sentiment :
      (text label : Text)
      → dacite sentiment_type (obj (sentiment_fields (str text) (str label)))
        ≡ ok (sentiment (str text) (str label))

abbrev pub positive : Text → Json
positive text = obj (sentiment_fields (str text) (str (codes "positive")))

-- The sample supplier, and a call of it.
abbrev pub sample : Text → Text → Text → Served
sample server_id uuid text = record {
  server_id = server_id;
  name = analyze;
  member = analyze_member;
  parameter_type = text_request_type;
  uuid = uuid;
  argument = obj (text_request_fields (str text));
  result = positive text;
}

pub argument-Writable :
    (text : Text) → Writable (str text) → Writable (obj (text_request_fields (str text)))
unfolding get
argument-Writable text h = ((refl, tt), (omega arith, h, tt))

pub positive-Writable : (text : Text) → Writable (str text) → Writable (positive text)
unfolding get ◌==◌
positive-Writable text h = ((refl, (refl, tt)), (omega arith, h, (omega arith, omega arith, tt)))

module _ (dacite : Dacite) (builds : Builds dacite) (describe : Exn → Text)
    (format : Json → Text) where
  pub sample_runs :
      (server_id uuid text : Text)
      → Writable (str text)
      → let c = sample server_id uuid text in
        run_method dacite (handler_of c.member c.parameter_type) (request_of c) ≡ ok (answer_of c)
  unfolding run_method deserialize serialize analyze_sentiment text_of get ◌==◌ Request.create
  sample_runs server_id uuid text h = rw (
    loads-dumps (obj (text_request_fields (str text))) (argument-Writable text h),
    builds.builds_request text,
  )

  pub sample_read :
      (uuid text : Text)
      → Writable (str uuid)
      → Writable (str text)
      → read_response dacite describe format analyze uuid sentiment_type
          (some (response_text (Response.success (str uuid) (dumps (positive text)))))
        ≡ ok (sentiment (str text) (str (codes "positive")))
  unfolding Response.success decode_response deserialize rethrow
  sample_read uuid text named h = rw (
    read_written dacite describe format analyze uuid sentiment_type
        (Response.success (str uuid) (dumps (positive text)))
        (record {
          request_id = named;
          payload = dumps-IsText (positive text) (positive-Writable text h);
          error_msg = tt;
          lost_server = tt;
        }),
    loads-dumps (positive text) (positive-Writable text h),
    builds.builds_sentiment text (codes "positive"),
  )
