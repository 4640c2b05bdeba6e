-- ===== src/Programs.antt =====
-- implementations/python/example-supplier/ and example-consumer/: the sample programs.
pub mod Supplier
pub mod Consumer
use anycall.Prelude.{ℕ}
use anycall.Text.{Text, codes}
use anycall.Json.{Json, Fields, field, no_fields, get}
use anycall.Errors.{attribute_error, Result, err, or_raise}
use anycall.Serialization.{PyType, dataclass, Object, instance_of}

-- `Sentiment` and `TextRequest` of model/: both programs have their own, of the same shape.
abbrev pub sentiment_type : PyType
sentiment_type = record { ident = 4; name = codes "Sentiment"; kind = dataclass }

abbrev pub text_request_type : PyType
text_request_type = record { ident = 5; name = codes "TextRequest"; kind = dataclass }

abbrev pub text_request_fields : Json → Fields
text_request_fields text = field (codes "text") text no_fields

abbrev pub sentiment_fields : Json → Json → Fields
sentiment_fields text label = field (codes "text") text (field (codes "label") label no_fields)

abbrev pub text_request : Json → Object
text_request text = instance_of text_request_type (text_request_fields text)

abbrev pub sentiment : Json → Json → Object
sentiment text label = instance_of sentiment_type (sentiment_fields text label)

-- `value.text`
unfoldable pub text_of : Object → Result Json
text_of (instance_of t d) = or_raise (get (codes "text") d) attribute_error
text_of _ = err attribute_error

abbrev pub analyze : Text
analyze = codes "analyze-sentiment"
