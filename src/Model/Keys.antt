-- ===== src/Model/Keys.antt =====
-- What `from_dict` does with the keys of a dict: an independent account, without the loop.
use anycall.Prelude.{
  ◌≡◌, refl, ap, ◌∙◌, Bool, true, false, ◌&&◌, Option, none, some, arith, if◌then◌else◌,
}
use anycall.Text.{Text, codes, ◌==◌}
use anycall.Text.Equality.{eq_iff}
use anycall.Json.{Json, Fields, obj, no_fields, field, get, put}
use anycall.Json.Dicts.{get-put}
use anycall.Errors.{ok, err, type_error, or_raise, ◌>>=◌}
use anycall.Model.Dataclass.{all_known, optional, normalize}
use anycall.Model.Request
use anycall.Model.Request.{AnyCallRequest}
use anycall.Model.Response
use anycall.Model.Response.{AnyCallResponse}

abbrev or_else : Option Json → Option Json → Option Json
or_else none o = o
or_else (some v) o = some v

-- The value of the last item whose key stands for the parameter `j`.
abbrev pub last_named : (Text → Text) → Text → Fields → Option Json
last_named rename j no_fields = none
last_named rename j (field k v d) =
    or_else (last_named rename j d) (if rename k == j then some v else none)

-- Every key stands for a parameter.
abbrev pub all_named : (Text → Bool) → (Text → Text) → Fields → Bool
all_named known rename no_fields = true
all_named known rename (field k v d) = known (rename k) && all_named known rename d

abbrev pub or_null : Option Json → Json
or_null none = Json.null
or_null (some v) = v

module _ (rename : Text → Text) where
  get-normalize :
      (j : Text) (acc d : Fields)
      → get j (normalize rename acc d) ≡ or_else (last_named rename j d) (get j acc)
  unfolding normalize
  get-normalize j acc no_fields = refl
  get-normalize j acc (field k v d) =
      get-normalize j (put (rename k) v acc) d
      ∙ ap (or_else (last_named rename j d)) (get-put (rename k) j v acc)
      ∙ regroup (last_named rename j d) (rename k == j)
    where
      regroup :
          (o : Option Json) (b : Bool)
          → or_else o (if b then some v else get j acc)
            ≡ or_else (or_else o (if b then some v else none)) (get j acc)
      regroup none true = refl
      regroup none false = refl
      regroup (some w) b = refl

  get-normalize_empty :
      (j : Text) (d : Fields) → get j (normalize rename no_fields d) ≡ last_named rename j d
  unfolding get
  get-normalize_empty j d = ground (arith, get-normalize j no_fields d)

  optional-normalize :
      (j : Text) (d : Fields)
      → optional j (normalize rename no_fields d) ≡ or_null (last_named rename j d)
  unfolding optional
  optional-normalize j d = ground (arith, get-normalize_empty j d)

module _ (known : Text → Bool) where
  all_known-put :
      (k : Text) (v : Json) (d : Fields)
      → all_known known (put k v d) ≡ (known k && all_known known d)
  unfolding all_known put
  all_known-put k v no_fields = refl
  all_known-put k v (field j w d) = ground (arith, eq_iff j k, all_known-put k v d)

  all_known-normalize :
      (rename : Text → Text) (acc d : Fields)
      → all_known known (normalize rename acc d) ≡ (all_known known acc && all_named known rename d)
  unfolding normalize
  all_known-normalize rename acc no_fields = ground arith
  all_known-normalize rename acc (field k v d) =
      all_known-normalize rename (put (rename k) v acc) d
      ∙ ap (λ b. b && all_named known rename d) (all_known-put (rename k) v acc)
      ∙ ground arith

  all_known-normalize_empty :
      (rename : Text → Text) (d : Fields)
      → all_known known (normalize rename no_fields d) ≡ all_named known rename d
  unfolding all_known
  all_known-normalize_empty rename d = all_known-normalize rename no_fields d

-- Reading a request from a dict succeeds exactly if every key names a parameter in either spelling
-- and all three are there; the last item for a parameter decides; everything else is a TypeError.
pub request-from_dict :
    (d : Fields)
    → Request.from_dict (obj d) ≡ (
        if all_named Request.is_parameter Request.normal_key d
        then (do
          request_id ← or_raise (last_named Request.normal_key (codes "request_id") d) type_error
          method_name ← or_raise (last_named Request.normal_key (codes "method_name") d) type_error
          payload ← or_raise (last_named Request.normal_key (codes "payload") d) type_error
          ok (record { request_id = request_id; method_name = method_name; payload = payload }))
        else err type_error)
unfolding Request.from_dict
request-from_dict d = rw (
  all_known-normalize_empty Request.is_parameter Request.normal_key d,
  get-normalize_empty Request.normal_key (codes "request_id") d,
  get-normalize_empty Request.normal_key (codes "method_name") d,
  get-normalize_empty Request.normal_key (codes "payload") d,
)

-- Reading a response from a dict succeeds exactly if every key names a parameter in any spelling
-- and the request id is there; what is left out is None; everything else is a TypeError.
pub response-from_dict :
    (d : Fields)
    → Response.from_dict (obj d) ≡ (
        if all_named Response.is_parameter Response.normal_key d
        then (do
          request_id ← or_raise (last_named Response.normal_key (codes "request_id") d) type_error
          ok (record {
            request_id = request_id;
            payload = or_null (last_named Response.normal_key (codes "payload") d);
            error_msg = or_null (last_named Response.normal_key (codes "error_msg") d);
            lost_server = or_null (last_named Response.normal_key (codes "lost_server") d);
          }))
        else err type_error)
unfolding Response.from_dict
response-from_dict d = rw (
  all_known-normalize_empty Response.is_parameter Response.normal_key d,
  get-normalize_empty Response.normal_key (codes "request_id") d,
  optional-normalize Response.normal_key (codes "payload") d,
  optional-normalize Response.normal_key (codes "error_msg") d,
  optional-normalize Response.normal_key (codes "lost_server") d,
)
