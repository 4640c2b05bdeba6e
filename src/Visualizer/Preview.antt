-- ===== src/Visualizer/Preview.antt =====
-- What poller.py shows of a queued request, and by which key it knows it again.
use anycall.Prelude.{
  ℕ, zero, suc, ◌-◌, Option, none, some, [], ◌∷◌, ◌++◌, length, drop, ltb, if◌then◌else◌,
}
use anycall.Text.{Text, codes}
use anycall.Json.{Json, Items, Fields, str, arr, obj, no_items, item, no_fields, field}
use anycall.Json.Print.{dumps}
use anycall.Json.Parse.{loads}
use anycall.Errors.{type_error, decode_failed, Result, ok, err, or_raise, ◌>>=◌}
use anycall.Model.Request.{AnyCallRequest, from_dict}
use anycall.Server.Requests.{hashable, show_id}
use anycall.Queues.{request_queue_prefix}
use anycall.Visualizer.{preview_max_len}

-- `text[:n]`
abbrev pub take : ℕ → Text → Text
take zero t = []
take (suc n) [] = []
take (suc n) (c ∷ t) = c ∷ take n t

abbrev pub size : Items → ℕ
size no_items = 0
size (item v vs) = suc (size vs)

abbrev pub fields_size : Fields → ℕ
fields_size no_fields = 0
fields_size (field k v d) = suc (fields_size d)

-- AnyCallRequest.from_dict(json.loads(raw))
unfoldable pub read_entry : Text → Result AnyCallRequest
read_entry raw = or_raise (loads raw) decode_failed >>= from_dict

-- The payload as it is shown. A number, a truth value and None have no length; a long list does not
-- join with a text and a long dict cannot be sliced.
unfoldable pub shortened : (Json → Text) → Json → Result Text
shortened format (str t) =
    if ltb preview_max_len (length t)
    then ok (take (preview_max_len - 3) t ++ codes "...")
    else ok t
shortened format (arr vs) =
    if ltb preview_max_len (size vs) then err type_error else ok (format (arr vs))
shortened format (obj d) =
    if ltb preview_max_len (fields_size d) then err type_error else ok (format (obj d))
shortened format v = err type_error

module _ (format : Json → Text) where
  unfoldable pub preview_read : Text → Result AnyCallRequest → Result Text
  preview_read raw (err e) = ok (take preview_max_len raw)
  preview_read raw (ok r) = do
    payload ← shortened format r.payload
    ok (codes "request_id=" ++ show_id format r.request_id ++ codes " payload=" ++ payload)

  unfoldable pub preview_request : Option Text → Result Text
  unfolding preview_read read_entry
  preview_request none = ok (codes "<malformed entry: missing data field>")
  preview_request (some []) = ok (codes "<malformed entry: missing data field>")
  preview_request (some (c ∷ raw)) = preview_read (c ∷ raw) (read_entry (c ∷ raw))

-- The key of an entry whose text may be a request; `hash` is Python's. It goes into a dict, which
-- takes no list and no dict for a key.
module _ (hash : Text → Text) where
  unfoldable pub key_read : Text → Result AnyCallRequest → Json
  key_read raw (ok r) = r.request_id
  key_read raw (err e) = str (codes "content:" ++ hash raw)

  unfoldable pub entry_key : Text → Json
  unfolding key_read read_entry
  entry_key raw = key_read raw (read_entry raw)

unfoldable pub dict_key : Json → Result Text
dict_key v = if hashable v then ok (dumps v) else err type_error

unfoldable pub method_name : Text → Text
method_name queue_key = drop (length request_queue_prefix) queue_key
