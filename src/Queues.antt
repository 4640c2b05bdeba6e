-- ===== src/Queues.antt =====
-- implementations/python/lib/src/anycall/queues.py.
pub mod Keys
use anycall.Prelude.{ℕ, ◌++◌, length, drop}
use anycall.Text.{Text, codes}

abbrev pub request_queue_prefix : Text
request_queue_prefix = codes "anycall:requests:"

abbrev pub response_queue_prefix : Text
response_queue_prefix = codes "anycall:responses:"

abbrev pub wake_channel_prefix : Text
wake_channel_prefix = codes "anycall:wake:"

abbrev pub inflight_key : Text
inflight_key = codes "anycall:inflight"

abbrev pub heartbeat_key : Text
heartbeat_key = codes "anycall:servers:alive"

abbrev pub heartbeat_ttl_seconds : ℕ
heartbeat_ttl_seconds = 8

abbrev pub response_ttl_seconds : ℕ
response_ttl_seconds = 60

unfoldable pub request_queue : Text → Text
request_queue method_name = request_queue_prefix ++ method_name

unfoldable pub method_name_from_queue : Text → Text
method_name_from_queue queue_key = drop (length request_queue_prefix) queue_key

unfoldable pub wake_channel : Text → Text
wake_channel method_name = wake_channel_prefix ++ method_name

unfoldable pub response_queue : Text → Text
response_queue request_id = response_queue_prefix ++ request_id
