-- ===== src/Examples.antt =====
-- Concrete data for runs of the theorems: a request, two servers and what they left in Redis.
mod Reaps
mod Scripts
mod Calls
mod Wire
mod Names
mod Serves
mod Runs
mod Workers
mod Watches
mod Windows
mod Listens
mod Meetings
use anycall.Prelude.{refl, arith, ℕ, Option, none, List, [], ◌∷◌, if◌then◌else◌}
use anycall.Prelude.Int.{pos}
use anycall.Text.{Text, codes, ◌==◌}
use anycall.Json.Parse.Numbers.{is_number, is_number_char}
use anycall.Json.RoundTrip.{Writable}
use anycall.Json.{get, Json, Fields, str, null, number, obj, arr, item, no_items, field, no_fields}
use anycall.Errors.{Exn, Result, ok, err, type_error}
use anycall.Model.Request
use anycall.Model.Request.{AnyCallRequest}
use anycall.Serialization.{Dacite, Object, plain}
use anycall.Serialization.Wire.{request_text}
use anycall.Queues.{inflight_key, heartbeat_key, request_queue}
use anycall.Redis.{Redis}
use anycall.Redis.Memory.{Memory, empty_memory}
use anycall.Client.{Client, new_client}

abbrev pub echo : Text
echo = codes "echo"

abbrev pub id_1 : Text
id_1 = codes "r1"

abbrev pub id_2 : Text
id_2 = codes "r2"

abbrev pub dead : Text
dead = codes "s1"

abbrev pub live : Text
live = codes "s2"

abbrev pub point : Json
point = obj (field (codes "x") (arr (item null (item (number (codes "-1.5")) no_items))) no_fields)

pub point-Writable : Writable point
unfolding get is_number is_number_char
point-Writable =
    ((refl, tt), (omega arith, (tt, ((refl, (refl, (refl, (refl, (refl, tt))))), tt)), tt))

abbrev pub a_request : AnyCallRequest
a_request = record {
  request_id = str (codes "r1");
  method_name = str (codes "echo");
  payload = str (codes "{}");
}

abbrev pub two_owners : List (Text × Text)
two_owners = (id_1, dead) ∷ (id_2, live) ∷ []

-- Both servers took a request; the heartbeat of one is 8 seconds old and that of the other fresh.
abbrev pub crashed : Memory
crashed = record (empty_memory 100000000) {
  hashes = λ k. if k == inflight_key then two_owners else [];
  zsets = λ k. if k == heartbeat_key then (dead, 92000000) ∷ (live, 99000000) ∷ [] else [];
}

-- A request in its queue.
abbrev pub queued : Memory
queued = record (empty_memory 100000000) {
  lists = λ k.
      if k == request_queue echo
      then codes "{\"requestId\": \"r1\", \"methodName\": \"echo\", \"payload\": \"{}\"}" ∷ []
      else [];
}

-- A client with a timeout of 40 seconds.
abbrev pub a_client : Client
a_client = new_client (pos 40000000) none 0

-- A `dacite` that builds nothing, and texts for errors and values.
abbrev pub no_dacite : Dacite
no_dacite t v = err type_error

abbrev pub describe : Exn → Text
describe e = codes "?"

abbrev pub format : Json → Text
format v = codes "?"
