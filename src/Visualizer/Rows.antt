-- ===== src/Visualizer/Rows.antt =====
-- The rows of a snapshot of poller.py, from the replies of Redis.
use anycall.Prelude.{
  ℕ, ◌+◌, ◌-◌, Bool, Option, none, some, List, [], ◌∷◌, max, leb, map, if◌then◌else◌,
}
use anycall.Text.{Text, codes, ◌==◌}
use anycall.Assoc.{lookup, insert}
use anycall.Json.{Json, str}
use anycall.Json.Print.{dumps}
use anycall.Errors.{Result, ok, err}
use anycall.Queues.{heartbeat_ttl_seconds, wake_channel}
use anycall.Redis.{contains}
use anycall.Adapter.{micros}
use anycall.Visualizer.{MethodInfo, ServerInfo, InflightInfo, ReapEstimate}
use anycall.Visualizer.Sorted.{text_lt}
use anycall.Visualizer.Preview.{preview_request, entry_key, dict_key}

-- The dict comprehension over the entries of a list, and the loop over those of a stream.
module _ (format : Json → Text) (hash : Text → Text) where
  unfoldable pub list_entries : List (Text × Text) → List Text → Result (List (Text × Text))
  list_entries entries [] = ok entries
  list_entries entries (raw ∷ raws) = elim (dict_key (entry_key hash raw)) [
    | err e ↦ err e
    | ok key ↦ elim (preview_request format (some raw)) [
      | err e ↦ err e
      | ok preview ↦ list_entries (insert key preview entries) raws
    ]
  ]

  unfoldable pub stream_entries :
      List (Text × Text) → List (Text × List (Text × Text)) → Result (List (Text × Text))
  stream_entries entries [] = ok entries
  stream_entries entries ((entry_id, fields) ∷ rest) =
      elim (preview_request format (lookup (codes "data") fields)) [
        | err e ↦ err e
        | ok preview ↦ stream_entries (insert (dumps (str entry_id)) preview entries) rest
      ]

abbrev pub reverse_onto : {A : Type 0} → List A → List A → List A
reverse_onto acc [] = acc
reverse_onto acc (x ∷ xs) = reverse_onto (x ∷ acc) xs

abbrev pub or_else : {A : Type 0} → A → Option A → A
or_else default none = default
or_else default (some a) = a

-- The latest score of every member, dead ones included.
unfoldable pub fold_seen : List (Text × ℕ) → List (Text × ℕ) → List (Text × ℕ)
fold_seen seen [] = seen
fold_seen seen ((member, score) ∷ members) =
    fold_seen (insert member (max score (or_else score (lookup member seen))) seen) members

-- A member whose heartbeat is at most the TTL old is alive; one ahead of the time read is of age 0.
unfoldable pub live_servers : ℕ → List (Text × ℕ) → List ServerInfo
live_servers now [] = []
live_servers now ((member, score) ∷ members) =
    let rest = live_servers now members in
    if leb now (score + micros heartbeat_ttl_seconds)
    then record { server_id = member; last_heartbeat = score; age = now - score } ∷ rest
    else rest

abbrev pub by_id : ServerInfo → ServerInfo → Bool
by_id s t = text_lt s.server_id t.server_id

unfoldable pub owned : List Text → List (Text × Text) → List InflightInfo
owned alive [] = []
owned alive ((request_id, owner) ∷ owners) =
    record {
      request_id = request_id;
      owner = owner;
      owner_alive = contains owner alive;
      reap = none;
    }
    ∷ owned alive owners

-- Pairs are compared at their owners first.
unfoldable pub by_owner : InflightInfo → InflightInfo → Bool
by_owner e f =
    if e.owner == f.owner then text_lt e.request_id f.request_id else text_lt e.owner f.owner

-- The loop that gives every orphan its estimate.
unfoldable pub with_estimates : ReapEstimate → List InflightInfo → List InflightInfo
with_estimates estimate [] = []
with_estimates estimate (e ∷ es) =
    let rest = with_estimates estimate es in
    if e.owner_alive then e ∷ rest else record e { reap = some estimate } ∷ rest

abbrev pub server_ids : List ServerInfo → List Text
server_ids ss = map (λ s. s.server_id) ss

abbrev pub wake_channels : List MethodInfo → List Text
wake_channels [] = []
wake_channels (m ∷ ms) = wake_channel m.name ∷ wake_channels ms

-- `counts` is `dict(pairs)`: the last pair of a channel counts.
abbrev pub dict_of : {A : Type 0} → List (Text × A) → List (Text × A) → List (Text × A)
dict_of acc [] = acc
dict_of acc ((k, v) ∷ pairs) = dict_of (insert k v acc) pairs

unfoldable pub with_listeners : List (Text × ℕ) → List MethodInfo → List MethodInfo
with_listeners counts [] = []
with_listeners counts (m ∷ ms) =
    record m { listeners = or_else 0 (lookup (wake_channel m.name) counts) }
    ∷ with_listeners counts ms
