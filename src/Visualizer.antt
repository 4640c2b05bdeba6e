-- ===== src/Visualizer.antt =====
-- tools/visualizer/src/visualizer/poller.py: what the visualizer reads from Redis, and what it makes
-- of two snapshots. Times are in microseconds.
pub mod Sorted
pub mod Preview
pub mod Estimate
pub mod Rows
pub mod Collect
pub mod Activity
pub mod Thread
pub mod Seen
pub mod Alive
pub mod Told
pub mod Steady
pub mod Polls
pub mod Interface
pub mod Trees
pub mod Window
pub mod Backend
use anycall.Sets.{any}
use anycall.Prelude.{ℕ, ◌≡◌, Bool, false, Option, none, some, List, [], ◌∷◌}
use anycall.Prelude.Int.{ℤ}
use anycall.Text.{Text, codes}
use anycall.Assoc.{lookup, Distinct}
use anycall.Redis.{Redis}

abbrev pub entry_peek_count : ℕ
entry_peek_count = 20

abbrev pub preview_max_len : ℕ
preview_max_len = 60

-- HEARTBEAT_PERIOD_SECONDS of server.py
abbrev pub heartbeat_period_seconds : ℕ
heartbeat_period_seconds = 2

-- The kind of a method's queue, from the key's TYPE.
pub data QueueKind : Type 0 where
  list stream : QueueKind

-- The entries have their ids as keys, written as JSON: an id of a list's entry is any JSON value.
pub record MethodInfo : Type 0 where
  pub name : Text
  pub backlog : ℕ
  pub kind : QueueKind
  pub entries : List (Text × Text)
  pub listeners : ℕ

pub record ServerInfo : Type 0 where
  pub server_id : Text
  pub last_heartbeat : ℕ
  pub age : ℕ

pub data By : Type 0 where
  server client : By

-- The window counts from the snapshot, so it may lie in the past.
pub record ReapEstimate : Type 0 where
  pub by : By
  pub earliest : Option ℤ
  pub latest : Option ℤ

pub record InflightInfo : Type 0 where
  pub request_id : Text
  pub owner : Text
  pub owner_alive : Bool
  pub reap : Option ReapEstimate

-- The reply to INFO, as far as it is shown.
pub record Info : Type 0 where
  pub redis_version : Option Text
  pub connected_clients : Option ℕ
  pub used_memory_human : Option Text

pub record Snapshot : Type 0 where
  pub connected : Bool
  pub taken_at : ℕ
  pub redis_uri : Text
  pub methods : List MethodInfo
  pub servers : List ServerInfo
  pub inflight : List InflightInfo
  pub inflight_responses : ℕ
  pub redis_version : Text
  pub connected_clients : ℕ
  pub used_memory_human : Text
  pub error : Option Text

-- What an event says: one constructor for each f-string.
pub data Message : Type 0 where
  lost_connection : Option Text → Message
  restored : Message
  server_up server_gone : Text → Message
  taken orphaned answered failed_back : (request_id owner : Text) → Message
  discovered : Text → Message
  backlog_changed : (name : Text) (before after : ℕ) → Message
  request_queued : (name preview : Text) → Message

pub record Event : Type 0 where
  pub timestamp : ℕ
  pub message : Message

-- `PollerThread`, with the previous snapshot of its tracker. `emitted` has what `snapshot_ready` was
-- given, the last first; `has_client` says whether there is a client.
pub record Poller : Type 0 where
  pub redis_uri : Text
  pub interval : ℕ
  pub stopping : Bool
  pub prev : Option Snapshot
  pub has_client : Bool
  pub last_seen : List (Text × ℕ)
  pub emitted : List (Snapshot × List Event)

abbrev pub new_poller : Text → ℕ → Poller
new_poller redis_uri interval = record {
  redis_uri = redis_uri;
  interval = interval;
  stopping = false;
  prev = none;
  has_client = false;
  last_seen = [];
  emitted = [];
}

-- The commands that only the visualizer sends. None of them writes. A scan's rounds are one command.
pub record View (R : Redis) : Type 0 where
  pub info : R.State → Info
  pub scan : Text → R.State → List Text
  pub key_exists : Text → R.State → Bool
  pub key_type : Text → R.State → Text
  -- `LRANGE key -n -1`
  pub lrange_last : Text → ℕ → R.State → List Text
  pub xlen : Text → R.State → ℕ
  -- the oldest `n` entries with their fields
  pub xrange : Text → ℕ → R.State → List (Text × List (Text × Text))
  -- every member with its score
  pub zscores : Text → R.State → List (Text × ℕ)
  pub numsub : List Text → R.State → List (Text × ℕ)
  pub zscores_value : (k m : Text) (s : R.State) → lookup m (zscores k s) ≡ (R.contents s).zset k m
  pub zscores_distinct : (k : Text) (s : R.State) → Distinct (zscores k s)
