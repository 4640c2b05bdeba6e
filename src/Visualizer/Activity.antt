-- ===== src/Visualizer/Activity.antt =====
-- `ActivityTracker.diff` of poller.py.
use anycall.Sets.{unique, without}
use anycall.Prelude.{
  ℕ, not, ◌&&◌, Option, none, some, List, [], ◌∷◌, ◌++◌, map, eqb, is_some, if◌then◌else◌,
}
use anycall.Text.{Text, codes}
use anycall.Assoc.{lookup}
use anycall.Errors.{show}
use anycall.Visualizer.{
  MethodInfo, InflightInfo, Snapshot, Message, Event, lost_connection, restored, server_up,
  server_gone, taken, orphaned, answered, failed_back, discovered, backlog_changed, request_queued,
}
use anycall.Visualizer.Sorted.{sorted, text_lt}
use anycall.Visualizer.Rows.{dict_of, server_ids}

-- The f-strings.
unfoldable pub message_text : Message → Text
message_text (lost_connection none) = codes "lost connection to redis: None"
message_text (lost_connection (some e)) = codes "lost connection to redis: " ++ e
message_text restored = codes "redis connection restored"
message_text (server_up server_id) = codes "server up: " ++ server_id
message_text (server_gone server_id) = codes "server gone: " ++ server_id
message_text (taken id owner) = codes "request " ++ id ++ codes " taken by server " ++ owner
message_text (orphaned id owner) =
    codes "request " ++ id ++ codes " orphaned: server " ++ owner ++ codes " is gone"
message_text (answered id owner) = codes "request " ++ id ++ codes " answered by server " ++ owner
message_text (failed_back id owner) =
    codes "request " ++ id ++ codes " failed back to its client (server " ++ owner ++ codes " died)"
message_text (discovered name) = codes "method discovered: " ++ name
message_text (backlog_changed name before after) =
    name ++ codes ": backlog " ++ show before ++ codes " -> " ++ show after
message_text (request_queued name preview) =
    name ++ codes ": request queued (" ++ preview ++ codes ")"

unfoldable pub connection_messages : Option Snapshot → Snapshot → List Message
connection_messages none s = []
connection_messages (some prev) s =
    if prev.connected && not s.connected
    then lost_connection s.error ∷ []
    else if not prev.connected && s.connected
    then restored ∷ []
    else []

-- Those of `now` that were not there before, in order.
abbrev pub newcomers : List Text → List Text → List Text
newcomers before now = sorted text_lt (without before (unique now))

unfoldable pub server_messages : List Text → List Text → List Message
server_messages before now =
    map server_up (newcomers before now) ++ map server_gone (newcomers now before)

abbrev pub by_request : List InflightInfo → List (Text × InflightInfo)
by_request [] = []
by_request (e ∷ es) = (e.request_id, e) ∷ by_request es

unfoldable pub still_messages : Text → Option InflightInfo → InflightInfo → List Message
still_messages id none e = taken id e.owner ∷ []
still_messages id (some p) e =
    if p.owner_alive && not e.owner_alive then orphaned id e.owner ∷ [] else []

unfoldable pub current_messages :
    List (Text × InflightInfo) → List (Text × InflightInfo) → List Message
current_messages prev [] = []
current_messages prev ((id, e) ∷ current) =
    still_messages id (lookup id prev) e ++ current_messages prev current

abbrev pub left_messages : Text → InflightInfo → List Message
left_messages id e = (if e.owner_alive then answered id e.owner else failed_back id e.owner) ∷ []

unfoldable pub gone_messages :
    List (Text × InflightInfo) → List (Text × InflightInfo) → List Message
gone_messages current [] = []
gone_messages current ((id, e) ∷ prev) =
    let rest = gone_messages current prev in
    if is_some (lookup id current) then rest else left_messages id e ++ rest

unfoldable pub inflight_messages :
    List (Text × InflightInfo) → List (Text × InflightInfo) → List Message
unfolding current_messages gone_messages
inflight_messages prev current = current_messages prev current ++ gone_messages current prev

unfoldable pub entry_messages : Text → List (Text × Text) → List (Text × Text) → List Message
entry_messages name prev [] = []
entry_messages name prev ((entry_id, preview) ∷ entries) =
    let rest = entry_messages name prev entries in
    if is_some (lookup entry_id prev) then rest else request_queued name preview ∷ rest

abbrev pub by_name : List MethodInfo → List (Text × MethodInfo)
by_name [] = []
by_name (m ∷ ms) = (m.name, m) ∷ by_name ms

unfoldable pub method_messages : Option MethodInfo → MethodInfo → List Message
unfolding entry_messages
method_messages none m = discovered m.name ∷ entry_messages m.name [] m.entries
method_messages (some p) m =
    (if eqb p.backlog m.backlog then [] else backlog_changed m.name p.backlog m.backlog ∷ [])
    ++ entry_messages m.name p.entries m.entries

unfoldable pub methods_messages : List (Text × MethodInfo) → List MethodInfo → List Message
unfolding method_messages
methods_messages prev [] = []
methods_messages prev (m ∷ ms) = method_messages (lookup m.name prev) m ++ methods_messages prev ms

-- What the previous snapshot had, if it was a connected one.
abbrev pub servers_before : Option Snapshot → List Text
servers_before none = []
servers_before (some prev) = if prev.connected then server_ids prev.servers else []

abbrev pub inflight_before : Option Snapshot → List (Text × InflightInfo)
inflight_before none = []
inflight_before (some prev) = if prev.connected then dict_of [] (by_request prev.inflight) else []

abbrev pub methods_before : Option Snapshot → List (Text × MethodInfo)
methods_before none = []
methods_before (some prev) = dict_of [] (by_name prev.methods)

unfoldable pub messages : Option Snapshot → Snapshot → List Message
unfolding connection_messages server_messages inflight_messages methods_messages
messages prev s =
    connection_messages prev s
    ++ (if s.connected then server_messages (servers_before prev) (server_ids s.servers) else [])
    ++ (if s.connected
        then inflight_messages (inflight_before prev) (dict_of [] (by_request s.inflight))
        else [])
    ++ methods_messages (methods_before prev) s.methods

abbrev pub stamped : ℕ → List Message → List Event
stamped now [] = []
stamped now (m ∷ ms) = record { timestamp = now; message = m } ∷ stamped now ms

unfoldable pub diff : Snapshot → Option Snapshot → List Event × Option Snapshot
unfolding messages
diff s prev = (stamped s.taken_at (messages prev s), some s)
