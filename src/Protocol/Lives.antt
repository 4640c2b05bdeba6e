-- ===== src/Protocol/Lives.antt =====
-- Whole lives of servers and clients, over connections that may be cut off and with others' commands
-- before every round trip.
use anycall.Prelude.{ℕ, Option, List, [], ◌∷◌}
use anycall.Prelude.Int.{ℤ}
use anycall.Text.{Text}
use anycall.Json.{Json}
use anycall.Errors.{Exn}
use anycall.Serialization.{Dacite, PyType, Object}
use anycall.Redis.{Redis}
use anycall.Exec.{World, Fault, alone}
use anycall.Server.{Server, Job}
use anycall.Server.Requests.{process_message}
use anycall.Server.Loops.{heartbeat_tick, poll_round}
use anycall.Client.{Client}
use anycall.Client.Call.{call, raw_call}
use anycall.Protocol.{Traffic, here}
use anycall.Protocol.Traced.{Steady, Started, Started-Run, Run-trans, Lawful, AllLawful, After}
use anycall.Protocol.Traced.Servers.{
  Listed, heartbeat_tick-Traced, poll_round-Traced, process_message-Traced,
}
use anycall.Protocol.Traced.Clients.{Anyone, call-Traced, raw_call-Traced}

-- What the threads of a server do: a heartbeat, a round of the read loop, and a worker's job.
pub data Act : Type 0 where
  tick : Act
  round : (List Text → List Text) → ℕ → Act
  message : Job → Act

-- A client's calls, with the uuid of each.
pub data Use : Type 0 where
  typed : Text → Object → Option PyType → Option ℤ → Text → Use
  raw : Text → Object → Option ℤ → Text → Use

module _ (R : Redis) (dacite : Dacite) (describe : Exn → Text) (format : Json → Text) where
  open R use {State}

  abbrev pub act : Act → World State Server → World State Server
  act tick w = (heartbeat_tick R w).1
  act (round shuffle waited) w = (poll_round R shuffle waited w).1
  act (message job) w = (process_message dacite describe format R job w).1

  abbrev pub live : List Act → World State Server → World State Server
  live [] w = w
  live (a ∷ acts) w = live acts (act a w)

  abbrev pub use_once : ℕ → Use → World State Client → World State Client
  use_once rounds (typed name argument type depth uuid) w =
      (call R dacite describe format rounds name argument type depth uuid w).1
  use_once rounds (raw name argument depth uuid) w =
      (raw_call R dacite describe format rounds name argument depth uuid w).1

  abbrev pub use_all : ℕ → List Use → World State Client → World State Client
  use_all rounds [] w = w
  use_all rounds (u ∷ uses) w = use_all rounds uses (use_once rounds u w)

module _ (R : Redis) (steady : Steady R) (ids : List Text) where
  open R use {State}

  After-trans :
      {L : Type 0} {P : L → Type 0} {m : Traffic R} {v w : World State L}
      → (h : After R ids P m v) → After R ids P (record { redis = v.redis; beats = h.beats }) w
      → After R ids P m w
  After-trans h k = record {
    beats = k.beats;
    run = Run-trans R h.run k.run;
    lawful = k.lawful;
    kept = k.kept;
  }

  module _ (dacite : Dacite) (describe : Exn → Text) (format : Json → Text) where
    act_run :
        (a : Act) (w : World State Server) (beats : Text → Option ℕ)
        → Started ids beats
        → AllLawful R ids w.turns
        → Listed ids w.self
        → After R ids
            (Listed ids)
            (record { redis = w.redis; beats = beats })
            (act R dacite describe format a w)
    act_run tick = (heartbeat_tick-Traced R steady ids).at
    act_run (round shuffle waited) = (poll_round-Traced R steady ids shuffle waited).at
    act_run (message job) = (process_message-Traced R steady ids dacite describe format job).at

    -- For a Redis whose clock does not go back: any sequence of heartbeat ticks, rounds of the read
    -- loop and jobs of a server that has heartbeaten, with lawful commands of others before each
    -- round trip and whatever is cut off, stays within the environment of Protocol: it takes
    -- requests in the name of a server that has heartbeaten only, and the server keeps its id.
    -- The environment says nothing of which lists are pushed on and which entries dropped.
    pub server_life_runs :
        (acts : List Act) (w : World State Server) (beats : Text → Option ℕ)
        → Started ids beats
        → AllLawful R ids w.turns
        → Listed ids w.self
        → After R ids
            (Listed ids)
            (record { redis = w.redis; beats = beats })
            (live R dacite describe format acts w)
    server_life_runs [] w beats started lawful listed = record {
      beats = beats;
      run = here;
      lawful = lawful;
      kept = listed;
    }
    server_life_runs (a ∷ acts) w beats started lawful listed =
        let h = act_run a w beats started lawful listed in
        After-trans h (
          server_life_runs acts (act R dacite describe format a w) h.beats
            (Started-Run R ids h.run started) h.lawful h.kept)

    use_run :
        (rounds : ℕ) (u : Use) (w : World State Client) (beats : Text → Option ℕ)
        → Started ids beats
        → AllLawful R ids w.turns
        → After R ids Anyone
            (record { redis = w.redis; beats = beats })
            (use_once R dacite describe format rounds u w)
    use_run rounds (typed name argument type depth uuid) w beats started lawful =
        (call-Traced R steady ids dacite describe format rounds name argument type depth uuid).at w
          beats started lawful tt
    use_run rounds (raw name argument depth uuid) w beats started lawful =
        (raw_call-Traced R steady ids dacite describe format rounds name argument depth uuid).at w
          beats started lawful tt

    -- For a Redis whose clock does not go back: any sequence of calls and raw calls of a client,
    -- with any number of rounds of waiting, with lawful commands of others before each round trip
    -- and whatever is cut off, stays within the environment of Protocol: it takes no request.
    pub client_life_runs :
        (rounds : ℕ) (uses : List Use) (w : World State Client) (beats : Text → Option ℕ)
        → Started ids beats
        → AllLawful R ids w.turns
        → After R ids Anyone
            (record { redis = w.redis; beats = beats })
            (use_all R dacite describe format rounds uses w)
    client_life_runs rounds [] w beats started lawful = record {
      beats = beats;
      run = here;
      lawful = lawful;
      kept = tt;
    }
    client_life_runs rounds (u ∷ uses) w beats started lawful =
        let h = use_run rounds u w beats started lawful in
        After-trans h (
          client_life_runs rounds uses (use_once R dacite describe format rounds u w) h.beats
            (Started-Run R ids h.run started) h.lawful)

    -- What another server does in between, with a connection of its own that works, is lawful: lives
    -- may be put into each other's round trips.
    pub life-Lawful :
        (acts : List Act) (clock : ℕ) (self : Server) (elapsed : ℕ) (fault : Fault)
        → Listed ids self
        → Lawful R ids (record {
          others = λ s. (live R dacite describe format acts (alone s clock self)).redis;
          elapsed = elapsed;
          fault = fault;
        })
    life-Lawful acts clock self elapsed fault listed = record {
      at = λ m started.
          let h = server_life_runs acts (alone m.redis clock self) m.beats started tt listed in
          record { beats = h.beats; run = h.run };
    }
