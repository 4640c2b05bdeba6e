-- ===== src/Protocol/Ticks.antt =====
-- Whom a heartbeat tick of server.py and a waiting client of client.py fail back, over a connection
-- that may be cut off and with others' commands before every round trip.
use anycall.Prelude.{
  ℕ, ◌+◌, ◌≤◌, ◌≡◌, refl, sym, ap, subst, ◌∙◌, arith, true, false, Option, none, some, List, eqb,
  inl, Bool,
}
use anycall.Text.{Text}
use anycall.Assoc.{lookup}
use anycall.Errors.{Exn, Result, ok, err}
use anycall.Queues.{inflight_key, heartbeat_key, heartbeat_ttl_seconds}
use anycall.Redis.{Redis, contains}
use anycall.Exec.{World, Exec, gets, round_trip, ◌>>=◌, pure, continue, caught}
use anycall.Adapter.{heartbeat_script, heartbeat, inflight_owners, micros}
use anycall.Reaping.{reap_orphans}
use anycall.Server.{Server}
use anycall.Server.Loops.{TickSnapshot, read_snapshot, after_snapshot, heartbeat_tick}
use anycall.Protocol.{Traffic, Run}
use anycall.Protocol.Traced.{Steady, Started, Started-Run, Run-trans, Follow, AllLawful}
use anycall.Protocol.Traced.Replies.{Answered, round_trip-Answered}
use anycall.Protocol.Traced.Commands.{beats_once}
use anycall.Protocol.Reaped.{Fresh, unbeaten, reaped_only_if_silent}

module _ (R : Redis) (steady : Steady R) (ids : List Text) where
  open R use {State, time, hgetall}

  -- By the time of `s`, each owner of a listed request that is not listed as alive sent its last
  -- heartbeat a whole TTL ago.
  pub record Dead (m : Traffic R) (owners : List (Text × Text)) (alive : List Text) (s : State)
      : Type 0 where
    pub at : Traffic R
    pub run : Run R m at
    pub rest : Follow R ids at s
    pub silent :
        (id owner : Text)
        → lookup id owners ≡ some owner
        → contains owner alive ≡ false
        → (last : ℕ) × (at.beats owner ≡ some last)
          × (last + micros heartbeat_ttl_seconds ≤ time at.redis)

  abbrev pub registered : World State Server → World State Server
  registered v = record v { self = record v.self { heartbeat_registered = true } }

  module _ {s : State} (fresh : Fresh R s) {m : Traffic R} (before : Run R (unbeaten R s) m)
      (started : Started ids m.beats) where
    -- What a snapshot says of the owners.
    abbrev SnapshotOf : Result (TickSnapshot R) → World State Server → Type 0
    SnapshotOf (ok (some (owners, (rejoined, alive)))) w = Dead m owners alive w.redis
    SnapshotOf (ok none) w = ⊥
    SnapshotOf (err e) w = Unit {0}

    abbrev rejoin : ℕ × List Text → Exec State Server (Bool × List Text)
    rejoin reply = pure (eqb reply.0 1, reply.1)

    abbrev noted : List (Text × Text) → Bool × List Text → Exec State Server (TickSnapshot R)
    noted owners beat = pure (some (owners, beat))

    beaten :
        (owners : List (Text × Text)) (me : Text) (n : Traffic R)
        → Run R m n
        → owners ≡ hgetall inflight_key n.redis
        → (r : Result (ℕ × List Text)) (w : World State Server)
        → Answered R ids (heartbeat_script R heartbeat_key me heartbeat_ttl_seconds) n r w
        → let v = continue r rejoin w in
          let x = continue v.0 (noted owners) v.1 in SnapshotOf x.0 x.1
    beaten owners me n run read (ok reply) w h = record {
      at = h.at;
      run = Run-trans R run h.run;
      rest = subst (Follow R ids h.at) (sym h.after) (
          (beats_once R steady ids me).at h.at (Started-Run R ids (Run-trans R run h.run) started));
      silent = λ id owner owned absent.
          reaped_only_if_silent R fresh (Run-trans R before run) h.run id owner me 0
            (ap (lookup id) (sym read) ∙ owned) (omega arith)
            (inl (ap (λ (reply : ℕ × List Text). contains owner reply.1) (sym h.reply) ∙ absent));
    }
    beaten owners me n run read (err e) w h = tt

    abbrev beat : List (Text × Text) → Exec State Server (TickSnapshot R)
    beat owners = gets (λ s. s.server_id) >>= λ me.
        heartbeat R heartbeat_key me heartbeat_ttl_seconds >>= noted owners

    owners_read :
        (r : Result (List (Text × Text))) (w : World State Server)
        → Answered R ids (λ s. (hgetall inflight_key s, s)) m r w
        → let x = continue r beat w in SnapshotOf x.0 x.1
    unfolding heartbeat
    owners_read (ok owners) w h =
        let to : Run R m (record { redis = w.redis; beats = h.at.beats }) =
          subst (λ t. Run R m (record { redis = t; beats = h.at.beats })) (sym h.after) h.run in
        let trip =
          round_trip-Answered R ids
            (heartbeat_script R heartbeat_key w.self.server_id heartbeat_ttl_seconds) w h.at.beats
            (Started-Run R ids h.run started) h.lawful in
        let x =
          round_trip (heartbeat_script R heartbeat_key w.self.server_id heartbeat_ttl_seconds) w in
        beaten owners w.self.server_id (record { redis = w.redis; beats = h.at.beats }) to
          (h.reply ∙ ap (hgetall inflight_key) (sym h.after)) x.0 x.1 trip
    owners_read (err e) w h = tt

  read_snapshot_lem :
      {s : State} (w : World State Server) (beats : Text → Option ℕ)
      → (fresh : Fresh R s)
      → (before : Run R (unbeaten R s) (record { redis = w.redis; beats = beats }))
      → (started : Started ids beats) → AllLawful R ids w.turns
      → SnapshotOf fresh before started (read_snapshot R w).0 (read_snapshot R w).1
  unfolding read_snapshot inflight_owners
  read_snapshot_lem w beats fresh before started lawful =
      let x = round_trip (λ s. (hgetall inflight_key s, s)) w in
      owners_read fresh before started x.0 x.1
        (round_trip-Answered R ids (λ s. (hgetall inflight_key s, s)) w beats started lawful)

  -- How a tick ends: it cannot read its snapshot and does nothing more, or it reads owners and
  -- living servers, reaps the former against the latter, and those missing are dead.
  pub data Ticked (m : Traffic R) (w : World State Server) : Type 0 where
    missed :
        (e : Exn) (v : World State Server)
        → read_snapshot R w ≡ (err e, v)
        → heartbeat_tick R w ≡ (ok tt, v)
        → Ticked m w
    saw :
        (owners : List (Text × Text)) (rejoined : Bool) (alive : List Text) (v : World State Server)
        → read_snapshot R w ≡ (ok (some (owners, (rejoined, alive))), v)
        → Dead m owners alive v.redis
        → heartbeat_tick R w ≡ reap_orphans R owners alive (registered v)
        → Ticked m w

  abbrev finished :
      Result (TickSnapshot R) × World State Server → Result (Unit {0}) × World State Server
  finished (r, v) = let c = caught r (λ e. pure none) v in continue c.0 (after_snapshot R) c.1

  ticked :
      {s : State} {m : Traffic R} (fresh : Fresh R s) (before : Run R (unbeaten R s) m)
      (started : Started ids m.beats) (w : World State Server) (r : Result (TickSnapshot R))
      (v : World State Server)
      → read_snapshot R w ≡ (r, v)
      → SnapshotOf fresh before started r v
      → Ticked m w
  unfolding heartbeat_tick after_snapshot
  ticked fresh before started w (ok (some (owners, (rejoined, alive)))) v read h =
      saw owners rejoined alive v read h (ap finished read)
  ticked fresh before started w (ok none) v read h = absurd h
  ticked fresh before started w (err e) v read h = missed e v read (ap finished read)

  -- For a Redis whose clock does not go back: from a state reached by any run of servers and
  -- clients from a Redis in which no request has an owner, and with lawful commands of others
  -- before each round trip, whatever is cut off, a heartbeat tick either fails to read its snapshot
  -- and then does nothing more, or is the reaping of the owners it read against the living servers
  -- it read, and each owner that was read but not as living had sent its last heartbeat a whole TTL
  -- before, in a state on the way.
  pub tick_spares_the_living :
      {s : State} (w : World State Server) (beats : Text → Option ℕ)
      → Fresh R s
      → Run R (unbeaten R s) (record { redis = w.redis; beats = beats })
      → Started ids beats
      → AllLawful R ids w.turns
      → Ticked (record { redis = w.redis; beats = beats }) w
  tick_spares_the_living w beats fresh before started lawful =
      let x = read_snapshot R w in
      ticked fresh before started w x.0 x.1 refl
        (read_snapshot_lem w beats fresh before started lawful)
