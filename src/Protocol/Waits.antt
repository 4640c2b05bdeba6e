-- ===== src/Protocol/Waits.antt =====
-- Whom a waiting client of client.py fails back, over a connection that may be cut off and with
-- others' commands before every round trip.
use anycall.Prelude.{
  ℕ, ◌+◌, ◌≡◌, refl, sym, ap, subst, ◌∙◌, true, false, Option, List, [], ◌∷◌, inl, inr, Bool-cases,
  ltb,
}
use anycall.Text.{Text}
use anycall.Errors.{Exn, Result, ok, err}
use anycall.Queues.{inflight_key, heartbeat_key, heartbeat_ttl_seconds}
use anycall.Redis.{Redis}
use anycall.Exec.{World, monotonic, modify, ◌>>◌, round_trip, ◌>>=◌, pure, continue, caught}
use anycall.Adapter.{inflight_owners, alive_members}
use anycall.Reaping.{reap_orphans}
use anycall.Client.{
  Client, saw_activity, reap_owned, reap_locked, reap_if_quiet, with_lock, waiter_reap_quiet,
}
use anycall.Protocol.{Traffic, Run}
use anycall.Protocol.Traced.{Steady, Started, Started-Run, Run-trans, AllLawful}
use anycall.Protocol.Traced.Replies.{Answered, round_trip-Answered}
use anycall.Protocol.Reaped.{Fresh, unbeaten}
use anycall.Protocol.Ticks.{Dead}
use anycall.Protocol.Living.{Living, alive_members-Living}

module _ (R : Redis) (steady : Steady R) (ids : List Text) where
  open R use {State, time, hgetall, zrangebyscore}

  -- The client takes its lock before it reads.
  abbrev pub locked : World State Client → World State Client
  locked w = record w { self = with_lock true w.self }

  -- What a waiting client does to Redis, up to `s`: nothing if it saw something lately or another of
  -- its calls reaps; it reads, and gives up or finds no owner; or it reads owners and living
  -- servers, reaps the former against the latter, and those missing are dead.
  pub data Waited (m : Traffic R) (w : World State Client) (s : State) : Type 0 where
    idle : s ≡ w.redis → Waited m w s
    unread :
        (e : Exn) (v : World State Client)
        → inflight_owners R inflight_key (locked w) ≡ (err e, v)
        → s ≡ v.redis
        → Waited m w s
    unowned :
        (v : World State Client)
        → inflight_owners R inflight_key (locked w) ≡ (ok [], v)
        → s ≡ v.redis
        → Waited m w s
    unranged :
        (owners : List (Text × Text)) (u : World State Client) (e : Exn) (v : World State Client)
        → inflight_owners R inflight_key (locked w) ≡ (ok owners, u)
        → alive_members R heartbeat_key heartbeat_ttl_seconds u ≡ (err e, v)
        → s ≡ v.redis
        → Waited m w s
    saw :
        (owners : List (Text × Text)) (u : World State Client) (alive : List Text)
        (v : World State Client)
        → inflight_owners R inflight_key (locked w) ≡ (ok owners, u)
        → alive_members R heartbeat_key heartbeat_ttl_seconds u ≡ (ok alive, v)
        → Dead R steady ids m owners alive v.redis
        → s ≡ (reap_orphans R owners alive v).1.redis
        → Waited m w s

  Dead-from :
      {m n : Traffic R} {owners : List (Text × Text)} {alive : List Text} {s : State}
      → Run R m n
      → Dead R steady ids n owners alive s
      → Dead R steady ids m owners alive s
  Dead-from run h = record {
    at = h.at;
    run = Run-trans R run h.run;
    rest = h.rest;
    silent = h.silent;
  }

  -- What the body of the `try` leaves.
  abbrev left : Result (Unit {0}) × World State Client → State
  left x = x.1.redis

  reaped :
      (w u : World State Client) (m : Traffic R) (owners : List (Text × Text)) (n : Traffic R)
      → Run R m n
      → inflight_owners R inflight_key (locked w) ≡ (ok owners, u)
      → (r : Result (List Text)) (v : World State Client)
      → alive_members R heartbeat_key heartbeat_ttl_seconds u ≡ (r, v)
      → Living R steady ids n owners r v
      → Waited m w (left (continue r (reap_orphans R owners) v))
  reaped w u m owners n run read (ok alive) v members h =
      saw owners u alive v read members (Dead-from run h) refl
  reaped w u m owners n run read (err e) v members h = unranged owners u e v read members refl

  owned_entries :
      {s : State} {m : Traffic R} (w u : World State Client) (beats : Text → Option ℕ)
      (owners : List (Text × Text))
      → Fresh R s
      → Run R (unbeaten R s) m
      → Run R m (record { redis = u.redis; beats = beats })
      → Started ids beats
      → AllLawful R ids u.turns
      → owners ≡ hgetall inflight_key u.redis
      → inflight_owners R inflight_key (locked w) ≡ (ok owners, u)
      → Waited m w (left (reap_owned R owners u))
  unfolding reap_owned
  owned_entries w u beats [] fresh before during started lawful now read = unowned u read refl
  owned_entries {m = m} w u beats (entry ∷ owners) fresh before during started lawful now read =
      let x = alive_members R heartbeat_key heartbeat_ttl_seconds u in
      reaped w u m (entry ∷ owners) (record { redis = u.redis; beats = beats }) during read x.0 x.1
        refl
        (alive_members-Living R steady ids u beats (entry ∷ owners) fresh
          (Run-trans R before during) started lawful now)

  owners_read :
      {s : State} {m : Traffic R}
      → Fresh R s
      → Run R (unbeaten R s) m
      → Started ids m.beats
      → (w : World State Client) (r : Result (List (Text × Text))) (u : World State Client)
      → inflight_owners R inflight_key (locked w) ≡ (r, u)
      → Answered R ids (λ s. (hgetall inflight_key s, s)) m r u
      → Waited m w (left (continue r (reap_owned R) u))
  owners_read {m = m} fresh before started w (ok owners) u read h =
      let to : Run R m (record { redis = u.redis; beats = h.at.beats }) =
        subst (λ t. Run R m (record { redis = t; beats = h.at.beats })) (sym h.after) h.run in
      owned_entries w u h.at.beats owners fresh before to (Started-Run R ids to started) h.lawful
        (h.reply ∙ ap (hgetall inflight_key) (sym h.after)) read
  owners_read fresh before started w (err e) u read h = unread e u read refl

  body :
      {s : State} (w : World State Client) (beats : Text → Option ℕ)
      → Fresh R s
      → Run R (unbeaten R s) (record { redis = w.redis; beats = beats })
      → Started ids beats
      → AllLawful R ids w.turns
      → Waited
          (record { redis = w.redis; beats = beats })
          w
          (left ((inflight_owners R inflight_key >>= reap_owned R) (locked w)))
  unfolding inflight_owners
  body w beats fresh before started lawful =
      let x = round_trip (λ s. (hgetall inflight_key s, s)) (locked w) in
      owners_read fresh before started w x.0 x.1 refl (
        round_trip-Answered R ids (λ s. (hgetall inflight_key s, s)) (locked w) beats started
          lawful)

  -- `except` and `finally` leave Redis alone.
  noted :
      (r : Result (Unit {0})) (v : World State Client)
      → let c = caught r (λ e. pure tt) v in
        left (
          continue c.0
            (λ _. monotonic >>= λ now. modify (saw_activity now) >> modify (with_lock false))
            c.1)
        ≡ v.redis
  noted (ok tt) v = refl
  noted (err e) v = refl

  reap_locked_redis :
      (w : World State Client)
      → left (reap_locked R w) ≡ left ((inflight_owners R inflight_key >>= reap_owned R) (locked w))
  unfolding reap_locked
  reap_locked_redis w =
      let x = (inflight_owners R inflight_key >>= reap_owned R) (locked w) in noted x.0 x.1

  -- For a Redis whose clock does not go back: from a state reached by any run of servers and
  -- clients from a Redis in which no request has an owner, and with lawful commands of others
  -- before each round trip, whatever is cut off, the check of a waiting client leaves Redis alone,
  -- or it reads and stops since a read failed or no request has an owner, or it leaves what reaping
  -- of the owners it read against the living servers it read leaves, and each owner that was read
  -- but not as living had sent its last heartbeat a whole TTL before, in a state on the way.
  pub waiter_spares_the_living :
      {s : State} (w : World State Client) (beats : Text → Option ℕ)
      → Fresh R s
      → Run R (unbeaten R s) (record { redis = w.redis; beats = beats })
      → Started ids beats
      → AllLawful R ids w.turns
      → Waited (record { redis = w.redis; beats = beats }) w (reap_if_quiet R w).1.redis
  unfolding reap_if_quiet
  waiter_spares_the_living w beats fresh before started lawful =
      let m : Traffic R = record { redis = w.redis; beats = beats } in
      elim (Bool-cases (ltb w.clock (w.self.last_activity + waiter_reap_quiet))) [
        | inl lately ↦ idle (rw (lately, reap_if_quiet) refl)
        | inr quiet ↦ elim (Bool-cases w.self.reap_lock) [
          | inl taken ↦ idle (rw (quiet, taken, reap_if_quiet) refl)
          | inr free ↦
              simp (quiet, free)
                (subst (Waited m w) (sym (reap_locked_redis w))
                  (body w beats fresh before started lawful))
        ]
      ]
