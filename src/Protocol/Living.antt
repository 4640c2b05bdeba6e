-- ===== src/Protocol/Living.antt =====
-- The living servers that a waiting client of client.py reads, and what they say of the owners that
-- it read before.
use anycall.Prelude.{ℕ, ◌≤◌, ◌≡◌, sym, ap, subst, ◌∙◌, arith, Option, List, [], inr}
use anycall.Prelude.Int.{sub_ℕ}
use anycall.Text.{Text}
use anycall.Assoc.{lookup}
use anycall.Errors.{Result, ok, err}
use anycall.Queues.{inflight_key, heartbeat_key, heartbeat_ttl_seconds}
use anycall.Redis.{Redis, contains}
use anycall.Exec.{World, Exec, round_trip, continue}
use anycall.Adapter.{alive_members, micros}
use anycall.Client.{Client}
use anycall.Protocol.{Traffic, Run, here}
use anycall.Protocol.Traced.{Steady, Started, Started-Run, Run-trans, Run-time, Follow, AllLawful}
use anycall.Protocol.Traced.Replies.{Answered, round_trip-Answered}
use anycall.Protocol.Reaped.{Fresh, unbeaten, reaped_only_if_silent}
use anycall.Protocol.Ticks.{Dead}

module _ (R : Redis) (steady : Steady R) (ids : List Text) where
  open R use {State, time, hgetall, zrangebyscore}

  -- What a list of living servers says of the owners.
  abbrev pub Living :
      Traffic R → List (Text × Text) → Result (List Text) → World State Client → Type 0
  Living m owners (ok alive) v = Dead R steady ids m owners alive v.redis
  Living m owners (err e) v = Unit {0}

  module _ {s : State} (fresh : Fresh R s) {m : Traffic R} (before : Run R (unbeaten R s) m)
      (started : Started ids m.beats) where
    -- The range, with a time that is not ahead.
    ranged :
        (owners : List (Text × Text)) (now : ℕ) (n : Traffic R)
        → Run R m n
        → owners ≡ hgetall inflight_key m.redis
        → now ≤ time n.redis
        → (r : Result (List Text)) (w : World State Client)
        → Answered R ids
            (λ s. (zrangebyscore heartbeat_key (sub_ℕ now (micros heartbeat_ttl_seconds)) s, s))
            n
            r
            w
        → Living m owners r w
    ranged owners now n run read past (ok alive) w h = record {
      at = h.at;
      run = Run-trans R run h.run;
      rest = subst (Follow R ids h.at) (sym h.after) (record { beats = h.at.beats; run = here });
      silent = λ id owner owned absent.
          reaped_only_if_silent R fresh before (Run-trans R run h.run) id owner [] now
            (ap (lookup id) (sym read) ∙ owned) (omega (arith, past, Run-time R h.run))
            (inr (ap (contains owner) (sym h.reply) ∙ absent));
    }
    ranged owners now n run read past (err e) w h = tt

    abbrev range : ℕ → Exec State Client (List Text)
    range now =
        round_trip
          (λ s. (zrangebyscore heartbeat_key (sub_ℕ now (micros heartbeat_ttl_seconds)) s, s))

    timed :
        (owners : List (Text × Text))
        → owners ≡ hgetall inflight_key m.redis
        → (r : Result ℕ) (w : World State Client) → Answered R ids (λ s. (time s, s)) m r w
        → let x = continue r range w in Living m owners x.0 x.1
    timed owners read (ok now) w h =
        let to : Run R m (record { redis = w.redis; beats = h.at.beats }) =
          subst (λ t. Run R m (record { redis = t; beats = h.at.beats })) (sym h.after) h.run in
        let x = range now w in
        ranged owners now (record { redis = w.redis; beats = h.at.beats }) to read
          (subst (λ t. now ≤ time t) (sym h.after) (omega (arith, h.reply))) x.0 x.1
          (round_trip-Answered R ids _ w h.at.beats (Started-Run R ids to started) h.lawful)
    timed owners read (err e) w h = tt

  pub alive_members-Living :
      {s : State} (u : World State Client) (beats : Text → Option ℕ) (owners : List (Text × Text))
      → Fresh R s
      → Run R (unbeaten R s) (record { redis = u.redis; beats = beats })
      → Started ids beats
      → AllLawful R ids u.turns
      → owners ≡ hgetall inflight_key u.redis
      → let x = alive_members R heartbeat_key heartbeat_ttl_seconds u in
        Living (record { redis = u.redis; beats = beats }) owners x.0 x.1
  unfolding alive_members
  alive_members-Living u beats owners fresh before started lawful now =
      let x = round_trip (λ s. (time s, s)) u in
      timed fresh before started owners now x.0 x.1
        (round_trip-Answered R ids (λ s. (time s, s)) u beats started lawful)
