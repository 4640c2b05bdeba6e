-- ===== src/Protocol/Reaped.antt =====
-- Whom `reap_orphans` of reaping.py, as `_heartbeat_tick` of server.py and `_reap_if_quiet` of
-- client.py call it, takes for dead: the owners that were read from the in-flight hash and are not
-- among the members that were read afterwards.
use anycall.Prelude.{
  ℕ, ◌+◌, ◌≤◌, ◌<◌, ◌≡◌, sym, ◌∙◌, arith, Bool, true, false, Option, none, some, ltb, leb,
  if◌then◌else◌, ◌⊎◌, inl, inr, Option-cases,
}
use anycall.Prelude.Int.{sub_ℕ}
use anycall.Text.{Text, ◌==◌}
use anycall.Assoc.{lookup}
use anycall.Queues.{inflight_key, heartbeat_key, heartbeat_ttl_seconds}
use anycall.Redis.{Redis, contains, passing}
use anycall.Adapter.{heartbeat_script, micros}
use anycall.Adapter.Heartbeat.{heartbeat_alive, alive_members_value}
use anycall.Protocol.{Traffic, Run}
use anycall.Protocol.Kept.{KnownIn, Run-Known, beats-Run}

silent :
    (ttl : ℕ) (own : Bool) (now last : ℕ) {o : Option ℕ}
    → (now < last + ttl → o ≡ some last)
    → (if own then true else passing (λ score. ltb now (score + ttl)) o) ≡ false
    → last + ttl ≤ now
silent ttl own now last stands absent = ground (arith, stands)

silent_range :
    (ttl read now last : ℕ) {o : Option ℕ}
    → read ≤ now
    → (now < last + ttl → o ≡ some last)
    → passing (λ score. leb read (score + ttl)) o ≡ false
    → last + ttl ≤ now
silent_range ttl read now last le stands absent = ground (arith, le, stands)

module _ (R : Redis) where
  open R use {State, time, contents, hgetall, hgetall_value, zrangebyscore}

  -- Nobody has taken a request or heartbeaten yet.
  pub record Fresh (s : State) : Type 0 where
    pub nothing_owned : (id : Text) → (contents s).hash inflight_key id ≡ none

  abbrev pub unbeaten : State → Traffic R
  unbeaten s = record { redis = s; beats = λ _. none }

  start-Known : (s : State) → Fresh s → KnownIn R (unbeaten s)
  start-Known s fresh = record {
    owner_beat = λ id owner h. cc (fresh.nothing_owned id, h);
    past = λ server_id last h. cc h;
    stands = λ server_id last h f. cc h;
  }

  -- The owner's last heartbeat, whatever else has happened since the owners were read.
  last_beat :
      {s : State} {m n : Traffic R}
      → Fresh s
      → Run R (unbeaten s) m
      → Run R m n
      → (id owner : Text) → lookup id (hgetall inflight_key m.redis) ≡ some owner
      → (last : ℕ) × (n.beats owner ≡ some last)
        × (time n.redis < last + micros heartbeat_ttl_seconds
            → (contents n.redis).zset heartbeat_key owner ≡ some last)
  last_beat {m = m} {n = n} fresh before during id owner owned =
      let known = Run-Known R before (start-Known _ fresh) in
      let still = Run-Known R during known in
      let owns = sym (hgetall_value inflight_key id m.redis) ∙ owned in
      elim (Option-cases (n.beats owner)) [
        | inl never ↦ cc (never, beats-Run R owner during (known.owner_beat id owner owns))
        | inr (last, beaten) ↦ (last, beaten, still.stands owner last beaten)
      ]

  -- From a Redis in which no request has an owner, in any run of servers and clients in which the
  -- clock does not go back and a server takes requests only after a heartbeat: an owner read from
  -- the in-flight hash and later missing from a heartbeat's reply, or from the range that a client
  -- reads with a time that is not ahead, sent its last heartbeat a whole TTL ago.
  pub reaped_only_if_silent :
      {s : State} {m n : Traffic R}
      → Fresh s
      → Run R (unbeaten s) m
      → Run R m n
      → (id owner reaper : Text) (now : ℕ) → lookup id (hgetall inflight_key m.redis) ≡ some owner
      → now ≤ time n.redis
      → (contains owner (heartbeat_script R heartbeat_key reaper heartbeat_ttl_seconds n.redis).0.1
          ≡ false)
        ⊎ (contains owner
              (zrangebyscore heartbeat_key (sub_ℕ now (micros heartbeat_ttl_seconds)) n.redis)
            ≡ false)
      → (last : ℕ) × (n.beats owner ≡ some last)
        × (last + micros heartbeat_ttl_seconds ≤ time n.redis)
  reaped_only_if_silent {n = n} fresh before during id owner reaper now owned le absent =
      let (last, beaten, stands) = last_beat fresh before during id owner owned in
      let ttl = micros heartbeat_ttl_seconds in
      (
        last,
        beaten,
        elim absent [
          | inl by_server ↦ silent ttl (reaper == owner) (time n.redis) last stands (
              sym (
                heartbeat_alive R heartbeat_key heartbeat_ttl_seconds reaper owner n.redis
                  (omega arith))
              ∙ by_server)
          | inr by_client ↦ silent_range ttl now (time n.redis) last le stands (
              sym (alive_members_value R heartbeat_key heartbeat_ttl_seconds owner now n.redis)
              ∙ by_client)
        ],
      )
