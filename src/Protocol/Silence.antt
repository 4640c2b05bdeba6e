-- ===== src/Protocol/Silence.antt =====
-- What the heartbeats in Redis say about the owners of requests.
use anycall.Prelude.{
  ℕ, ◌+◌, ◌≤◌, ◌<◌, ◌≡◌, refl, ◌∙◌, arith, true, false, Option, none, some, List, [], is_some, inl,
  inr, Bool-cases,
}
use anycall.Prelude.Int.{sub_ℕ, at_most, at_most-sub_ℕ}
use anycall.Text.{Text, ◌==◌}
use anycall.Text.Equality.{eq_self, eq_iff, ne→false}
use anycall.Queues.{inflight_key, heartbeat_key, heartbeat_ttl_seconds, response_queue}
use anycall.Queues.Keys.{responses, heartbeats, key_text-injective}
use anycall.Redis.{Data, update, drop_passing}
use anycall.Adapter.{micros}
use anycall.Adapter.Acquire.{with_owner}
use anycall.Adapter.Respond.{pushed, released}

-- The owner of a request has heartbeaten, and the last heartbeat of a server stands in the sorted
-- set until it is a TTL old.
pub record Known (d : Data) (now : ℕ) (beats : Text → Option ℕ) : Type 0 where
  pub owner_beat :
      (id owner : Text) → d.hash inflight_key id ≡ some owner → is_some (beats owner) ≡ true
  pub past : (server_id : Text) (last : ℕ) → beats server_id ≡ some last → last ≤ now
  pub stands :
      (server_id : Text) (last : ℕ)
      → beats server_id ≡ some last
      → now < last + micros heartbeat_ttl_seconds
      → d.zset heartbeat_key server_id ≡ some last

-- What drops entries of the in-flight hash at most, and leaves the heartbeats alone, keeps this.
pub record Quiet (d e : Data) : Type 0 where
  pub drops :
      (id owner : Text) → e.hash inflight_key id ≡ some owner → d.hash inflight_key id ≡ some owner
  pub same : (server_id : Text) → e.zset heartbeat_key server_id ≡ d.zset heartbeat_key server_id

pub Quiet-Known :
    {d e : Data} {now later : ℕ} {beats : Text → Option ℕ}
    → Quiet d e
    → now ≤ later
    → Known d now beats
    → Known e later beats
Quiet-Known {now = now} {later = later} q le k = record {
  owner_beat = λ id owner h. k.owner_beat id owner (q.drops id owner h);
  past = λ server_id last h. omega (arith, le, k.past server_id last h);
  stands = λ server_id last h fresh.
      q.same server_id ∙ k.stands server_id last h (omega (arith, le, fresh));
}

pub Quiet-lists : (d e : Data) (list : Text → List Text) → e ≡ record d { list = list } → Quiet d e
Quiet-lists d e list h = rw h (record { drops = λ id owner there. there; same = λ server_id. refl })

pub Quiet-self : (d e : Data) → e ≡ d → Quiet d e
Quiet-self d e h = rw h (record { drops = λ id owner there. there; same = λ server_id. refl })

pub Quiet-released :
    (queue value id : Text) (d : Data) → Quiet d (released inflight_key id (pushed queue value d))
Quiet-released queue value id d = elim (Bool-cases (id == [])) [
  | inl anonymous ↦
      rw anonymous (record { drops = λ i owner there. there; same = λ server_id. refl })
  | inr named ↦ rw named (record {
    drops = λ i owner there. ground (arith, eq_self inflight_key, eq_iff id i);
    same = λ server_id. refl;
  })
]

pub response_queue-ne : (request_id : Text) → (response_queue request_id == heartbeat_key) ≡ false
response_queue-ne request_id =
    ne→false _ _ (λ h. cc (key_text-injective (responses request_id) heartbeats h))

kept_fresh :
    (now ttl last : ℕ)
    → now < last + ttl
    → drop_passing (at_most (sub_ℕ now ttl)) (some last) ≡ some last
kept_fresh now ttl last h = ground (arith, at_most-sub_ℕ now ttl last)

pub beat_past :
    (me server_id : Text) (last now later : ℕ) (beats : Text → Option ℕ)
    → now ≤ later
    → (beats server_id ≡ some last → last ≤ now)
    → update beats me (some now) server_id ≡ some last
    → last ≤ later
beat_past me server_id last now later beats le old h = ground (arith, le, old)

pub beat_stands :
    (me server_id : Text) (last now later : ℕ) (beats scores : Text → Option ℕ)
    → now ≤ later
    → (beats server_id ≡ some last
        → now < last + micros heartbeat_ttl_seconds
        → scores server_id ≡ some last)
    → update beats me (some now) server_id ≡ some last
    → later < last + micros heartbeat_ttl_seconds
    → drop_passing
        (at_most (sub_ℕ now (micros heartbeat_ttl_seconds)))
        (update scores me (some now) server_id)
      ≡ some last
beat_stands me server_id last now later beats scores le old h fresh =
    elim (Bool-cases (me == server_id)) [
      | inl own ↦
          let e = rw own at h in
          rw own (kept_fresh now (micros heartbeat_ttl_seconds) now (omega arith) ∙ e)
      | inr other ↦
          let b = rw other at h in
          rw (other, old b (omega (arith, le, fresh)))
            (kept_fresh now (micros heartbeat_ttl_seconds) last (omega (arith, le, fresh)))
    ]

pub with_owner-Known :
    (o : Option Text) (owner : Text) (d : Data) (list : Text → List Text) (now later : ℕ)
    (beats : Text → Option ℕ)
    → is_some (beats owner) ≡ true
    → now ≤ later
    → Known d now beats
    → Known (record d { list = list; hash = with_owner inflight_key owner o d.hash }) later beats
with_owner-Known none owner d list now later beats started le k =
    Quiet-Known (Quiet-lists d _ list refl) le k
with_owner-Known (some taken) owner d list now later beats started le k = record {
  owner_beat = λ id o there. ground (arith, started, k.owner_beat id o, eq_self inflight_key);
  past = λ server_id last b. omega (arith, le, k.past server_id last b);
  stands = λ server_id last b fresh. k.stands server_id last b (omega (arith, le, fresh));
}
