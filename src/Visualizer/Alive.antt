-- ===== src/Visualizer/Alive.antt =====
-- The servers and the requests in flight of a snapshot, against what Redis has.
use anycall.Sets.{any}
use anycall.Prelude.{
  ℕ, ◌+◌, ◌≡◌, refl, sym, ap, ◌∙◌, arith, subst, Bool, true, false, ◌||◌, max, Option, none, some,
  List, [], ◌∷◌, map, leb, is_some, All, if◌then◌else◌, inl, inr, Bool-cases,
}
use anycall.Prelude.Int.{sub_ℕ}
use anycall.Text.{Text, ◌==◌}
use anycall.Text.Equality.{eq_iff, eq_self}
use anycall.Assoc.{lookup, Distinct}
use anycall.Errors.{ok}
use anycall.Queues.{inflight_key, heartbeat_key, heartbeat_ttl_seconds}
use anycall.Redis.{Redis, contains, passing}
use anycall.Exec.{alone, round_trip}
use anycall.Adapter.{micros}
use anycall.Adapter.Heartbeat.{alive_members_value}
use anycall.Visualizer.{ServerInfo, InflightInfo, ReapEstimate, Poller, View}
use anycall.Visualizer.Sorted.{sorted, insort}
use anycall.Visualizer.Seen.{latest_beat, told_estimate, estimate_reaping-fold_seen}
use anycall.Visualizer.Rows.{
  live_servers, by_id, owned, by_owner, with_estimates, server_ids, fold_seen,
}
use anycall.Visualizer.Estimate.{estimate_reaping}
use anycall.Visualizer.Collect.{collect_servers, collect_inflight, collect_live}

module _ {A : Type 0} (lt : A → A → Bool) where
  contains-insort :
      (f : A → Text) (id : Text) (x : A) (xs : List A)
      → contains id (map f (insort lt x xs)) ≡ (if f x == id then true else contains id (map f xs))
  unfolding insort
  contains-insort f id x [] = refl
  contains-insort f id x (y ∷ ys) = ground (arith, contains-insort f id x ys)

  contains-sorted :
      (f : A → Text) (id : Text) (xs : List A)
      → contains id (map f (sorted lt xs)) ≡ contains id (map f xs)
  unfolding sorted
  contains-sorted f id [] = refl
  contains-sorted f id (x ∷ xs) =
      ground (arith, contains-insort f id x (sorted lt xs), contains-sorted f id xs)

  All-insort : (P : A → Type 0) (x : A) (xs : List A) → P x → All P xs → All P (insort lt x xs)
  unfolding insort
  All-insort P x [] px h = (px, tt)
  All-insort P x (y ∷ ys) px (py, h) = elim (Bool-cases (lt y x)) [
    | inl below ↦ rw below (py, All-insort P x ys px h)
    | inr above ↦ rw above (px, (py, h))
  ]

  pub All-sorted : (P : A → Type 0) (xs : List A) → All P xs → All P (sorted lt xs)
  unfolding sorted
  All-sorted P [] h = tt
  All-sorted P (x ∷ xs) (px, h) = All-insort P x (sorted lt xs) px (All-sorted P xs h)

abbrev pub recent : ℕ → ℕ → Bool
recent now score = leb now (score + micros heartbeat_ttl_seconds)

contains-live_servers :
    (now : ℕ) (id : Text) (members : List (Text × ℕ))
    → Distinct members
    → contains id (server_ids (live_servers now members)) ≡ passing (recent now) (lookup id members)
unfolding live_servers lookup
contains-live_servers now id [] h = refl
contains-live_servers now id ((member, score) ∷ members) h =
    ground (arith, eq_iff member id, h.0, contains-live_servers now id members h.1)

abbrev pub request_ids : List InflightInfo → List Text
request_ids es = map (λ e. e.request_id) es

contains-owned :
    (id : Text) (alive : List Text) (owners : List (Text × Text))
    → contains id (request_ids (owned alive owners)) ≡ is_some (lookup id owners)
unfolding owned lookup
contains-owned id alive [] = refl
contains-owned id alive ((request_id, owner) ∷ owners) =
    ground (arith, contains-owned id alive owners)

contains-with_estimates :
    (id : Text) (estimate : ReapEstimate) (es : List InflightInfo)
    → contains id (request_ids (with_estimates estimate es)) ≡ contains id (request_ids es)
unfolding with_estimates
contains-with_estimates id estimate [] = refl
contains-with_estimates id estimate (e ∷ es) =
    ground (arith, contains-with_estimates id estimate es)

-- A row says whether its owner is among the live servers, and estimates the end of orphans only.
pub record Fits (alive : List Text) (estimate : ReapEstimate) (e : InflightInfo) : Type 0 where
  pub liveness : e.owner_alive ≡ contains e.owner alive
  pub estimated : e.reap ≡ (if e.owner_alive then none else some estimate)

abbrev pub Plain : List Text → InflightInfo → Type 0
Plain alive e = (e.owner_alive ≡ contains e.owner alive) × (e.reap ≡ none)

pub owned-Plain :
    (alive : List Text) (owners : List (Text × Text)) → All (Plain alive) (owned alive owners)
unfolding owned
owned-Plain alive [] = tt
owned-Plain alive ((request_id, owner) ∷ owners) = ((refl, refl), owned-Plain alive owners)

All-if :
    {A : Type 0} (P : A → Type 0) (b : Bool) {x y : A} (xs : List A)
    → (b ≡ true → P x)
    → (b ≡ false → P y)
    → All P xs
    → All P (if b then x ∷ xs else y ∷ xs)
All-if P true xs px py h = (px refl, h)
All-if P false xs px py h = (py refl, h)

pub with_estimates-Fits :
    (alive : List Text) (estimate : ReapEstimate) (es : List InflightInfo)
    → All (Plain alive) es
    → All (Fits alive estimate) (with_estimates estimate es)
unfolding with_estimates
with_estimates-Fits alive estimate [] h = tt
with_estimates-Fits alive estimate (e ∷ es) (plain, h) =
    All-if (Fits alive estimate) e.owner_alive _
      (λ living. record { liveness = plain.0; estimated = rw living plain.1 })
      (λ orphan. record { liveness = plain.0; estimated = rw orphan refl })
      (with_estimates-Fits alive estimate es h)

-- A row names the owner that a hash has for its request.
abbrev pub Owns : (Text → Option Text) → InflightInfo → Type 0
Owns hash e = hash e.request_id ≡ some e.owner

owned-Owns :
    (hash : Text → Option Text) (alive : List Text) (owners : List (Text × Text))
    → Distinct owners
    → ((id owner : Text) → lookup id owners ≡ some owner → hash id ≡ some owner)
    → All (Owns hash) (owned alive owners)
unfolding owned lookup
owned-Owns hash alive [] apart in_hash = tt
owned-Owns hash alive ((request_id, owner) ∷ owners) (new, apart) in_hash = (
  in_hash request_id owner (rw (eq_self request_id) refl),
  owned-Owns hash alive owners apart
      (λ id other later. in_hash id other (ground (arith, eq_iff request_id id, new, later))),
)

with_estimates-Owns :
    (hash : Text → Option Text) (estimate : ReapEstimate) (es : List InflightInfo)
    → All (Owns hash) es
    → All (Owns hash) (with_estimates estimate es)
unfolding with_estimates
with_estimates-Owns hash estimate [] h = tt
with_estimates-Owns hash estimate (e ∷ es) (here, h) =
    All-if (Owns hash) e.owner_alive _ (λ living. here) (λ orphan. here)
      (with_estimates-Owns hash estimate es h)

module _ (R : Redis) (V : View R) where
  open R use {State, time, contents, hgetall, hgetall_value, hgetall_distinct, zrangebyscore}
  open V use {zscores, zscores_value, zscores_distinct}

  -- What a collection leaves in `last_seen`.
  abbrev pub seen_after : State → Poller → List (Text × ℕ)
  seen_after s p = fold_seen p.last_seen (zscores heartbeat_key s)

  abbrev pub servers_of : State → List ServerInfo
  servers_of s = sorted by_id (live_servers (time s) (zscores heartbeat_key s))

  abbrev pub rows_of : State → Poller → List InflightInfo
  rows_of s p =
      with_estimates (estimate_reaping (any (servers_of s)) (seen_after s p) (time s))
        (sorted by_owner (owned (server_ids (servers_of s)) (hgetall inflight_key s)))

  -- The estimate that the latest of all heartbeats gives, seen before or in Redis now.
  abbrev pub told : State → Poller → List ServerInfo → ReapEstimate
  told s p servers =
      let beats = zscores heartbeat_key s in
      told_estimate (any servers) (any p.last_seen || any beats)
        (max (latest_beat p.last_seen) (latest_beat beats)) (time s)

  collect_live_run :
      (s : State) (clock : ℕ) (p : Poller)
      → (collect_live R V (alone s clock p)).0 ≡ ok (servers_of s, rows_of s p)
  unfolding collect_live collect_servers collect_inflight round_trip
  collect_live_run s clock p = refl

  -- Over a working connection and with no interference, the servers of a snapshot are those that a
  -- client's `alive_members` names at that time, and its requests are those of the in-flight hash,
  -- each with the owner that the hash names. A row says whether its owner is among these servers.
  -- It has an estimate exactly if it is not: from now until a heartbeat period from now if some
  -- server is alive, unknown if no heartbeat was ever seen, and else a TTL after the latest of all
  -- heartbeats, those that the poller had seen before and those in Redis now, until the quiet time
  -- and a slice of a waiting client later.
  pub collect_live_lem :
      (s : State) (clock : ℕ) (p : Poller)
      → (servers : List ServerInfo) × (inflight : List InflightInfo) × ((collect_live R V
            (alone s clock p)).0
          ≡ ok (servers, inflight))
        × ((id : Text)
            → contains id (server_ids servers)
              ≡ contains id
                  (zrangebyscore heartbeat_key (sub_ℕ (time s) (micros heartbeat_ttl_seconds)) s))
        × ((id : Text)
            → contains id (request_ids inflight) ≡ is_some ((contents s).hash inflight_key id))
        × All (Owns ((contents s).hash inflight_key)) inflight
        × All (Fits (server_ids servers) (told s p servers)) inflight
  collect_live_lem s clock p = (
    servers_of s,
    rows_of s p,
    collect_live_run s clock p,
    (λ id.
        contains-sorted by_id (λ r. r.server_id) id
          (live_servers (time s) (zscores heartbeat_key s))
        ∙ contains-live_servers (time s) id (zscores heartbeat_key s)
            (zscores_distinct heartbeat_key s)
        ∙ ap (passing (recent (time s))) (zscores_value heartbeat_key id s)
        ∙ sym (alive_members_value R heartbeat_key heartbeat_ttl_seconds id (time s) s)),
    (λ id.
        contains-with_estimates id _
          (sorted by_owner (owned (server_ids (servers_of s)) (hgetall inflight_key s)))
        ∙ contains-sorted by_owner (λ r. r.request_id) id
            (owned (server_ids (servers_of s)) (hgetall inflight_key s))
        ∙ contains-owned id (server_ids (servers_of s)) (hgetall inflight_key s)
        ∙ ap is_some (hgetall_value inflight_key id s)),
    with_estimates-Owns _ _ _ (
        All-sorted by_owner _ _ (
          owned-Owns ((contents s).hash inflight_key) _ (hgetall inflight_key s)
            (hgetall_distinct inflight_key s)
            (λ id owner found. sym (hgetall_value inflight_key id s) ∙ found))),
    subst (λ estimate. All (Fits (server_ids (servers_of s)) estimate) (rows_of s p))
        (estimate_reaping-fold_seen (any (servers_of s)) p.last_seen (zscores heartbeat_key s)
          (time s))
        (with_estimates-Fits _ _ _
          (All-sorted by_owner _ _ (owned-Plain _ (hgetall inflight_key s)))),
  )
