-- ===== src/Reaping/Faults.antt =====
-- `reap_orphans` of reaping.py over a connection that fails.
use anycall.Prelude.{ℕ, zero, ◌≡◌, refl, none, some, List, [], ◌∷◌, inl, inr, Bool-cases}
use anycall.Text.{Text}
use anycall.Text.Equality.{eq_self}
use anycall.Errors.{ok}
use anycall.Serialization.{serialize}
use anycall.Queues.{inflight_key, response_queue}
use anycall.Redis.{Redis, contains}
use anycall.Exec.{World, Turn, Failure, answered, cut, round_trip, pipeline, run_first, ◌>>=◌}
use anycall.Exec.Caught.{catch_ok}
use anycall.Adapter.{release_inflight, respond}
use anycall.Reaping.{fail_back, reap_one, reap_orphans}

module _ (R : Redis) {L : Type 0} where
  open R use {State, contents, hdel, hdel_value, contents-hdel}

  reap_one_ok : (id owner : Text) (w : World State L) → (reap_one R id owner w).0 ≡ ok tt
  unfolding reap_one
  reap_one_ok id owner w = catch_ok (release_inflight R inflight_key id >>= fail_back R id owner) w

  -- Whatever fails and whatever others do meanwhile, reaping returns normally.
  pub reap_orphans_ok :
      (owners : List (Text × Text)) (alive : List Text) (w : World State L)
      → (reap_orphans R owners alive w).0 ≡ ok tt
  unfolding reap_orphans
  reap_orphans_ok [] alive w = refl
  reap_orphans_ok ((id, owner) ∷ owners) alive w = elim (Bool-cases (contains owner alive)) [
    | inl lives ↦ rw lives (reap_orphans_ok owners alive w)
    | inr dead ↦
        rw (dead, reap_one_ok id owner w) (reap_orphans_ok owners alive (reap_one R id owner w).1)
  ]

  -- A reaper whose claim succeeds and whose connection is then cut before the push leaves the
  -- request with no in-flight entry and its response queue as it was.
  pub claimed_then_cut :
      (id owner o : Text) (e : Failure) (s : State) (clock later : ℕ) (self : L)
      (rest : List (Turn State))
      → (contents s).hash inflight_key id ≡ some o
      → let claim : Turn State = record { others = λ t. t; elapsed = later; fault = answered } in
        let push : Turn State = record { others = λ t. t; elapsed = later; fault = cut zero e } in
        let w : World State L = record {
          redis = s;
          clock = clock;
          turns = claim ∷ push ∷ rest;
          self = self;
        } in
        let w' = (reap_one R id owner w).1 in
        ((contents w'.redis).hash inflight_key id ≡ none)
        × ((contents w'.redis).list (response_queue id) ≡ (contents s).list (response_queue id))
  unfolding reap_one release_inflight round_trip serialize respond pipeline run_first
  claimed_then_cut id owner o e s clock later self rest there =
      rw (hdel_value inflight_key id s, there)
        (rw (contents-hdel inflight_key id s, eq_self inflight_key, eq_self id) (refl, refl))
