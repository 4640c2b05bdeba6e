-- ===== src/Reaping/Effect.antt =====
-- What `reap_orphans` of reaping.py does to what is stored, with a working connection and no
-- interference.
use anycall.Prelude.{
  ℕ, ◌≡◌, refl, ap, ◌∙◌, none, some, List, [], ◌∷◌, inl, inr, Option-cases, Bool-cases,
  if◌then◌else◌,
}
use anycall.Text.{Text, ◌==◌}
use anycall.Errors.{ok}
use anycall.Model.Response
use anycall.Serialization.{serialize}
use anycall.Serialization.Wire.{response_text}
use anycall.Queues.{inflight_key, response_queue, response_ttl_seconds}
use anycall.Redis.{Redis, Data, update, contains}
use anycall.Exec.{alone, round_trip, pipeline, run_all}
use anycall.Adapter.{release_inflight, respond, respond_commands}
use anycall.Adapter.Respond.{pushed, respond_done}
use anycall.Reaping.{reap_one, reap_orphans}

-- The error that goes to the client of a lost server.
abbrev pub lost_text : Text → Text → Text
lost_text request_id owner = response_text (Response.server_lost request_id owner)

-- An entry that is still there becomes an error in its request's response queue.
abbrev pub fail_entry : Text → Text → Data → Data
fail_entry request_id owner d = record d {
  list =
      update d.list (response_queue request_id)
        (lost_text request_id owner ∷ d.list (response_queue request_id));
  hash = update d.hash inflight_key (update (d.hash inflight_key) request_id none);
}

abbrev pub reap_entry : Text → Text → Data → Data
reap_entry request_id owner d = elim (d.hash inflight_key request_id) [
  | none ↦ record d {
    hash = update d.hash inflight_key (update (d.hash inflight_key) request_id none);
  }
  | some o ↦ fail_entry request_id owner d
]

abbrev pub reap_spec : List (Text × Text) → List Text → Data → Data
reap_spec [] alive d = d
reap_spec ((request_id, owner) ∷ owners) alive d =
    reap_spec owners alive (if contains owner alive then d else reap_entry request_id owner d)

abbrev error_commands : (R : Redis) → Text → Text → List (R.State → R.State)
error_commands R request_id owner =
    respond_commands R (response_queue request_id) (lost_text request_id owner) response_ttl_seconds
      [] []

module _ (R : Redis) {L : Type 0} where
  open R use {State, contents, hdel, hdel_value, contents-hdel}

  reap_one_lem :
      (request_id owner : Text) (s : State) (clock : ℕ) (self : L)
      → (s' : State) × (reap_one R request_id owner (alone s clock self)
          ≡ (ok tt, alone s' clock self))
        × (contents s' ≡ reap_entry request_id owner (contents s))
  unfolding reap_one release_inflight round_trip serialize respond pipeline ◌==◌
  reap_one_lem request_id owner s clock self =
      elim (Option-cases ((contents s).hash inflight_key request_id)) [
        | inl gone ↦ (
          (hdel inflight_key request_id s).1,
          rw (hdel_value inflight_key request_id s, gone),
          rw (gone, reap_entry) (contents-hdel inflight_key request_id s),
        )
        | inr (o, there) ↦ (
          run_all (error_commands R request_id owner) (hdel inflight_key request_id s).1,
          rw (hdel_value inflight_key request_id s, there),
          rw (there, reap_entry)
              ((respond_done R (response_queue request_id) (lost_text request_id owner)
                  response_ttl_seconds [] [] (hdel inflight_key request_id s).1).0
                ∙ ap (pushed (response_queue request_id) (lost_text request_id owner))
                    (contents-hdel inflight_key request_id s)),
        )
      ]

  -- Alone and with a connection that works, a reaper turns each orphan that is still in the hash
  -- into one server-lost error, in order, and returns normally.
  pub reap_orphans_effect :
      (owners : List (Text × Text)) (alive : List Text) (s : State) (clock : ℕ) (self : L)
      → (s' : State) × (reap_orphans R owners alive (alone s clock self)
          ≡ (ok tt, alone s' clock self))
        × (contents s' ≡ reap_spec owners alive (contents s))
  unfolding reap_orphans
  reap_orphans_effect [] alive s clock self = (s, refl, refl)
  reap_orphans_effect ((request_id, owner) ∷ owners) alive s clock self =
      elim (Bool-cases (contains owner alive)) [
        | inl lives ↦
            let (s', run, stored) = reap_orphans_effect owners alive s clock self in
            (s', rw lives run, rw lives stored)
        | inr dead ↦
            let (s1, one, entry) = reap_one_lem request_id owner s clock self in
            let (s', run, stored) = reap_orphans_effect owners alive s1 clock self in
            (s', rw (dead, one) run, rw dead (stored ∙ ap (reap_spec owners alive) entry))
      ]
