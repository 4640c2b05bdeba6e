-- ===== src/Reaping/Claims.antt =====
-- Which requests `reap_orphans` of reaping.py fails back.
use anycall.Prelude.{
  ℕ, ◌≡◌, refl, ◌∙◌, false, Option, none, some, List, [], ◌∷◌, arith, inl, inr, Option-cases,
  Bool-cases, if◌then◌else◌,
}
use anycall.Text.{Text, ◌==◌}
use anycall.Text.Equality.{eq_self, eq_iff, eq→path}
use anycall.Assoc.{lookup, Distinct}
use anycall.Errors.{ok}
use anycall.Queues.{inflight_key, response_queue}
use anycall.Queues.Keys.{response_queue_eq}
use anycall.Redis.{Redis, Data, contains}
use anycall.Exec.{alone}
use anycall.Reaping.{reap_orphans}
use anycall.Reaping.Effect.{lost_text, reap_entry, reap_spec, reap_orphans_effect}

abbrev pub entry_of : Text → Data → Option Text
entry_of id d = d.hash inflight_key id

abbrev pub queue_of : Text → Data → List Text
queue_of id d = d.list (response_queue id)

-- The response queue of a request that is an orphan, if its owner is not alive.
abbrev pub answered : Text → Text → Data → List Text
answered id owner d = elim (d.hash inflight_key id) [
  | none ↦ d.list (response_queue id)
  | some o ↦ lost_text id owner ∷ d.list (response_queue id)
]

abbrev pub expected_queue : Text → List Text → Option Text → Data → List Text
expected_queue id alive none d = d.list (response_queue id)
expected_queue id alive (some owner) d =
    if contains owner alive then d.list (response_queue id) else answered id owner d

abbrev pub expected_entry : Text → List Text → Option Text → Data → Option Text
expected_entry id alive none d = d.hash inflight_key id
expected_entry id alive (some owner) d =
    if contains owner alive then d.hash inflight_key id else none

entry_queue :
    (k id owner : Text) (d : Data)
    → queue_of id (reap_entry k owner d) ≡ (if k == id then answered id owner d else queue_of id d)
entry_queue k id owner d =
    ground (arith, response_queue_eq k id, eq_iff k id, eq_self (response_queue id))

pub entry_hash :
    (k id owner : Text) (d : Data)
    → entry_of id (reap_entry k owner d) ≡ (if k == id then none else entry_of id d)
entry_hash k id owner d = elim (Option-cases (d.hash inflight_key k)) [
  | inl gone ↦ rw (gone, reap_entry, eq_self inflight_key) refl
  | inr (o, there) ↦ rw (there, reap_entry, eq_self inflight_key) refl
]

-- What is left to do for a request when the reaper comes to it does not depend on the others.
expected_queue_skip :
    (id : Text) (owners : List (Text × Text)) (alive : List Text) (k owner : Text) (d : Data)
    → (k == id) ≡ false
    → expected_queue id alive
        (lookup id owners)
        (if contains owner alive then d else reap_entry k owner d)
      ≡ expected_queue id alive (lookup id owners) d
expected_queue_skip id owners alive k owner d other =
    ground (arith, entry_queue k id owner d, entry_hash k id owner d)

spec_queue :
    (id : Text) (owners : List (Text × Text)) (alive : List Text) (d : Data)
    → Distinct owners
    → queue_of id (reap_spec owners alive d) ≡ expected_queue id alive (lookup id owners) d
unfolding lookup
spec_queue id [] alive d u = refl
spec_queue id ((k, owner) ∷ owners) alive d u = elim (Bool-cases (k == id)) [
  | inl same ↦
      let missing : lookup id owners ≡ none = rw (eq→path k id same) at (u.0) in
      rw same (
        spec_queue id owners alive (if contains owner alive then d else reap_entry k owner d) u.1
        ∙ rw missing (ground (arith, entry_queue k id owner d)))
  | inr other ↦ rw other (
      spec_queue id owners alive (if contains owner alive then d else reap_entry k owner d) u.1
      ∙ expected_queue_skip id owners alive k owner d other)
]

expected_entry_skip :
    (id : Text) (owners : List (Text × Text)) (alive : List Text) (k owner : Text) (d : Data)
    → (k == id) ≡ false
    → expected_entry id alive
        (lookup id owners)
        (if contains owner alive then d else reap_entry k owner d)
      ≡ expected_entry id alive (lookup id owners) d
expected_entry_skip id owners alive k owner d other = ground (arith, entry_hash k id owner d)

spec_entry :
    (id : Text) (owners : List (Text × Text)) (alive : List Text) (d : Data)
    → Distinct owners
    → entry_of id (reap_spec owners alive d) ≡ expected_entry id alive (lookup id owners) d
unfolding lookup
spec_entry id [] alive d u = refl
spec_entry id ((k, owner) ∷ owners) alive d u = elim (Bool-cases (k == id)) [
  | inl same ↦
      let missing : lookup id owners ≡ none = rw (eq→path k id same) at (u.0) in
      rw same (
        spec_entry id owners alive (if contains owner alive then d else reap_entry k owner d) u.1
        ∙ rw missing (ground (arith, entry_hash k id owner d)))
  | inr other ↦ rw other (
      spec_entry id owners alive (if contains owner alive then d else reap_entry k owner d) u.1
      ∙ expected_entry_skip id owners alive k owner d other)
]

-- With a working connection and no interference, and owners listed once each, reaping fails back
-- exactly the requests whose owner is listed, is not alive and whose entry is still there: each
-- gets one server-lost error and loses its entry; every other request keeps its responses and its
-- entry.
pub reap_exactly_orphans :
    (R : Redis) {L : Type 0} (owners : List (Text × Text)) (alive : List Text) (s : R.State)
    (clock : ℕ) (self : L)
    → Distinct owners
    → let (r, w) = reap_orphans R owners alive (alone s clock self) in
      (r ≡ ok tt)
      × ((id : Text)
          → ((R.contents w.redis).list (response_queue id)
              ≡ expected_queue id alive (lookup id owners) (R.contents s))
            × ((R.contents w.redis).hash inflight_key id
                ≡ expected_entry id alive (lookup id owners) (R.contents s)))
reap_exactly_orphans R owners alive s clock self u =
    let (s', run, stored) = reap_orphans_effect R owners alive s clock self in
    rw (run, stored)
      (
        refl,
        λ id. (
          spec_queue id owners alive (R.contents s) u,
          spec_entry id owners alive (R.contents s) u,
        ),
      )
