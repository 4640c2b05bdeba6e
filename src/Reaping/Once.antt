-- ===== src/Reaping/Once.antt =====
-- Two runs of `reap_orphans` of reaping.py.
use anycall.Prelude.{
  ℕ, ◌≡◌, refl, sym, ap, ◌∙◌, fun_ext, false, Option, none, List, [], ◌∷◌, arith, inl, inr,
  Bool-cases, if◌then◌else◌,
}
use anycall.Text.{Text}
use anycall.Text.Equality.{eq_self, eq_iff}
use anycall.Errors.{ok}
use anycall.Queues.{inflight_key}
use anycall.Redis.{Redis, Data, update, contains}
use anycall.Exec.{alone}
use anycall.Reaping.{reap_orphans}
use anycall.Reaping.Effect.{reap_entry, reap_spec, reap_orphans_effect}
use anycall.Reaping.Claims.{entry_hash}

abbrev Gone : Text → Data → Type 0
Gone id d = d.hash inflight_key id ≡ none

-- No entry is left for any orphan of the list.
abbrev Done : List (Text × Text) → List Text → Data → Type 0
Done [] alive d = Unit {0}
Done ((id, owner) ∷ owners) alive d =
    (contains owner alive ≡ false → Gone id d) × Done owners alive d

reap_entry-Gone : (id owner : Text) (d : Data) → Gone id d → reap_entry id owner d ≡ d
reap_entry-Gone id owner d h =
    rw (h, reap_entry) (ap with_hash (fun_ext λ k. fun_ext λ f. same k f))
  where
    with_hash : (Text → Text → Option Text) → Data
    with_hash hash = record d { hash = hash }

    same :
        (k f : Text)
        → update d.hash inflight_key (update (d.hash inflight_key) id none) k f ≡ d.hash k f
    same k f = ground (arith, eq_iff inflight_key k, eq_iff id f)

Gone-entry : (id k owner : Text) (d : Data) → Gone id d → Gone id (reap_entry k owner d)
Gone-entry id k owner d h = ground (arith, entry_hash k id owner d)

Gone-spec :
    (id : Text) (owners : List (Text × Text)) (alive : List Text) (d : Data)
    → Gone id d
    → Gone id (reap_spec owners alive d)
Gone-spec id [] alive d h = h
Gone-spec id ((k, owner) ∷ owners) alive d h =
    Gone-spec id owners alive (if contains owner alive then d else reap_entry k owner d)
      (ground (arith, Gone-entry id k owner d h))

Done-entry :
    (owners : List (Text × Text)) (alive : List Text) (d : Data)
    → Done owners alive (reap_spec owners alive d)
Done-entry [] alive d = tt
Done-entry ((k, owner) ∷ owners) alive d = (
  λ dead.
      Gone-spec k owners alive (if contains owner alive then d else reap_entry k owner d)
        (ground (arith, entry_hash k k owner d, eq_self k)),
  Done-entry owners alive (if contains owner alive then d else reap_entry k owner d),
)

reap_spec-Done :
    (owners : List (Text × Text)) (alive : List Text) (d : Data)
    → Done owners alive d
    → reap_spec owners alive d ≡ d
reap_spec-Done [] alive d h = refl
reap_spec-Done ((k, owner) ∷ owners) alive d h = elim (Bool-cases (contains owner alive)) [
  | inl lives ↦ rw lives (reap_spec-Done owners alive d h.1)
  | inr dead ↦ rw (dead, reap_entry-Gone k owner d (h.0 dead)) (reap_spec-Done owners alive d h.1)
]

-- Two reapers, one after the other, with the same owners and the same live servers and a working
-- connection leave in Redis what the first one leaves.
pub second_reaper_adds_nothing :
    (R : Redis) {L : Type 0} (owners : List (Text × Text)) (alive : List Text) (s : R.State)
    (clock : ℕ) (self : L)
    → let first = reap_orphans R owners alive (alone s clock self) in
      let second = reap_orphans R owners alive first.1 in
      (second.0 ≡ ok tt) × (R.contents second.1.redis ≡ R.contents first.1.redis)
second_reaper_adds_nothing R owners alive s clock self =
    let (s1, first, stored1) = reap_orphans_effect R owners alive s clock self in
    let (s2, second, stored2) = reap_orphans_effect R owners alive s1 clock self in
    rw (first, second)
      (
        refl,
        stored2
            ∙ ap (reap_spec owners alive) stored1
            ∙ reap_spec-Done owners alive _ (Done-entry owners alive (R.contents s))
            ∙ sym stored1,
      )
