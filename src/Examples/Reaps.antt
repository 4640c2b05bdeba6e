-- ===== src/Examples/Reaps.antt =====
-- Runs of the theorems on reaping.
use anycall.Prelude.{◌≡◌, refl, none, [], ◌∷◌}
use anycall.Text.{◌==◌}
use anycall.Assoc.{lookup}
use anycall.Errors.{ok}
use anycall.Queues.{inflight_key, response_queue}
use anycall.Redis.Memory.{Memory, memory, stored}
use anycall.Exec.{World, Turn, lost, answered, cut, alone}
use anycall.Reaping.{reap_one, reap_orphans}
use anycall.Reaping.Once.{second_reaper_adds_nothing}
use anycall.Reaping.Faults.{claimed_then_cut}
use anycall.Examples.{id_1, dead, live, two_owners, crashed}

second_reaper_adds_nothing_example :
    let first = reap_orphans memory two_owners (live ∷ []) (alone crashed 5 (tt {0})) in
    let second = reap_orphans memory two_owners (live ∷ []) first.1 in
    (second.0 ≡ ok tt) × (stored second.1.redis ≡ stored first.1.redis)
second_reaper_adds_nothing_example =
    second_reaper_adds_nothing memory two_owners (live ∷ []) crashed 5 tt

-- Others rob the reaper of its first claim, and its connection is lost.
abbrev unlucky : World Memory (Unit {0})
unlucky = record {
  redis = crashed;
  clock = 5;
  turns =
      record { others = λ s. (memory.hdel inflight_key id_1 s).1; elapsed = 3; fault = cut 1 lost }
      ∷ [];
  self = tt;
}

claimed_then_cut_example :
    let claim : Turn Memory = record { others = λ t. t; elapsed = 1; fault = answered } in
    let push : Turn Memory = record { others = λ t. t; elapsed = 1; fault = cut 0 lost } in
    let w : World Memory (Unit {0}) = record {
      redis = crashed;
      clock = 5;
      turns = claim ∷ push ∷ [];
      self = tt;
    } in
    let w' = (reap_one memory id_1 dead w).1 in
    ((stored w'.redis).hash inflight_key id_1 ≡ none)
    × ((stored w'.redis).list (response_queue id_1) ≡ (stored crashed).list (response_queue id_1))
unfolding lookup ◌==◌
claimed_then_cut_example = claimed_then_cut memory id_1 dead dead lost crashed 5 1 tt [] refl
