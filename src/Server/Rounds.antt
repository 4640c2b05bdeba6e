-- ===== src/Server/Rounds.antt =====
-- Rounds of the loops of server.py.
use anycall.Prelude.{
  ℕ, zero, suc, ◌+◌, ◌≤◌, ◌≡◌, refl, ◌∙◌, arith, true, ◌&&◌, none, some, List, [], ◌∷◌, inl, inr,
  Bool-cases,
}
use anycall.Text.{Text, ◌==◌}
use anycall.Text.Equality.{eq_self, eq→path}
use anycall.Assoc.{lookup}
use anycall.Errors.{Result, ok, err}
use anycall.Redis.{Redis, contains}
use anycall.Exec.{World, Exec, pure, caught, continue, ◌>>◌}
use anycall.Reaping.Faults.{reap_orphans_ok}
use anycall.Server.{Server}
use anycall.Server.Loops.{
  has_room, with_room, methods_with_capacity, names_of, TickSnapshot, read_snapshot, after_snapshot,
  heartbeat_tick, heartbeat_period, emit_heartbeats, wait_bell, poll_available, poll_round,
}

contains-with_room :
    (s : Server) (name : Text) (names : List Text)
    → contains name (with_room s names)
      ≡ (contains name names && has_room s (lookup name s.method_limiters))
unfolding with_room
contains-with_room s name [] = refl
contains-with_room s name (other ∷ names) = elim (Bool-cases (other == name)) [
  | inl same ↦
      rw (eq→path other name same, eq_self name)
        (ground (arith, contains-with_room s name names, eq_self name))
  | inr differ ↦ ground (arith, differ, contains-with_room s name names)
]

-- A method is among those tried in a round exactly if it is among the given names, the server's cap
-- has room and so has its own limiter.
pub methods_with_capacity_lem :
    (s : Server) (name : Text) (names : List Text)
    → contains name (methods_with_capacity s names) ≡ (
        contains name names
        && has_room s s.global_limiter
        && has_room s (lookup name s.method_limiters))
unfolding methods_with_capacity
methods_with_capacity_lem s name names = elim (Bool-cases (has_room s s.global_limiter)) [
  | inl room ↦ rw room (contains-with_room s name names ∙ ground arith)
  | inr full ↦ rw full (ground arith)
]

module _ (R : Redis) where
  open R use {State}

  bell_waits :
      (waited : ℕ) (w : World State Server)
      → let (r, v) = wait_bell R waited w in
        (r ≡ ok tt) × (v.redis ≡ w.redis) × (v.turns ≡ w.turns) × (v.clock ≤ w.clock + waited)
  unfolding wait_bell
  bell_waits waited w = elim (Bool-cases w.self.rung) [
    | inl rung ↦ simp rung (refl, refl, refl, omega arith)
    | inr quiet ↦ simp quiet (refl, refl, refl, omega arith)
  ]

  bell_passed :
      (shuffle : List Text → List Text) (waited : ℕ) (w : World State Server)
      → methods_with_capacity w.self (names_of w.self.method_handlers) ≡ []
      → poll_round R shuffle waited w ≡ wait_bell R waited w
  unfolding poll_round poll_available wait_bell
  bell_passed shuffle waited w full = rw full

  -- A round of the read loop that finds no method with room leaves Redis alone, returns normally
  -- and takes no longer than the wait for the doorbell.
  pub saturated_round_waits :
      (shuffle : List Text → List Text) (waited : ℕ) (w : World State Server)
      → methods_with_capacity w.self (names_of w.self.method_handlers) ≡ []
      → let (r, v) = poll_round R shuffle waited w in
        (r ≡ ok tt) × (v.redis ≡ w.redis) × (v.turns ≡ w.turns) × (v.clock ≤ w.clock + waited)
  saturated_round_waits shuffle waited w full =
      rw (bell_passed shuffle waited w full) (bell_waits waited w)

  after_snapshot_ok :
      (x : TickSnapshot R) (w : World State Server) → (after_snapshot R x w).0 ≡ ok tt
  unfolding after_snapshot
  after_snapshot_ok none w = refl
  after_snapshot_ok (some (owners, (rejoined, alive))) w =
      reap_orphans_ok R owners alive
        (record w { self = record w.self { heartbeat_registered = true } })

  ticked :
      (r : Result (TickSnapshot R)) (v : World State Server)
      → let caught_result = caught r (λ e. pure none) v in
        (continue caught_result.0 (after_snapshot R) caught_result.1).0 ≡ ok tt
  ticked (ok x) v = after_snapshot_ok x v
  ticked (err e) v = after_snapshot_ok none v

  -- A heartbeat tick returns normally, whatever fails and whatever others do.
  pub heartbeat_tick_ok : (w : World State Server) → (heartbeat_tick R w).0 ≡ ok tt
  unfolding heartbeat_tick
  heartbeat_tick_ok w = ticked (read_snapshot R w).0 (read_snapshot R w).1

  then_ok :
      (m n : Exec State Server (Unit {0})) (w : World State Server)
      → ((v : World State Server) → (m v).0 ≡ ok tt)
      → ((v : World State Server) → (n v).0 ≡ ok tt)
      → ((m >> n) w).0 ≡ ok tt
  then_ok m n w h k = rw (h w) (k (m w).1)

  -- However many turns the heartbeat loop takes, and whatever fails and others do meanwhile, it
  -- returns normally: no exception ends it.
  pub emit_heartbeats_ok :
      (turns : ℕ) (w : World State Server) → (emit_heartbeats R turns w).0 ≡ ok tt
  unfolding emit_heartbeats
  emit_heartbeats_ok zero w = refl
  emit_heartbeats_ok (suc turns) w = elim (Bool-cases w.self.running) [
    | inl running ↦ simp running (
        then_ok (heartbeat_tick R) (emit_heartbeats R turns)
          (record w { clock = w.clock + heartbeat_period }) heartbeat_tick_ok
          (emit_heartbeats_ok turns))
    | inr stopped ↦ simp stopped refl
  ]
