-- ===== src/Programs/Supplier/Starts.antt =====
-- How main of the sample supplier starts its server and ends.
use anycall.Prelude.{
  ℕ, ◌≡◌, ◌≢◌, refl, false, none, List, [], ◌∷◌, inl, inr, Bool-cases, arith, if◌then◌else◌,
  is_some,
}
use anycall.Text.{Text}
use anycall.Errors.{unfinished, Result, ok, err}
use anycall.Assoc.{insert}
use anycall.Queues.{inflight_key, heartbeat_key, heartbeat_ttl_seconds}
use anycall.Redis.{Redis}
use anycall.Exec.Caught.{catch_ok}
use anycall.Server.Rounds.{heartbeat_tick_ok}
use anycall.Exec.{World, Exec, alone, round_trip, ◌>>◌}
use anycall.Adapter.{inflight_owners, heartbeat, heartbeat_script}
use anycall.Reaping.Effect.{reap_orphans_effect}
use anycall.Server.{Server, server_with, ring}
use anycall.Server.Registration.{
  register, register_supplier, register_member, parameter_type_of, add_handler, stop,
}
use anycall.Server.Loops.{start, start_once, heartbeat_tick, read_snapshot, after_snapshot}
use anycall.Server.Served.{serving}
use anycall.Programs.{text_request_type, analyze}
use anycall.Programs.Supplier.{
  analyze_member, sentiment_analyzer, supplier_main, until_stopped, stopped_after,
  write_health_file,
}

-- Over a working connection and with no interference, registering the analyzer and starting gives
-- the server that serves its method.
pub supplier_started :
    (R : Redis) (server_id : Text) (clock : ℕ) (s : R.State)
    → (s' : R.State) × ((register (sentiment_analyzer ∷ []) >> start R)
          (alone s clock (server_with server_id none 0))
        ≡ (ok tt, alone s' clock (serving server_id analyze analyze_member text_request_type)))
unfolding register register_supplier register_member parameter_type_of add_handler start start_once
    heartbeat_tick read_snapshot after_snapshot inflight_owners heartbeat round_trip insert
supplier_started R server_id clock s =
    let owners = R.hgetall inflight_key s in
    let beat = heartbeat_script R heartbeat_key server_id heartbeat_ttl_seconds s in
    let (s', run, stored) =
      reap_orphans_effect R owners beat.0.1 beat.1 clock
        (serving server_id analyze analyze_member text_request_type) in
    (s', run)

not_running :
    (s : Server)
    → (if s.running
        then ring (record s { running = false; shut = is_some s.workers })
        else s).running
      ≡ false
not_running s = ground arith

stopped :
    {S : Type 0} (r : Result (Unit {0})) (w : World S Server)
    → (stopped_after r w).0 ≢ err unfinished
    → (stopped_after r w).1.self.running ≡ false
unfolding stopped_after stop
stopped (err unfinished) w h = absurd (h refl)
stopped _ w h = not_running w.self

start_ok : (R : Redis) (w : World R.State Server) → (start R w).0 ≡ ok tt
unfolding start start_once
start_ok R w = elim (Bool-cases w.self.running) [
  | inl already ↦ simp already
  | inr new ↦ simp new (heartbeat_tick_ok R _)
]

-- Whatever Redis, the file system and the threads do: once main of the supplier has ended, its
-- server no longer runs.
pub main_stops :
    (R : Redis) (write_text : List Text → Text → Exec R.State Server (Unit {0}))
    (environ : List (Text × Text)) (serving : Exec R.State Server (Unit {0}))
    (w : World R.State Server)
    → let (r, v) = supplier_main R write_text environ serving w in
      r ≢ err unfinished → v.self.running ≡ false
unfolding supplier_main register register_supplier register_member parameter_type_of add_handler
    write_health_file until_stopped
main_stops R write_text environ serving w = rw (start_ok R _, catch_ok _ _) (stopped _ _)
