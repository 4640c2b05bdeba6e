-- ===== src/Reaping.antt =====
-- implementations/python/lib/src/anycall/reaping.py.
pub mod Effect
pub mod Claims
pub mod Once
pub mod Faults
use anycall.Prelude.{Bool, true, false, List, [], ◌∷◌, if◌then◌else◌}
use anycall.Text.{Text}
use anycall.Errors.{Result}
use anycall.Model.Response
use anycall.Serialization.{response, serialize}
use anycall.Queues.{inflight_key, response_queue, response_ttl_seconds}
use anycall.Redis.{Redis, contains}
use anycall.Exec.{Exec, pure, lift, catch, ◌>>=◌, ◌>>◌}
use anycall.Adapter.{release_inflight, respond}

module _ (R : Redis) {L : Type 0} where
  open R use {State}

  -- What the one that removed an entry writes for it.
  unfoldable pub fail_back : Text → Text → Bool → Exec State L (Unit {0})
  fail_back request_id owner false = pure tt
  fail_back request_id owner true = do
    text ← lift (serialize (response (Response.server_lost request_id owner)))
    respond R (response_queue request_id) text response_ttl_seconds [] []

  -- The body of the loop, for an owner that is not alive. What it raises is logged.
  unfoldable pub reap_one : Text → Text → Exec State L (Unit {0})
  unfolding fail_back
  reap_one request_id owner =
      catch
        (do
          removed ← release_inflight R inflight_key request_id
          fail_back request_id owner removed)
        (λ e. pure tt)

  unfoldable pub reap_orphans : List (Text × Text) → List Text → Exec State L (Unit {0})
  reap_orphans [] alive = pure tt
  reap_orphans ((request_id, owner) ∷ owners) alive =
      let rest = reap_orphans owners alive in
      if contains owner alive then rest else (reap_one request_id owner >> rest)
