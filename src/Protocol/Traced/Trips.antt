-- ===== src/Protocol/Traced/Trips.antt =====
-- Round trips and pipelines as runs of commands of the protocol.
use anycall.Prelude.{ℕ, zero, suc, Option, List, [], ◌∷◌}
use anycall.Text.{Text}
use anycall.Redis.{Redis}
use anycall.Exec.{
  World, Turn, Fault, answered, cut, settle, settle_all, exchange, exchange_all, round_trip,
  pipeline,
}
use anycall.Protocol.{Traffic, Run, here}
use anycall.Protocol.Traced.{
  Run-trans, Started, Started-Run, Follow, Follows, FollowsAll, AllLawful, After, Traced,
}
use anycall.Protocol.Traced.Rules.{
  from, Traced-bind, Traced-then, Traced-gets, Traced-pure, Traced-raise, Traced-lift, Traced-if,
  Traced-catch, Traced-monotonic, Traced-modify,
}

module _ (R : Redis) (ids : List Text) {L : Type 0} (P : L → Type 0) where
  open R use {State}

  -- A run to where others have brought Redis, and on to where the commands have.
  reached :
      {m n : Traffic R} (w : World State L)
      → Run R m n
      → Follow R ids n w.redis
      → AllLawful R ids w.turns
      → P w.self
      → After R ids P m w
  reached w run more lawful p = record {
    beats = more.beats;
    run = Run-trans R run more.run;
    lawful = lawful;
    kept = p;
  }

  abbrev nothing : (m : Traffic R) → Follow R ids m m.redis
  nothing m = record { beats = m.beats; run = here }

  module _ {A : Type 0} (command : State → A × State) (h : Follows R ids command) where
    settle-After :
        {m : Traffic R} (n : Traffic R)
        → Run R m n
        → Started ids n.beats
        → (f : Fault) (w : World State L) → AllLawful R ids w.turns
        → P w.self
        → After R ids P m (settle f n.redis (command n.redis) w).1
    settle-After n run started answered w lawful p = reached _ run (h.at n started) lawful p
    settle-After n run started (cut zero e) w lawful p = reached _ run (nothing n) lawful p
    settle-After n run started (cut (suc k) e) w lawful p = reached _ run (h.at n started) lawful p

    exchange-After :
        (ts : List (Turn State)) (w : World State L) (beats : Text → Option ℕ)
        → Started ids beats
        → AllLawful R ids ts
        → AllLawful R ids w.turns
        → P w.self
        → After R ids P (from R ids P w beats) (exchange ts command w).1
    exchange-After [] w beats started _ lawful p =
        settle-After (from R ids P w beats) here started answered w lawful p
    exchange-After (t ∷ ts) w beats started lawful _ p =
        let f = lawful.0.at (from R ids P w beats) started in
        settle-After (record { redis = t.others w.redis; beats = f.beats }) f.run
          (Started-Run R ids f.run started) t.fault _ lawful.1 p

    pub Traced-round_trip : Traced R ids P (round_trip command)
    unfolding round_trip
    Traced-round_trip = record {
      at = λ w beats started lawful p. exchange-After w.turns w beats started lawful lawful p;
    }

  module _ (commands : List (State → State)) (h : FollowsAll R ids commands) where
    settle_all-After :
        {m : Traffic R} (n : Traffic R)
        → Run R m n
        → (f : Fault) (w : World State L) → AllLawful R ids w.turns
        → P w.self
        → After R ids P m (settle_all f n.redis commands w).1
    settle_all-After n run answered w lawful p = reached _ run (h.all n) lawful p
    settle_all-After n run (cut k e) w lawful p = reached _ run (h.first n k) lawful p

    exchange_all-After :
        (ts : List (Turn State)) (w : World State L) (beats : Text → Option ℕ)
        → Started ids beats
        → AllLawful R ids ts
        → AllLawful R ids w.turns
        → P w.self
        → After R ids P (from R ids P w beats) (exchange_all ts commands w).1
    exchange_all-After [] w beats started _ lawful p =
        settle_all-After (from R ids P w beats) here answered w lawful p
    exchange_all-After (t ∷ ts) w beats started lawful _ p =
        let f = lawful.0.at (from R ids P w beats) started in
        settle_all-After (record { redis = t.others w.redis; beats = f.beats }) f.run t.fault _
          lawful.1 p

    pub Traced-pipeline : Traced R ids P (pipeline commands)
    unfolding pipeline
    Traced-pipeline = record {
      at = λ w beats started lawful p. exchange_all-After w.turns w beats started lawful lawful p;
    }

pub ruleset traced_rules = (
  Traced-bind, Traced-then, Traced-gets, Traced-pure, Traced-raise, Traced-lift, Traced-if,
  Traced-catch, Traced-monotonic, Traced-modify,
)
