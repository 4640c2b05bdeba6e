-- ===== src/Protocol/Traced/Replies.antt =====
-- What the replies of round trips say of the states that Redis goes through.
use anycall.Prelude.{ℕ, zero, suc, ◌≡◌, refl, Option, List, [], ◌∷◌}
use anycall.Text.{Text}
use anycall.Errors.{Result, ok, err}
use anycall.Redis.{Redis}
use anycall.Exec.{World, Turn, Fault, answered, cut, settle, exchange, round_trip}
use anycall.Protocol.{Traffic, Run, here}
use anycall.Protocol.Traced.{Started, AllLawful}

module _ (R : Redis) (ids : List Text) where
  open R use {State, time}

  -- An answer is the command's at a state to which others have brought Redis.
  pub record Answer {A L : Type 0} (command : State → A × State) (m : Traffic R) (a : A)
      (w : World State L) : Type 0 where
    pub at : Traffic R
    pub run : Run R m at
    pub reply : a ≡ (command at.redis).0
    pub after : w.redis ≡ (command at.redis).1
    pub lawful : AllLawful R ids w.turns

  abbrev pub Answered :
      {A L : Type 0} → (State → A × State) → Traffic R → Result A → World State L → Type 0
  Answered command m (ok a) w = Answer command m a w
  Answered command m (err e) w = Unit {0}

  module _ {A L : Type 0} (command : State → A × State) where
    settle-Answered :
        (m n : Traffic R)
        → Run R m n
        → (f : Fault) (w : World State L) → AllLawful R ids w.turns
        → let x = settle f n.redis (command n.redis) w in Answered command m x.0 x.1
    settle-Answered m n run answered w lawful = record {
      at = n;
      run = run;
      reply = refl;
      after = refl;
      lawful = lawful;
    }
    settle-Answered m n run (cut zero e) w lawful = tt
    settle-Answered m n run (cut (suc k) e) w lawful = tt

    exchange-Answered :
        (ts : List (Turn State)) (w : World State L) (beats : Text → Option ℕ)
        → Started ids beats
        → AllLawful R ids ts
        → AllLawful R ids w.turns
        → let x = exchange ts command w in
          Answered command (record { redis = w.redis; beats = beats }) x.0 x.1
    exchange-Answered [] w beats started _ lawful =
        settle-Answered _ (record { redis = w.redis; beats = beats }) here answered w lawful
    exchange-Answered (t ∷ ts) w beats started lawful _ =
        let f = lawful.0.at (record { redis = w.redis; beats = beats }) started in
        settle-Answered _ (record { redis = t.others w.redis; beats = f.beats }) f.run t.fault _
          lawful.1

    pub round_trip-Answered :
        (w : World State L) (beats : Text → Option ℕ)
        → Started ids beats
        → AllLawful R ids w.turns
        → let x = round_trip command w in
          Answered command (record { redis = w.redis; beats = beats }) x.0 x.1
    unfolding round_trip
    round_trip-Answered w beats started lawful =
        exchange-Answered w.turns w beats started lawful lawful
