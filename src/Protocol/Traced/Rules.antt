-- ===== src/Protocol/Traced/Rules.antt =====
-- Rules by which actions are runs of commands of the protocol.
use anycall.Prelude.{◌≡◌, refl, sym, subst, Bool, true, false, Option, List, if◌then◌else◌, ℕ}
use anycall.Text.{Text}
use anycall.Errors.{Exn, Result, ok, err}
use anycall.Redis.{Redis}
use anycall.Exec.{
  World, Exec, pure, raise, lift, caught, catch, continue, ◌>>=◌, ◌>>◌, monotonic, gets, modify,
}
use anycall.Protocol.{Traffic, Run, here}
use anycall.Protocol.Traced.{Run-trans, Started, Started-Run, AllLawful, After, Traced}

module _ (R : Redis) (ids : List Text) {L : Type 0} (P : L → Type 0) where
  open R use {State}

  abbrev pub from : World State L → (Text → Option ℕ) → Traffic R
  from w beats = record { redis = w.redis; beats = beats }

  still :
      (w w' : World State L) (beats : Text → Option ℕ)
      → w'.redis ≡ w.redis
      → w'.turns ≡ w.turns
      → AllLawful R ids w.turns
      → P w'.self
      → After R ids P (from w beats) w'
  still w w' beats same turns lawful kept = record {
    beats = beats;
    run = subst (λ s. Run R (from w beats) (record { redis = s; beats = beats })) (sym same) here;
    lawful = subst (AllLawful R ids) (sym turns) lawful;
    kept = kept;
  }

  -- An action that leaves Redis and the turns alone.
  pub Traced-still :
      {A : Type 0} (m : Exec State L A)
      → ((w : World State L)
          → ((m w).1.redis ≡ w.redis) × ((m w).1.turns ≡ w.turns) × (P w.self → P (m w).1.self))
      → Traced R ids P m
  Traced-still m h = record {
    at = λ w beats started lawful p. still w (m w).1 beats (h w).0 (h w).1 lawful ((h w).2 p);
  }

  module _ {A B : Type 0} where
    pub continue-After :
        (r : Result A) (f : A → Exec State L B) (m : Traffic R) (w : World State L)
        → Started ids m.beats
        → After R ids P m w
        → ((a : A) → Traced R ids P (f a))
        → After R ids P m (continue r f w).1
    continue-After (ok a) f m w started h k =
        let l = (k a).at w h.beats (Started-Run R ids h.run started) h.lawful h.kept in
        record { beats = l.beats; run = Run-trans R h.run l.run; lawful = l.lawful; kept = l.kept }
    continue-After (err e) f m w started h k = h

    pub Traced-bind :
        (m : Exec State L A) (f : A → Exec State L B)
        → Traced R ids P m
        → ((a : A) → Traced R ids P (f a))
        → Traced R ids P (m >>= f)
    Traced-bind m f h k = record {
      at = λ w beats started lawful p.
          continue-After (m w).0 f _ (m w).1 started (h.at w beats started lawful p) k;
    }

    pub Traced-then :
        (m : Exec State L A) (n : Exec State L B)
        → Traced R ids P m
        → Traced R ids P n
        → Traced R ids P (m >> n)
    Traced-then m n h k = Traced-bind m (λ _. n) h (λ _. k)

    -- What is read off the calling object has what `P` says of it.
    pub Traced-gets :
        (f : L → A) (k : A → Exec State L B)
        → ((l : L) → P l → Traced R ids P (k (f l)))
        → Traced R ids P (gets f >>= k)
    Traced-gets f k h = record {
      at = λ w beats started lawful p. (h w.self p).at w beats started lawful p;
    }

  module _ {A : Type 0} where
    pub Traced-pure : (a : A) → Traced R ids P (pure a)
    Traced-pure a = Traced-still (pure a) (λ w. (refl, refl, λ p. p))

    pub Traced-raise : (e : Exn) → Traced R ids P {A = A} (raise e)
    Traced-raise e = Traced-still (raise e) (λ w. (refl, refl, λ p. p))

    pub Traced-lift : (r : Result A) → Traced R ids P (lift r)
    Traced-lift r = Traced-still (lift r) (λ w. (refl, refl, λ p. p))

    pub Traced-if :
        (b : Bool) (m n : Exec State L A)
        → Traced R ids P m
        → Traced R ids P n
        → Traced R ids P (if b then m else n)
    Traced-if true m n h k = h
    Traced-if false m n h k = k

    caught-After :
        (r : Result A) (handler : Exn → Exec State L A) (m : Traffic R) (w : World State L)
        → Started ids m.beats
        → After R ids P m w
        → ((e : Exn) → Traced R ids P (handler e))
        → After R ids P m (caught r handler w).1
    caught-After (ok a) handler m w started h k = h
    caught-After (err e) handler m w started h k = continue-After (ok e) handler m w started h k

    pub Traced-catch :
        (m : Exec State L A) (handler : Exn → Exec State L A)
        → Traced R ids P m
        → ((e : Exn) → Traced R ids P (handler e))
        → Traced R ids P (catch m handler)
    Traced-catch m handler h k = record {
      at = λ w beats started lawful p.
          caught-After (m w).0 handler _ (m w).1 started (h.at w beats started lawful p) k;
    }

  pub Traced-monotonic : Traced R ids P monotonic
  Traced-monotonic = Traced-still monotonic (λ w. (refl, refl, λ p. p))

  pub Traced-modify : (f : L → L) → ((l : L) → P l → P (f l)) → Traced R ids P (modify f)
  Traced-modify f h = Traced-still (modify f) (λ w. (refl, refl, h w.self))
