-- ===== src/Adapter/Respond.antt =====
-- What `respond` of redis_adapter.py leaves behind, also when its pipeline is cut off.
use anycall.Prelude.{
  ℕ, zero, suc, ◌≡◌, refl, ap, ◌∙◌, ◌⊎◌, inl, inr, false, none, some, List, [], ◌∷◌, Bool-cases,
  if◌then◌else◌,
}
use anycall.Text.{Text, ◌==◌}
use anycall.Text.Equality.{eq_self}
use anycall.Redis.{Redis, Data, update}
use anycall.Exec.{run_first, run_all}
use anycall.Adapter.{respond_commands}

-- The response is in its queue.
abbrev pub pushed : Text → Text → Data → Data
pushed queue value d = record d { list = update d.list queue (value ∷ d.list queue) }

-- The in-flight entry, if there is an id to drop it by, is gone.
abbrev pub released : Text → Text → Data → Data
released inflight id d =
    if id == []
    then d
    else record d { hash = update d.hash inflight (update (d.hash inflight) id none) }

run_first-nil : {S : Type 0} (n : ℕ) (s : S) → run_first n [] s ≡ s
unfolding run_first
run_first-nil zero s = refl
run_first-nil (suc n) s = refl

module _ (R : Redis) (queue value : Text) (ttl_seconds : ℕ) (inflight id : Text) where
  open R use {
    State, contents, ttl, lpush, expire, hdel, contents-lpush, contents-expire, contents-hdel,
    ttl-expire, ttl-hdel,
  }

  abbrev commands : List (State → State)
  commands = respond_commands R queue value ttl_seconds inflight id

  pushed_contents :
      (s : State)
      → contents (expire queue ttl_seconds (lpush queue value s)) ≡ pushed queue value (contents s)
  pushed_contents s =
      contents-expire queue ttl_seconds (lpush queue value s) ∙ contents-lpush queue value s

  pushed_list :
      (s : State) → (contents (lpush queue value s)).list queue ≡ value ∷ (contents s).list queue
  pushed_list s = rw (contents-lpush queue value s, eq_self queue)

  expiry :
      (s : State) → ttl (expire queue ttl_seconds (lpush queue value s)) queue ≡ some ttl_seconds
  expiry s = ttl-expire queue ttl_seconds (lpush queue value s) (λ e. cc (pushed_list s, e))

  -- The pipeline of `respond`, run whole, pushes the response at the head and drops the in-flight
  -- entry if there is an id; the response queue then has its expiry, unless it is the in-flight
  -- key.
  pub respond_done :
      (s : State)
      → (contents (run_all commands s) ≡ released inflight id (pushed queue value (contents s)))
        × ((inflight == queue) ≡ false → ttl (run_all commands s) queue ≡ some ttl_seconds)
  unfolding respond_commands run_all
  respond_done s = elim (Bool-cases (id == [])) [
    | inl anonymous ↦ rw anonymous (pushed_contents s, λ other. expiry s)
    | inr named ↦ rw named (
      contents-hdel inflight id _ ∙ ap release (pushed_contents s),
      λ other. ttl-hdel inflight id queue _ other ∙ expiry s,
    )
  ]
    where
      release : Data → Data
      release d = record d { hash = update d.hash inflight (update (d.hash inflight) id none) }

  -- However the pipeline of `respond` is cut off, what is stored is untouched, or has the response
  -- with the in-flight entry still there, or has the response without the entry.
  pub respond_cut :
      (n : ℕ) (s : State)
      → (contents (run_first n commands s) ≡ contents s)
        ⊎ (contents (run_first n commands s) ≡ pushed queue value (contents s))
        ⊎ (contents (run_first n commands s)
            ≡ released inflight id (pushed queue value (contents s)))
  unfolding respond_commands run_first
  respond_cut zero s = inl refl
  respond_cut (suc zero) s = inr (inl (contents-lpush queue value s))
  respond_cut (suc (suc zero)) s = inr (inl (pushed_contents s))
  respond_cut (suc (suc (suc n))) s = inr (inr done)
    where
      release : Data → Data
      release d = record d { hash = update d.hash inflight (update (d.hash inflight) id none) }

      done :
          contents (
            run_first
              (suc n)
              (if id == [] then [] else (λ s'. (hdel inflight id s').1) ∷ [])
              (expire queue ttl_seconds (lpush queue value s)))
          ≡ released inflight id (pushed queue value (contents s))
      done = elim (Bool-cases (id == [])) [
        | inl anonymous ↦ rw anonymous (pushed_contents s)
        | inr named ↦
            rw
              (
                named,
                run_first-nil n
                    (hdel inflight id (expire queue ttl_seconds (lpush queue value s))).1,
              )
              (contents-hdel inflight id _ ∙ ap release (pushed_contents s))
      ]
