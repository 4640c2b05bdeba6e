-- ===== src/Visualizer/Window/Shown.antt =====
-- The snapshots of poller.py in the window of app.py.
use anycall.Prelude.{ℕ, suc, ◌≡◌, refl, subst, Bool, none, List, [], ◌∷◌, All, Bool-cases, inl, inr}
use anycall.Prelude.Int.{ℤ}
use anycall.Text.{Text}
use anycall.Json.{Json}
use anycall.Sets.{any}
use anycall.Errors.{Result, ok, err}
use anycall.Redis.{Redis}
use anycall.Exec.{World, Exec, ◌>>=◌}
use anycall.Exec.Gives.{IfOk, Gives, Gives-pure, Gives-bind, Gives-after}
use anycall.Visualizer.{InflightInfo, ServerInfo, Snapshot, Event, Poller, View}
use anycall.Visualizer.Rows.{owned, by_owner, with_estimates, server_ids}
use anycall.Visualizer.Sorted.{sorted}
use anycall.Visualizer.Estimate.{estimate_reaping}
use anycall.Visualizer.Collect.{collect_inflight, collect_live, collect_snapshot}
use anycall.Visualizer.Alive.{Plain, owned-Plain, All-sorted}
use anycall.Visualizer.Interface.{format_reap, expected_text, format_reap-estimate_reaping}
use anycall.Visualizer.Trees.{Row}
use anycall.Visualizer.Window.{
  Window, inflight_row, inflight_rows, render_inflight, render_snapshot, on_snapshot,
}

module _ (written rounded : ℤ → Text) (to_millis tenths : ℕ → Text) where
  -- The estimate of a row can be written.
  abbrev pub Written : InflightInfo → Type 0
  Written e = (text : Text) × (format_reap rounded e.reap ≡ ok text)

  inflight_rows-Written :
      (n : ℕ) (entries : List InflightInfo)
      → All Written entries
      → (rows : List Row) × (inflight_rows written rounded to_millis tenths n entries ≡ ok rows)
  unfolding inflight_rows
  inflight_rows-Written n [] h = ([], refl)
  inflight_rows-Written n (e ∷ entries) h =
      let (rows, made) = inflight_rows-Written (suc n) entries h.1 in
      (inflight_row written rounded to_millis tenths n e h.0.0 ∷ rows, rw (h.0.1, made) refl)

  estimates-Written :
      (any_alive : Bool) (last_seen : List (Text × ℕ)) (now : ℕ) (entries : List InflightInfo)
      → All (λ e. e.reap ≡ none) entries
      → All Written (with_estimates (estimate_reaping any_alive last_seen now) entries)
  unfolding with_estimates
  estimates-Written any_alive last_seen now [] h = tt
  estimates-Written any_alive last_seen now (e ∷ entries) h =
      let rest = estimates-Written any_alive last_seen now entries h.1 in
      elim (Bool-cases e.owner_alive) [
        | inl alive ↦ rw alive (([], rw (h.0) (unfold format_reap in refl)), rest)
        | inr orphan ↦ rw orphan (
          (
            expected_text rounded any_alive last_seen now,
            format_reap-estimate_reaping rounded any_alive last_seen now,
          ),
          rest,
        )
      ]

  Plain-reap :
      (alive : List Text) (entries : List InflightInfo)
      → All (Plain alive) entries
      → All (λ e. e.reap ≡ none) entries
  Plain-reap alive [] h = tt
  Plain-reap alive (e ∷ entries) h = (h.0.1, Plain-reap alive entries h.1)

  module _ (R : Redis) (V : View R) where
    open R use {State, hgetall}

    collect_inflight-Gives :
        (alive : List Text)
        → Gives {S = State} {L = Poller}
            (λ entries. All (λ e. e.reap ≡ none) entries)
            (collect_inflight R V alive)
    unfolding collect_inflight
    collect_inflight-Gives alive = Gives-after _ _ _ (λ owners. Gives-pure _ _ (
        Plain-reap alive (sorted by_owner (owned alive owners))
          (All-sorted by_owner (Plain alive) (owned alive owners) (owned-Plain alive owners))))

    collect_live-Gives :
        Gives {S = State} {L = Poller} (λ live. All Written live.1) (collect_live R V)
    unfolding collect_live
    collect_live-Gives = Gives-after _ _ _ (λ seen.
        Gives-bind _ _ _ _ (collect_inflight-Gives (server_ids seen.0)) (λ inflight plain. record {
          at = λ w. estimates-Written (any seen.0) w.self.last_seen seen.1 inflight plain;
        }))

    live_then :
        (k : List ServerInfo × List InflightInfo → Exec State Poller Snapshot)
        → ((live : List ServerInfo × List InflightInfo)
            → All Written live.1
            → Gives (λ s. All Written s.inflight) (k live))
        → Gives (λ s. All Written s.inflight) (collect_live R V >>= k)
    live_then k h = Gives-bind _ _ (collect_live R V) k collect_live-Gives h

    collect_snapshot-Gives :
        (format : Json → Text) (hash : Text → Text)
        → Gives {S = State} {L = Poller}
            (λ s. All Written s.inflight)
            (collect_snapshot R V format hash)
    unfolding collect_snapshot
    collect_snapshot-Gives format hash = search (live_then, Gives-after, Gives-pure) depth 14

    module _ (keeps : Bool) (time_of_day : ℕ → Text) where
      abbrev shown : Snapshot → List Event → Window → Result (Unit {0}) × Window
      shown = on_snapshot written rounded to_millis tenths keeps time_of_day

      shown-Written :
          (s : Snapshot) (events : List Event) (w : Window)
          → All Written s.inflight
          → (shown s events w).0 ≡ ok tt
      unfolding on_snapshot render_snapshot render_inflight
      shown-Written s events w h =
          let (rows, made) = inflight_rows-Written 0 s.inflight h in
          elim (Bool-cases s.connected) [
            | inl up ↦ simp (up, made) refl
            | inr down ↦ simp down refl
          ]

      snapshot_ok :
          (r : Result Snapshot) (s : Snapshot)
          → IfOk (λ s. All Written s.inflight) r
          → r ≡ ok s
          → All Written s.inflight
      snapshot_ok (ok t) s h e =
          subst (λ (x : Result Snapshot). IfOk (λ s. All Written s.inflight) x) e h
      snapshot_ok (err x) s h e = cc e

      -- Whatever the connection does, a snapshot that the collection returns is shown with its
      -- events without an exception: the text of every estimate in it exists.
      pub snapshot_is_shown :
          (format : Json → Text) (hash : Text → Text) (w : World State Poller) (s : Snapshot)
          → (collect_snapshot R V format hash w).0 ≡ ok s
          → (events : List Event) (window : Window) → (shown s events window).0 ≡ ok tt
      snapshot_is_shown format hash w s collected events window = shown-Written s events window (
          snapshot_ok (collect_snapshot R V format hash w).0 s
            ((collect_snapshot-Gives format hash).at w) collected)
