-- ===== src/Visualizer/Interface.antt =====
-- The pure part of tools/visualizer/src/visualizer/app.py: the rows copied as JSON, and the text for
-- an estimate.
use anycall.Prelude.{
  ℕ, zero, suc, ◌+◌, ◌≡◌, refl, arith, Bool, true, false, Option, none, some, List, [], ◌∷◌, ◌++◌,
  leb, if◌then◌else◌,
}
use anycall.Prelude.Int.{ℤ, pos, negsuc, sub_ℕ}
use anycall.Text.{Text, codes}
use anycall.Json.{Json, null, bool, number, str, obj, no_fields, field}
use anycall.Errors.{show, type_error, Result, ok, err}
use anycall.Queues.{heartbeat_ttl_seconds}
use anycall.Adapter.{micros}
use anycall.Client.{waiter_reap_quiet, waiter_reap_slice}
use anycall.Visualizer.{
  By, ReapEstimate, ServerInfo, InflightInfo, MethodInfo, QueueKind, list, stream, server, client,
  heartbeat_period_seconds,
}
use anycall.Visualizer.Estimate.{estimate_reaping, latest_of}

-- z ≤ 0
unfoldable pub not_positive : ℤ → Bool
not_positive (pos zero) = true
not_positive (pos (suc n)) = false
not_positive (negsuc n) = true

-- The rows that are copied as JSON. `written` is a number as JSON writes it, in seconds, and
-- `to_millis` the one rounded to three places.
module _ (written : ℤ → Text) (to_millis : ℕ → Text) where
  unfoldable pub server_to_dict : ServerInfo → Json
  server_to_dict s = obj (
      field (codes "server_id") (str s.server_id) (
        field (codes "last_heartbeat") (number (written (pos s.last_heartbeat)))
          (field (codes "age_seconds") (number (to_millis s.age)) no_fields)))

  unfoldable pub number_or_null : Option ℤ → Json
  number_or_null none = null
  number_or_null (some n) = number (written n)

  abbrev pub by_text : By → Text
  by_text server = codes "server"
  by_text client = codes "client"

  unfoldable pub estimate_to_dict : Option ReapEstimate → Json
  unfolding number_or_null
  estimate_to_dict none = null
  estimate_to_dict (some e) = obj (
      field (codes "by") (str (by_text e.by)) (
        field (codes "earliest_seconds") (number_or_null e.earliest)
          (field (codes "latest_seconds") (number_or_null e.latest) no_fields)))

  unfoldable pub inflight_to_dict : InflightInfo → Json
  unfolding estimate_to_dict
  inflight_to_dict e = obj (
      field (codes "request_id") (str e.request_id) (
        field (codes "server_id") (str e.owner) (
          field (codes "server_alive") (bool e.owner_alive)
            (field (codes "failed_back_estimate") (estimate_to_dict e.reap) no_fields))))

abbrev pub kind_text : QueueKind → Text
kind_text list = codes "list"
kind_text stream = codes "stream"

unfoldable pub method_to_dict : MethodInfo → Json
unfolding show
method_to_dict m = obj (
    field (codes "method") (str m.name) (
      field (codes "kind") (str (kind_text m.kind)) (
        field (codes "backlog") (number (show m.backlog))
          (field (codes "listening") (number (show m.listeners)) no_fields))))

-- `rounded` is the format `:.0f` of a number of seconds. A None among the numbers is a TypeError.
module _ (rounded : ℤ → Text) where
  abbrev pub overdue_text : Text
  overdue_text = codes "overdue: its client may have stopped waiting"

  abbrev pub within_text : ℤ → Text
  within_text latest = codes "within ~" ++ rounded latest ++ codes "s, by its waiting client"

  abbrev pub window_text : ℤ → ℤ → Text
  window_text earliest latest =
      codes "in ~"
      ++ rounded earliest
      ++ codes "–"
      ++ rounded latest
      ++ codes "s, by its waiting client"

  unfoldable pub format_client : Option ℤ → Option ℤ → Result Text
  format_client earliest none = ok (codes "by its waiting client (no heartbeat seen yet)")
  format_client none (some latest) = if not_positive latest then ok overdue_text else err type_error
  format_client (some earliest) (some latest) =
      if not_positive latest
      then ok overdue_text
      else if not_positive earliest
      then ok (within_text latest)
      else ok (window_text earliest latest)

  unfoldable pub format_by : By → Option ℤ → Option ℤ → Result Text
  unfolding format_client
  format_by server earliest none = err type_error
  format_by server earliest (some latest) =
      ok (codes "within ~" ++ rounded latest ++ codes "s, by a live server")
  format_by client earliest latest = format_client earliest latest

  -- `_format_reap`
  unfoldable pub format_reap : Option ReapEstimate → Result Text
  unfolding format_by
  format_reap none = ok []
  format_reap (some e) = format_by e.by e.earliest e.latest

  -- The last moment at which a waiting client reaps, when a heartbeat is the last one.
  abbrev pub reaped_by : ℕ → ℕ
  reaped_by last = last + micros heartbeat_ttl_seconds + waiter_reap_quiet + waiter_reap_slice

  -- The text, by the age of the last heartbeat seen.
  abbrev pub text_by_age : ℕ → ℕ → Text
  text_by_age last now =
      if leb (reaped_by last) now
      then overdue_text
      else if leb (last + micros heartbeat_ttl_seconds) now
      then within_text (sub_ℕ (reaped_by last) now)
      else window_text (sub_ℕ (last + micros heartbeat_ttl_seconds) now)
          (sub_ℕ (reaped_by last) now)

  abbrev pub expected_text : Bool → List (Text × ℕ) → ℕ → Text
  expected_text true last_seen now =
      codes "within ~"
      ++ rounded (pos (micros heartbeat_period_seconds))
      ++ codes "s, by a live server"
  expected_text false [] now = codes "by its waiting client (no heartbeat seen yet)"
  expected_text false ((name, score) ∷ seen) now = text_by_age (latest_of score seen) now

  not_positive-sub_ℕ : (a b : ℕ) → not_positive (sub_ℕ a b) ≡ leb a b
  unfolding not_positive sub_ℕ
  not_positive-sub_ℕ a b = ground arith

  -- The text for an estimate of `estimate_reaping` always exists and follows the age of the last
  -- heartbeat seen: a window while its TTL has not passed, a bound until the last moment at which a
  -- client would reap, and overdue after it; with a server alive it is the heartbeat period, and
  -- with no heartbeat seen no time.
  pub format_reap-estimate_reaping :
      (any_alive : Bool) (last_seen : List (Text × ℕ)) (now : ℕ)
      → format_reap (some (estimate_reaping any_alive last_seen now))
        ≡ ok (expected_text any_alive last_seen now)
  unfolding format_reap estimate_reaping
  format_reap-estimate_reaping true last_seen now = refl
  format_reap-estimate_reaping false [] now = refl
  format_reap-estimate_reaping false ((name, score) ∷ seen) now =
      let last = latest_of score seen in
      rw
        (
          not_positive-sub_ℕ (reaped_by last) now,
          not_positive-sub_ℕ (last + micros heartbeat_ttl_seconds) now,
        )
        (pick _ _ _ (leb (reaped_by last) now) (leb (last + micros heartbeat_ttl_seconds) now))
    where
      pick :
          (x y z : Text) (a b : Bool)
          → (if a then ok x else if b then ok y else ok z)
            ≡ ok (if a then x else if b then y else z)
      pick x y z true b = refl
      pick x y z false true = refl
      pick x y z false false = refl
