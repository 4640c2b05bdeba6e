-- ===== src/Examples/Windows.antt =====
-- Runs of the theorems on the visualizer's window.
use mathlib.Core.List.{Memᴰ}
use mathlib.Core.List.Memᴰ.{head, tail}
use anycall.Prelude.{
  ℕ, ◌≡◌, refl, sym, ap, ap₂, ◌∙◌, true, false, not, ◌||◌, ◌&&◌, none, some, List, [], ◌∷◌, ◌⊎◌,
  inl, inr, All, if◌then◌else◌, eqb,
}
use anycall.Prelude.Int.{pos}
use anycall.Text.{Text, codes, ◌==◌}
use anycall.Json.{null}
use anycall.Errors.{ok, show_ℤ, show}
use anycall.Redis.Memory.{memory}
use anycall.Exec.{alone, round_trip}
use anycall.Visualizer.{Snapshot, Event, server, restored, server_up}
use anycall.Assoc.{insert}
use anycall.Visualizer.Sorted.{sorted, text_lt}
use anycall.Visualizer.Estimate.{estimate_reaping}
use anycall.Visualizer.Rows.{live_servers, with_estimates, owned, by_owner}
use anycall.Visualizer.Collect.{
  collect_snapshot, collect_methods, collect_listeners, collect_live, collect_servers,
  collect_inflight,
}
use anycall.Visualizer.Trees.{Row, item, end, next, Tree, cleared, key_of, is_current, rebuild}
use anycall.Visualizer.Trees.Walks.{rows_of, marked}
use anycall.Visualizer.Trees.Kept.{any_current, rebuild_keeps}
use anycall.Visualizer.Trees.Copy.{Entry, entries_of, selected_items, topmost}
use anycall.Visualizer.Trees.Copied.{KeysApart, copied_once}
use anycall.Visualizer.Window.{Window, on_snapshot}
use anycall.Visualizer.Window.Shown.{snapshot_is_shown}
use anycall.Examples.{id_1, id_2, dead, live, format}
use anycall.Examples.Watches.{view, a_poller, later_on}

abbrev row_of : ℕ → Text → Row
row_of n key = record { id = n; key = key; cells = key ∷ []; content = null }

-- Two rows are selected, and the lower one is current.
abbrev chosen : Tree
chosen = record {
  items = next (item (row_of 0 dead) end) (next (item (row_of 1 live) end) end);
  selected = λ i. true;
  expanded = λ i. eqb i 0;
  current = some (row_of 1 live);
}

rebuild_keeps_example :
    let rows = row_of 0 dead ∷ row_of 1 live ∷ [] in
    let t = rebuild false rows chosen in
    (t.expanded 0 ≡ marked chosen.expanded dead (rows_of chosen.items))
    × (t.selected 0 ≡ (
        (is_current dead (some live) || marked chosen.selected dead (rows_of chosen.items))
        && (false || not (any_current (some live) (row_of 1 live ∷ [])))))
    × (key_of t.current ≡ (if any_current (some live) rows then some live else none))
unfolding key_of
rebuild_keeps_example =
    rebuild_keeps false [] (row_of 1 live ∷ []) (row_of 0 dead) chosen tt (refl, tt)

-- A row and its child are selected.
abbrev nested : Tree
nested = record cleared {
  items = next (item (row_of 0 dead) (next (item (row_of 1 live) end) end)) end;
  selected = λ i. true;
}

abbrev parent_entry : Entry
parent_entry = (row_of 0 dead, [])

abbrev child_entry : Entry
child_entry = (row_of 1 live, row_of 0 dead ∷ [])

two_entries :
    (e : Entry) → Memᴰ e (entries_of [] nested.items) → (e ≡ parent_entry) ⊎ (e ≡ child_entry)
unfolding entries_of
two_entries e (head same) = inl same
two_entries e (tail (head same)) = inr same
two_entries e (tail (tail m)) = elim m [ ]

nested-KeysApart : KeysApart nested
unfolding ◌==◌
nested-KeysApart e f m n same =
    let keys = λ (x y : Entry). x.0.key == y.0.key in
    elim (two_entries e m) [
      | inl a ↦ elim (two_entries f n) [
        | inl b ↦ ap (λ (x : Entry). x.0.id) (a ∙ sym b)
        | inr b ↦ cc (same, ap₂ keys a b)
      ]
      | inr a ↦ elim (two_entries f n) [
        | inl b ↦ cc (same, ap₂ keys a b)
        | inr b ↦ ap (λ (x : Entry). x.0.id) (a ∙ sym b)
      ]
    ]

copied_once_example :
    ((f : Entry) × Memᴰ f (topmost (selected_items nested))
      × ((f ≡ child_entry) ⊎ Memᴰ f.0 child_entry.1))
    × (Memᴰ child_entry (topmost (selected_items nested))
        → All (λ a. nested.selected a.id ≡ false) child_entry.1)
unfolding selected_items entries_of
copied_once_example = copied_once nested nested-KeysApart child_entry (tail (head refl))

abbrev two_events : List Event
two_events =
    record { timestamp = 5; message = restored }
    ∷ record { timestamp = 5; message = server_up live }
    ∷ []

abbrev a_window : Window
a_window = record {
  title = [];
  status = [];
  stats = [];
  servers_tree = cleared;
  methods_tree = cleared;
  inflight_tree = chosen;
  log = [];
  font_size = 12;
}

abbrev orphaned_one : Snapshot
orphaned_one = record {
  connected = true;
  taken_at = 7;
  redis_uri = codes "redis://localhost";
  methods = [];
  servers = record { server_id = live; last_heartbeat = 99000000; age = 1000001 } ∷ [];
  inflight =
      record {
        request_id = id_1;
        owner = dead;
        owner_alive = false;
        reap = some (record { by = server; earliest = some (pos 0); latest = some (pos 2000000) });
      }
      ∷ record { request_id = id_2; owner = live; owner_alive = true; reap = none }
      ∷ [];
  inflight_responses = 0;
  redis_version = codes "?";
  connected_clients = 1;
  used_memory_human = codes "?";
  error = none;
}

collected :
    (collect_snapshot memory view format (λ t. t) (alone later_on 7 a_poller)).0 ≡ ok orphaned_one
unfolding collect_snapshot round_trip collect_methods sorted collect_listeners collect_live
    collect_servers collect_inflight live_servers with_estimates ◌==◌ owned insert by_owner text_lt
    estimate_reaping
collected = refl

snapshot_is_shown_example :
    (on_snapshot show_ℤ show_ℤ show show false show orphaned_one two_events a_window).0 ≡ ok tt
snapshot_is_shown_example =
    snapshot_is_shown show_ℤ show_ℤ show show memory view false show format (λ t. t)
      (alone later_on 7 a_poller) orphaned_one collected two_events a_window
