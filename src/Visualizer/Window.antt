-- ===== src/Visualizer/Window.antt =====
-- `VisualizerApp` of tools/visualizer/src/visualizer/app.py: what the window shows, and what a
-- snapshot, its events and the font buttons make of it. How numbers of seconds and times of day are
-- written is an argument.
pub mod Log
pub mod Shown
use anycall.Prelude.{
  ℕ, zero, suc, ◌+◌, ◌-◌, min, max, Bool, true, false, Option, none, some, List, [], ◌∷◌, ◌++◌,
  length, drop, eqb, if◌then◌else◌,
}
use anycall.Prelude.Int.{ℤ}
use anycall.Text.{Text, codes, ◌==◌}
use anycall.Errors.{show, Result, ok, err, ◌>>=◌}
use anycall.Visualizer.{ServerInfo, MethodInfo, InflightInfo, Snapshot, Event}
use anycall.Visualizer.Activity.{message_text}
use anycall.Visualizer.Interface.{
  server_to_dict, method_to_dict, inflight_to_dict, kind_text, format_reap,
}
use anycall.Visualizer.Trees.{Row, Tree, cleared, rebuild}

abbrev pub max_log_lines : ℕ
max_log_lines = 1000

abbrev pub min_font_size : ℕ
min_font_size = 8

abbrev pub max_font_size : ℕ
max_font_size = 32

abbrev pub window_title : Text
window_title = codes "AnyCall Visualizer"

pub record Window : Type 0 where
  pub title : Text
  pub status : Text
  pub stats : Text
  pub servers_tree : Tree
  pub methods_tree : Tree
  pub inflight_tree : Tree
  pub log : List Text
  pub font_size : ℕ

abbrev pub first_longer : ℕ → List Text → List Text
first_longer c [] = (c ∷ []) ∷ []
first_longer c (l ∷ ls) = (c ∷ l) ∷ ls

-- A text of several lines is as many blocks of the log.
unfoldable pub lines : Text → List Text
lines [] = [] ∷ []
lines (c ∷ cs) = let rest = lines cs in if eqb c 10 then [] ∷ rest else first_longer c rest

-- `setMaximumBlockCount`: the oldest lines go.
unfoldable pub last_lines : ℕ → List Text → List Text
last_lines n xs = drop (length xs - n) xs

unfoldable pub append_plain_text : Text → List Text → List Text
unfolding last_lines lines
append_plain_text text log = last_lines max_log_lines (log ++ lines text)

abbrev pub or_none : Option Text → Text
or_none none = codes "None"
or_none (some t) = t

-- `_apply_font_size`
unfoldable pub apply_font_size : ℕ → Window → Window
apply_font_size size w = record w { font_size = max min_font_size (min max_font_size size) }

-- The buttons beside the spin box.
unfoldable pub font_step : Bool → Window → Window
unfolding apply_font_size
font_step true w = apply_font_size (w.font_size + 1) w
font_step false w = apply_font_size (w.font_size - 1) w

unfoldable pub method_rows : ℕ → List MethodInfo → List Row
method_rows n [] = []
method_rows n (m ∷ methods) =
    record {
      id = n;
      key = codes "method:" ++ m.name;
      cells =
          (m.name ++ (codes "  [" ++ (kind_text m.kind ++ codes "]")))
          ∷ show m.backlog
          ∷ show m.listeners
          ∷ [];
      content = method_to_dict m;
    }
    ∷ method_rows (suc n) methods

-- `time_of_day` writes a time as `%H:%M:%S`.
module _ (time_of_day : ℕ → Text) where
  abbrev pub log_line : Event → Text
  log_line e = codes "[" ++ (time_of_day e.timestamp ++ (codes "] " ++ message_text e.message))

  unfoldable pub append_events : List Event → List Text → List Text
  append_events [] log = log
  append_events (e ∷ events) log = append_events events (append_plain_text (log_line e) log)

  abbrev pub logged : Result (Unit {0}) → List Event → Window → Result (Unit {0}) × Window
  logged (ok done) events w = (ok done, record w { log = append_events events w.log })
  logged (err e) events w = (err e, w)

-- `written`, `rounded`, `to_millis` and `tenths` write numbers of seconds.
module _ (written rounded : ℤ → Text) (to_millis tenths : ℕ → Text) where
  unfoldable pub server_rows : ℕ → List ServerInfo → List Row
  server_rows n [] = []
  server_rows n (s ∷ servers) =
      record {
        id = n;
        key = codes "server:" ++ s.server_id;
        cells = s.server_id ∷ (tenths s.age ++ codes "s ago") ∷ [];
        content = server_to_dict written to_millis s;
      }
      ∷ server_rows (suc n) servers

  abbrev pub inflight_row : ℕ → InflightInfo → Text → Row
  inflight_row n e failed_back = record {
    id = n;
    key = codes "inflight:" ++ e.request_id;
    cells =
        e.request_id
        ∷ e.owner
        ∷ (if e.owner_alive then codes "alive" else codes "gone")
        ∷ failed_back
        ∷ [];
    content = inflight_to_dict written to_millis e;
  }

  unfoldable pub inflight_rows : ℕ → List InflightInfo → Result (List Row)
  inflight_rows n [] = ok []
  inflight_rows n (e ∷ entries) = do
    failed_back ← format_reap rounded e.reap
    rows ← inflight_rows (suc n) entries
    ok (inflight_row n e failed_back ∷ rows)

  module _ (keeps : Bool) where
    unfoldable pub render_servers : Snapshot → Tree → Tree
    unfolding server_rows
    render_servers snapshot t = rebuild keeps (server_rows 0 snapshot.servers) t

    unfoldable pub render_methods : Snapshot → Tree → Tree
    unfolding method_rows
    render_methods snapshot t = rebuild keeps (method_rows 0 snapshot.methods) t

    abbrev pub rendered : Result (List Row) → Tree → Result (Unit {0}) × Tree
    rendered (ok rows) t = (ok tt, rebuild keeps rows t)
    rendered (err e) t = (err e, cleared)

    -- An estimate that cannot be written is raised when the old rows are gone.
    unfoldable pub render_inflight : Snapshot → Tree → Result (Unit {0}) × Tree
    unfolding inflight_rows
    render_inflight snapshot t = rendered (inflight_rows 0 snapshot.inflight) t

    abbrev pub stats_text : Snapshot → Text
    stats_text s =
        codes "redis "
        ++ (s.redis_version
            ++ (codes "  |  clients "
                ++ (show s.connected_clients
                    ++ (codes "  |  memory "
                        ++ (s.used_memory_human
                            ++ (codes "  |  servers "
                                ++ (show (length s.servers)
                                    ++ (codes "  |  in flight "
                                        ++ (show (length s.inflight)
                                            ++ (codes "  |  awaiting delivery "
                                                ++ show s.inflight_responses))))))))))

    unfoldable pub render_snapshot : Snapshot → Window → Result (Unit {0}) × Window
    unfolding render_servers render_methods render_inflight
    render_snapshot s w =
        if s.connected
        then (let (r, inflight_tree) = render_inflight s w.inflight_tree in
            (
              r,
              record w {
                status = codes "● connected to " ++ s.redis_uri;
                stats = stats_text s;
                servers_tree = render_servers s w.servers_tree;
                methods_tree = render_methods s w.methods_tree;
                inflight_tree = inflight_tree;
              },
            ))
        else (
          ok tt,
          record w {
            status =
                codes "⚠ disconnected from " ++ (s.redis_uri ++ (codes ": " ++ or_none s.error));
            stats = [];
          },
        )

    unfoldable pub on_snapshot :
        (ℕ → Text) → Snapshot → List Event → Window → Result (Unit {0}) × Window
    unfolding render_snapshot
    on_snapshot time_of_day s events w =
        let (r, w') = render_snapshot s w in logged time_of_day r events w'
