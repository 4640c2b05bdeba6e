-- ===== src/Programs/Supplier.antt =====
-- implementations/python/example-supplier/src/example_supplier/: the analyzer and its main program.
-- The environment is an association list and the file system an action.
pub mod Starts
use anycall.Prelude.{Option, some, List, [], ◌∷◌}
use anycall.Text.{Text, codes}
use anycall.Assoc.{lookup}
use anycall.Json.{str}
use anycall.Errors.{unfinished, Result, ok, err, ◌>>=◌}
use anycall.Serialization.{Object}
use anycall.Redis.{Redis}
use anycall.Exec.{Exec, pure, raise, lift, catch, ◌>>◌}
use anycall.Server.{AnycallContext, Server}
use anycall.Server.Registration.{Member, context, annotated, register, stop}
use anycall.Server.Loops.{start}
use anycall.Programs.{text_request_type, sentiment, text_of, analyze}

unfoldable pub analyze_sentiment : AnycallContext → Object → Result Object
unfolding text_of
analyze_sentiment ctx req = do text ← text_of req; ok (sentiment text (str (codes "positive")))

-- `SentimentAnalyzer`: its one method with what `supply` put on it, whose cap is 1 by default.
abbrev pub analyze_member : Member
analyze_member = record {
  supply_method_name = some analyze;
  supply_max_concurrency = 1;
  parameters = context ∷ annotated text_request_type ∷ [];
  method = analyze_sentiment;
}

abbrev pub sentiment_analyzer : List Member
sentiment_analyzer = analyze_member ∷ []

-- The parts of the path of the health file.
unfoldable pub health_file : Option Text → List Text
health_file (some (c ∷ dir)) = (c ∷ dir) ∷ codes "anycall" ∷ codes "health" ∷ []
health_file _ = codes "/tmp" ∷ codes "anycall" ∷ codes "health" ∷ []

module _ {S : Type 0} (write_text : List Text → Text → Exec S Server (Unit {0})) where
  -- A failure is logged.
  unfoldable pub write_health_file : List (Text × Text) → Exec S Server (Unit {0})
  unfolding health_file lookup
  write_health_file environ =
      catch (write_text (health_file (lookup (codes "XDG_RUNTIME_DIR") environ)) (codes "OK"))
        (λ e. pure tt)

-- `try: serving finally: server.stop()`, where `serving` is what the server's threads do until a
-- signal sets the event. While they still run, `stop` is not reached.
unfoldable pub stopped_after : {S : Type 0} → Result (Unit {0}) → Exec S Server (Unit {0})
unfolding stop
stopped_after (err unfinished) = raise unfinished
stopped_after r = stop >> lift r

unfoldable pub until_stopped : {S : Type 0} → Exec S Server (Unit {0}) → Exec S Server (Unit {0})
unfolding stopped_after
until_stopped serving w = let (r, w') = serving w in stopped_after r w'

-- `main`, of the server that `AnyCall.server` made.
unfoldable pub supplier_main :
    (R : Redis)
    → (List Text → Text → Exec R.State Server (Unit {0}))
    → List (Text × Text)
    → Exec R.State Server (Unit {0})
    → Exec R.State Server (Unit {0})
unfolding write_health_file until_stopped
supplier_main R write_text environ serving = do
  register (sentiment_analyzer ∷ [])
  start R
  write_health_file write_text environ
  until_stopped serving
