-- ===== src/Server/Wakes.antt =====
-- The wake listener of server.py, `_listen_for_wakes`, one turn of its loop at a time. The Pub/Sub
-- handle of redis is a parameter, with what it listens to; making one is a round trip here.
pub mod Subscribed
use anycall.Prelude.{
  ℕ, zero, suc, ◌+◌, ◌≡◌, Bool, true, false, not, ◌&&◌, ◌||◌, Option, none, some, List, [], ◌∷◌,
  map, if◌then◌else◌,
}
use anycall.Text.{Text}
use anycall.Sets.{any, without}
use anycall.Errors.{Exn, ok}
use anycall.Queues.{wake_channel}
use anycall.Redis.{Redis, contains}
use anycall.Exec.{Exec, pure, catch, modify, gets, round_trip, ◌>>=◌, ◌>>◌}
use anycall.Server.{MethodHandler, Server, ring}
use anycall.Server.Loops.{names_of}

-- WAKE_FALLBACK_SECONDS and WAKE_LISTEN_TICK_SECONDS, in microseconds
abbrev pub wake_fallback : ℕ
wake_fallback = 1000000

abbrev pub wake_listen_tick : ℕ
wake_listen_tick = 500000

pub record PubSub (R : Redis) : Type 1 where
  pub Handle : Type 0
  pub subscriber : R.State → Handle × R.State
  pub subscribe : Handle → List Text → R.State → R.State
  pub unsubscribe : Handle → List Text → R.State → R.State
  pub get_message : Handle → R.State → Option Text × R.State
  pub close : Handle → R.State → R.State
  pub listens : R.State → Handle → Text → Bool
  pub listens-subscriber :
      (s : R.State) (c : Text) → listens (subscriber s).1 (subscriber s).0 c ≡ false
  pub listens-subscribe :
      (h : Handle) (cs : List Text) (s : R.State) (c : Text)
      → listens (subscribe h cs s) h c ≡ (listens s h c || contains c cs)
  pub listens-unsubscribe :
      (h : Handle) (cs : List Text) (s : R.State) (c : Text)
      → listens (unsubscribe h cs s) h c ≡ (listens s h c && not (contains c cs))
  pub listens-get_message :
      (h : Handle) (s : R.State) (c : Text) → listens (get_message h s).1 h c ≡ listens s h c

-- The server, with the locals of the loop.
pub record Listener (Handle : Type 0) : Type 0 where
  pub server : Server
  pub pubsub : Option Handle
  pub subscribed : List Text

-- The wake channels of the registered methods.
abbrev pub wanted_channels : Server → List Text
wanted_channels s = map wake_channel (names_of s.method_handlers)

module _ (R : Redis) (P : PubSub R) where
  open R use {State}
  open P use {Handle, subscriber, subscribe, unsubscribe, get_message, close}

  abbrev pub Listening : Type 0 → Type 0
  Listening A = Exec State (Listener Handle) A

  abbrev pub ring_bell : Listener Handle → Listener Handle
  ring_bell l = record l { server = ring l.server }

  unfoldable pub sleep : ℕ → Listening (Unit {0})
  sleep time w = (ok tt, record w { clock = w.clock + time })

  unfoldable pub open_handle : Option Handle → Listening Handle
  open_handle (some h) = pure h
  open_handle none = do
    h ← round_trip subscriber
    modify (λ l. record l { pubsub = some h; subscribed = [] })
    pure h

  unfoldable pub when_any : List Text → Listening (Unit {0}) → Listening (Unit {0})
  when_any channels action = if any channels then action else pure tt

  -- A message rings the bell; none comes when the tick is over.
  unfoldable pub heard : Option Text → Listening (Unit {0})
  unfolding sleep
  heard none = sleep wake_listen_tick
  heard (some message) = modify ring_bell

  unfoldable pub hear : Handle → List Text → Listening (Unit {0})
  unfolding heard sleep
  hear h [] = sleep wake_listen_tick
  hear h (channel ∷ channels) = round_trip (get_message h) >>= heard

  unfoldable pub change_channels : Handle → List Text → List Text → Listening (Unit {0})
  unfolding when_any
  change_channels h wanted subscribed = do
    when_any (without subscribed wanted)
        (round_trip (λ s. (tt, subscribe h (without subscribed wanted) s)))
    when_any (without wanted subscribed)
        (round_trip (λ s. (tt, unsubscribe h (without wanted subscribed) s)))
    modify (λ l. record l { subscribed = wanted })
    when_any (without subscribed wanted) (modify ring_bell)

  -- The body of the `try`.
  unfoldable pub listen : Listening (Unit {0})
  unfolding open_handle hear change_channels
  listen = do
    pubsub ← gets (λ l. l.pubsub)
    h ← open_handle pubsub
    wanted ← gets (λ l. wanted_channels l.server)
    subscribed ← gets (λ l. l.subscribed)
    change_channels h wanted subscribed
    hear h wanted

  unfoldable pub close_handle : Option Handle → Listening (Unit {0})
  close_handle none = pure tt
  close_handle (some h) = round_trip (λ s. (tt, close h s))

  -- After an error a new handle is made, which subscribes to everything again.
  unfoldable pub resubscribe : Exn → Listening (Unit {0})
  unfolding close_handle sleep
  resubscribe e = do
    pubsub ← gets (λ l. l.pubsub)
    catch (close_handle pubsub) (λ e'. pure tt)
    modify (λ l. record l { pubsub = none })
    sleep wake_fallback

  -- One turn of the loop, while the server runs, and the end of it.
  unfoldable pub listen_turn : Listening (Unit {0})
  unfolding listen resubscribe
  listen_turn = catch listen resubscribe

  unfoldable pub listen_for_wakes : ℕ → Listening (Unit {0})
  unfolding listen_turn close_handle
  listen_for_wakes zero = pure tt
  listen_for_wakes (suc turns) = do
    running ← gets (λ l. l.server.running)
    pubsub ← gets (λ l. l.pubsub)
    (if running then (listen_turn >> listen_for_wakes turns) else close_handle pubsub)
