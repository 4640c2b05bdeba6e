-- ===== src/Examples/Listens.antt =====
-- A run of the theorem on the wake listener, with the channels of its one handle kept in a list.
use anycall.Prelude.{◌≡◌, refl, arith, true, ◌||◌, none, some, List, [], ◌∷◌, ◌++◌}
use anycall.Text.{Text, codes}
use anycall.Text.Equality.{eq_self}
use anycall.Sets.{any, without, contains-without}
use anycall.Errors.{ok}
use anycall.Redis.{contains, update}
use anycall.Redis.Memory.{Memory, memory}
use anycall.Exec.{alone}
use anycall.Server.{server_with}
use anycall.Server.Wakes.{PubSub, Listener, wanted_channels, listen_turn}
use anycall.Server.Wakes.Subscribed.{Agrees, Settled, before_turn, listen_turn_subscribes}
use anycall.Client.Decode.{dict_type}
use anycall.Examples.{echo, live, queued}

abbrev channels_key : Text
channels_key = codes "channels"

abbrev with_channels : List Text → Memory → Memory
with_channels cs s = record s { lists = update s.lists channels_key cs }

contains-append :
    (c : Text) (xs ys : List Text) → contains c (xs ++ ys) ≡ (contains c ys || contains c xs)
contains-append c [] ys = ground arith
contains-append c (x ∷ xs) ys = ground (arith, contains-append c xs ys)

abbrev one_handle : PubSub memory
one_handle = record {
  Handle = Unit {0};
  subscriber = λ s. (tt, with_channels [] s);
  subscribe = λ h cs s. with_channels (cs ++ s.lists channels_key) s;
  unsubscribe = λ h cs s. with_channels (without cs (s.lists channels_key)) s;
  get_message = λ h s. (some (codes "1"), s);
  close = λ h s. s;
  listens = λ s h c. contains c (s.lists channels_key);
  listens-subscriber = λ s c. rw (eq_self channels_key) refl;
  listens-subscribe =
      λ h cs s c. rw (eq_self channels_key) (contains-append c cs (s.lists channels_key));
  listens-unsubscribe =
      λ h cs s c. rw (eq_self channels_key) (contains-without c cs (s.lists channels_key));
  listens-get_message = λ h s c. refl;
}

-- A server with one method, whose listener has no handle yet.
abbrev listening : Listener (Unit {0})
listening = record {
  server = record (server_with live none 0) {
    running = true;
    method_handlers =
        (
          echo,
          record {
            method = λ context argument. ok argument;
            parameter_type = dict_type;
            max_concurrency = 1;
          },
        )
        ∷ [];
  };
  pubsub = none;
  subscribed = [];
}

listening-Agrees : Agrees memory one_handle queued listening
listening-Agrees = record { agrees = λ h c there. cc there }

listen_turn_subscribes_example :
    (h : Unit {0}) × Settled memory one_handle h
      (wanted_channels listening.server)
      (any (
        without
          (before_turn memory one_handle listening.pubsub listening.subscribed)
          (wanted_channels listening.server)))
      (listen_turn memory one_handle (alone queued 3 listening))
listen_turn_subscribes_example =
    listen_turn_subscribes memory one_handle queued 3 listening listening-Agrees
