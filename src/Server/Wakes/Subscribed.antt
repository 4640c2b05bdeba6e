-- ===== src/Server/Wakes/Subscribed.antt =====
-- What a turn of the wake listener of server.py is subscribed to.
use anycall.Prelude.{
  ℕ, ◌≡◌, refl, ◌∙◌, arith, Bool, true, false, not, ◌&&◌, ◌||◌, Option, none, some, List, [], ◌∷◌,
  if◌then◌else◌, inl, inr, Bool-cases, Option-cases,
}
use anycall.Text.{Text}
use anycall.Sets.{any, without, contains-without, contains-not_any}
use anycall.Errors.{Result, ok, err}
use anycall.Redis.{Redis, contains}
use anycall.Exec.{World, alone, round_trip, caught, ◌>>◌}
use anycall.Server.Wakes.{
  PubSub, Listener, wanted_channels, open_handle, when_any, heard, hear, change_channels, listen,
  listen_turn, sleep, resubscribe,
}

settled :
    (now sub want : Bool) → now ≡ sub → ((now || (want && not sub)) && not (sub && not want)) ≡ want
settled now true true h = ground arith
settled now true false h = ground arith
settled now false true h = ground arith
settled now false false h = ground arith

module _ (R : Redis) (P : PubSub R) where
  open R use {State}
  open P use {
    Handle, subscriber, subscribe, unsubscribe, get_message, listens, listens-subscriber,
    listens-subscribe, listens-unsubscribe, listens-get_message,
  }

  -- What the loop keeps as subscribed is what its handle listens to.
  pub record Agrees (s : State) (l : Listener Handle) : Type 0 where
    pub agrees :
        (h : Handle) (c : Text) → l.pubsub ≡ some h → listens s h c ≡ contains c l.subscribed

  abbrev added : Handle → List Text → State → State
  added h cs s = if any cs then subscribe h cs s else s

  abbrev removed : Handle → List Text → State → State
  removed h cs s = if any cs then unsubscribe h cs s else s

  listens-added :
      (h : Handle) (cs : List Text) (s : State) (c : Text)
      → listens (added h cs s) h c ≡ (listens s h c || contains c cs)
  listens-added h cs s c = elim (Bool-cases (any cs)) [
    | inl some_added ↦ rw some_added (listens-subscribe h cs s c)
    | inr none_added ↦ rw (none_added, contains-not_any c cs none_added) (ground arith)
  ]

  listens-removed :
      (h : Handle) (cs : List Text) (s : State) (c : Text)
      → listens (removed h cs s) h c ≡ (listens s h c && not (contains c cs))
  listens-removed h cs s c = elim (Bool-cases (any cs)) [
    | inl some_removed ↦ rw some_removed (listens-unsubscribe h cs s c)
    | inr none_removed ↦ rw (none_removed, contains-not_any c cs none_removed) (ground arith)
  ]

  -- What a change of channels leaves in Redis, and in the listener.
  abbrev changed : Handle → List Text → List Text → State → State
  changed h wanted subscribed s =
      removed h (without wanted subscribed) (added h (without subscribed wanted) s)

  listens-changed :
      (h : Handle) (wanted subscribed : List Text) (s : State) (c : Text)
      → listens s h c ≡ contains c subscribed
      → listens (changed h wanted subscribed s) h c ≡ contains c wanted
  listens-changed h wanted subscribed s c agreed =
      rw
        (
          listens-removed h (without wanted subscribed) (added h (without subscribed wanted) s) c,
          listens-added h (without subscribed wanted) s c,
          contains-without c wanted subscribed,
          contains-without c subscribed wanted,
        )
        (settled (listens s h c) (contains c subscribed) (contains c wanted) agreed)

  change_channels_lem :
      (h : Handle) (wanted subscribed : List Text) (s : State) (clock : ℕ) (l : Listener Handle)
      → change_channels R P h wanted subscribed (alone s clock l) ≡ (
        ok tt,
        alone (changed h wanted subscribed s) clock (record l {
          subscribed = wanted;
          server = record l.server {
            rung = if any (without subscribed wanted) then true else l.server.rung;
          };
        }),
      )
  unfolding change_channels when_any round_trip
  change_channels_lem h wanted subscribed s clock l =
      elim (Bool-cases (any (without subscribed wanted))) [
        | inl more ↦ elim (Bool-cases (any (without wanted subscribed))) [
          | inl fewer ↦ rw (more, fewer) refl
          | inr no_fewer ↦ rw (more, no_fewer) refl
        ]
        | inr no_more ↦ elim (Bool-cases (any (without wanted subscribed))) [
          | inl fewer ↦ rw (no_more, fewer) refl
          | inr no_fewer ↦ rw (no_more, no_fewer) refl
        ]
      ]

  -- A turn that ended well: the handle listens to the wake channels of the registered methods.
  pub record Settled (h : Handle) (wanted : List Text) (more : Bool)
      (outcome : Result (Unit {0}) × World State (Listener Handle)) : Type 0 where
    pub fine : outcome.0 ≡ ok tt
    pub kept : outcome.1.self.pubsub ≡ some h
    pub noted : outcome.1.self.subscribed ≡ wanted
    pub heeds : (c : Text) → listens outcome.1.redis h c ≡ contains c wanted
    pub rang : more ≡ true → outcome.1.self.server.rung ≡ true

  heard_lem :
      (h : Handle) (wanted : List Text) (more : Bool) (message : Option Text)
      (w : World State (Listener Handle))
      → Settled h wanted more (ok tt, w)
      → Settled h wanted more (heard R P message w)
  unfolding heard sleep
  heard_lem h wanted more none w k = record {
    fine = refl;
    kept = k.kept;
    noted = k.noted;
    heeds = k.heeds;
    rang = k.rang;
  }
  heard_lem h wanted more (some message) w k = record {
    fine = refl;
    kept = k.kept;
    noted = k.noted;
    heeds = k.heeds;
    rang = λ e. refl;
  }

  hear_lem :
      (h : Handle) (wanted channels : List Text) (more : Bool) (s : State) (clock : ℕ)
      (l : Listener Handle)
      → Settled h wanted more (ok tt, alone s clock l)
      → Settled h wanted more (hear R P h channels (alone s clock l))
  unfolding hear sleep round_trip
  hear_lem h wanted [] more s clock l k = record {
    fine = refl;
    kept = k.kept;
    noted = k.noted;
    heeds = k.heeds;
    rang = k.rang;
  }
  hear_lem h wanted (channel ∷ channels) more s clock l k =
      heard_lem h wanted more (get_message h s).0 (alone (get_message h s).1 clock l) (record {
        fine = refl;
        kept = k.kept;
        noted = k.noted;
        heeds = λ c. listens-get_message h s c ∙ k.heeds c;
        rang = k.rang;
      })

  -- The rest of a turn, once there is a handle.
  listen_with :
      (h : Handle) (s : State) (clock : ℕ) (l : Listener Handle)
      → l.pubsub ≡ some h
      → ((c : Text) → listens s h c ≡ contains c l.subscribed)
      → let wanted = wanted_channels l.server in
        Settled h wanted
          (any (without l.subscribed wanted))
          ((change_channels R P h wanted l.subscribed >> hear R P h wanted) (alone s clock l))
  listen_with h s clock l there agreed =
      let wanted = wanted_channels l.server in
      rw (change_channels_lem h wanted l.subscribed s clock l) (
        hear_lem h wanted wanted (any (without l.subscribed wanted))
          (changed h wanted l.subscribed s) clock _
          (record {
            fine = refl;
            kept = there;
            noted = refl;
            heeds = λ c. listens-changed h wanted l.subscribed s c (agreed c);
            rang = λ e. rw e;
          }))

  caught-Settled :
      (h : Handle) (wanted : List Text) (more : Bool) (r : Result (Unit {0}))
      (w : World State (Listener Handle))
      → Settled h wanted more (r, w)
      → Settled h wanted more (caught r (resubscribe R P) w)
  caught-Settled h wanted more (ok tt) w k = k
  caught-Settled h wanted more (err e) w k = cc k.fine

  -- What is already subscribed as a turn starts: nothing, where a handle is still to be made.
  abbrev pub before_turn : Option Handle → List Text → List Text
  before_turn none subscribed = []
  before_turn (some h) subscribed = subscribed

  -- Over a working connection and with no interference, from a listener whose note of what it is
  -- subscribed to is true, a turn of the wake listener returns normally with a handle, that listens
  -- to exactly the wake channels of the registered methods, as the listener notes; the doorbell has
  -- rung if one of these channels is new.
  pub listen_turn_subscribes :
      (s : State) (clock : ℕ) (l : Listener Handle)
      → Agrees s l
      → let wanted = wanted_channels l.server in
        (h : Handle) × Settled h wanted
          (any (without (before_turn l.pubsub l.subscribed) wanted))
          (listen_turn R P (alone s clock l))
  unfolding listen_turn listen open_handle round_trip
  listen_turn_subscribes s clock l agreed =
      let wanted = wanted_channels l.server in
      elim (Option-cases l.pubsub) [
        | inl none_yet ↦
            let fresh = record l { pubsub = some (subscriber s).0; subscribed = [] } in
            (
              (subscriber s).0,
              simp none_yet (
                  caught-Settled (subscriber s).0 wanted (any (without [] wanted)) _ _ (
                    listen_with (subscriber s).0 (subscriber s).1 clock fresh refl
                      (λ c. listens-subscriber s c))),
            )
        | inr (h, there) ↦ (
          h,
          simp there (
              caught-Settled h wanted (any (without l.subscribed wanted)) _ _
                (listen_with h s clock l there (λ c. agreed.agrees h c there))),
        )
      ]
