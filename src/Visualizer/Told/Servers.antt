-- ===== src/Visualizer/Told/Servers.antt =====
-- What the tracker of poller.py tells of each server.
use anycall.Sets.{unique, without, contains-unique}
use anycall.Prelude.{
  ◌≡◌, refl, ap, ap₂, ◌∙◌, arith, Bool, true, false, Option, none, some, List, [], ◌∷◌, ◌++◌, map,
  if◌then◌else◌, inl, inr, Bool-cases,
}
use anycall.Text.{Text, ◌==◌}
use anycall.Text.Equality.{eq_iff}
use anycall.Assoc.{lookup}
use anycall.Redis.{contains}
use anycall.Visualizer.{InflightInfo, Snapshot, Message, server_up, server_gone}
use anycall.Visualizer.Sorted.{sorted, insort, text_lt}
use anycall.Visualizer.Rows.{dict_of, server_ids}
use anycall.Visualizer.Activity.{
  messages, connection_messages, newcomers, methods_before, server_messages, inflight_messages,
  methods_messages, current_messages, gone_messages, still_messages, inflight_before,
  servers_before, by_request,
}
use anycall.Visualizer.Told.{
  a_server, about, filter, filter-append, filter-second, filter-connection_messages,
  filter-methods_messages,
}

-- The change of a server between two snapshots, from whether each has it.
abbrev pub change : Text → Bool → Bool → List Message
change id before now =
    (if before then [] else if now then server_up id ∷ [] else [])
    ++ (if now then [] else if before then server_gone id ∷ [] else [])

module _ (id : Text) where
  abbrev told : Message → Bool
  told m = about m (a_server id)

  abbrev is_id : Text → Bool
  is_id x = x == id

  abbrev once : Bool → List Text
  once b = if b then id ∷ [] else []

  filter-insort :
      (x : Text) (xs : List Text)
      → filter is_id (insort text_lt x xs)
        ≡ (if x == id then id ∷ filter is_id xs else filter is_id xs)
  unfolding insort
  filter-insort x [] = ground (arith, eq_iff x id)
  filter-insort x (y ∷ ys) = ground (arith, eq_iff x id, eq_iff y id, filter-insort x ys)

  filter-sorted : (xs : List Text) → filter is_id (sorted text_lt xs) ≡ filter is_id xs
  unfolding sorted
  filter-sorted [] = refl
  filter-sorted (x ∷ xs) =
      ground (arith, filter-insort x (sorted text_lt xs), filter-sorted xs, eq_iff x id)

  filter-without :
      (ys xs : List Text)
      → filter is_id (without ys xs) ≡ (if contains id ys then [] else filter is_id xs)
  unfolding without
  filter-without ys [] = ground arith
  filter-without ys (x ∷ xs) = ground (arith, eq_iff x id, filter-without ys xs)

  filter-unique : (xs : List Text) → filter is_id (unique xs) ≡ once (contains id xs)
  unfolding unique
  filter-unique [] = refl
  filter-unique (x ∷ xs) =
      ground (arith, eq_iff x id, filter-unique xs, contains-unique x xs, contains-unique id xs)

  filter-newcomers :
      (before now : List Text)
      → filter is_id (newcomers before now)
        ≡ (if contains id before then [] else once (contains id now))
  filter-newcomers before now =
      filter-sorted (without before (unique now))
      ∙ filter-without before (unique now)
      ∙ ap (λ xs. if contains id before then [] else xs) (filter-unique now)

  filter-map :
      (f : Text → Message) (xs : List Text)
      → ((x : Text) → told (f x) ≡ (x == id))
      → filter told (map f xs) ≡ map f (filter is_id xs)
  filter-map f [] h = refl
  filter-map f (x ∷ xs) h = ground (arith, h x, filter-map f xs h)

  filter-server_messages :
      (before now : List Text)
      → filter told (server_messages before now) ≡ change id (contains id before) (contains id now)
  unfolding server_messages
  filter-server_messages before now =
      filter-append told (map server_up (newcomers before now))
        (map server_gone (newcomers now before))
      ∙ ap₂ (λ xs ys. xs ++ ys)
          (filter-map server_up (newcomers before now) (λ x. refl)
            ∙ ap (map server_up) (filter-newcomers before now))
          (filter-map server_gone (newcomers now before) (λ x. refl)
            ∙ ap (map server_gone) (filter-newcomers now before))
      ∙ mapped (contains id before) (contains id now)
    where
      mapped :
          (b n : Bool)
          → map server_up (if b then [] else once n) ++ map server_gone (if n then [] else once b)
            ≡ change id b n
      mapped true true = refl
      mapped true false = refl
      mapped false true = refl
      mapped false false = refl

  filter-still_messages :
      (r : Text) (p : Option InflightInfo) (e : InflightInfo)
      → filter told (still_messages r p e) ≡ []
  unfolding still_messages
  filter-still_messages r none e = refl
  filter-still_messages r (some p) e = ground arith

  filter-current_messages :
      (prev current : List (Text × InflightInfo)) → filter told (current_messages prev current) ≡ []
  unfolding current_messages
  filter-current_messages prev [] = refl
  filter-current_messages prev ((r, e) ∷ current) =
      filter-append told (still_messages r (lookup r prev) e) (current_messages prev current)
      ∙ ap₂ (λ xs ys. xs ++ ys) (filter-still_messages r (lookup r prev) e)
          (filter-current_messages prev current)

  filter-gone_messages :
      (prev current : List (Text × InflightInfo)) → filter told (gone_messages current prev) ≡ []
  unfolding gone_messages
  filter-gone_messages [] current = refl
  filter-gone_messages ((r, p) ∷ prev) current = ground (arith, filter-gone_messages prev current)

  filter-inflight_messages :
      (prev current : List (Text × InflightInfo))
      → filter told (inflight_messages prev current) ≡ []
  unfolding inflight_messages
  filter-inflight_messages prev current =
      filter-append told (current_messages prev current) (gone_messages current prev)
      ∙ ap₂ (λ xs ys. xs ++ ys) (filter-current_messages prev current)
          (filter-gone_messages prev current)

  -- The tracker tells once that a server is up if only the new snapshot has it, once that it is
  -- gone if only the last connected one had it, and nothing else of it; nothing at all if the new
  -- one is not connected.
  pub server_told :
      (prev : Option Snapshot) (s : Snapshot)
      → filter (λ m. about m (a_server id)) (messages prev s) ≡ (
          if s.connected
          then change id (contains id (servers_before prev)) (contains id (server_ids s.servers))
          else [])
  unfolding messages
  server_told prev s = elim (Bool-cases s.connected) [
    | inl connected ↦ simp connected (
        filter-second told (connection_messages prev s)
          (server_messages (servers_before prev) (server_ids s.servers))
          (inflight_messages (inflight_before prev) (dict_of [] (by_request s.inflight)))
          (methods_messages (methods_before prev) s.methods)
          (filter-connection_messages (a_server id) prev s)
          (filter-inflight_messages (inflight_before prev) (dict_of [] (by_request s.inflight)))
          (filter-methods_messages (a_server id) (methods_before prev) s.methods)
        ∙ filter-server_messages (servers_before prev) (server_ids s.servers))
    | inr failed ↦ simp failed (
        filter-second told (connection_messages prev s) [] []
          (methods_messages (methods_before prev) s.methods)
          (filter-connection_messages (a_server id) prev s) refl
          (filter-methods_messages (a_server id) (methods_before prev) s.methods))
  ]
