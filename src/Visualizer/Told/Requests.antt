-- ===== src/Visualizer/Told/Requests.antt =====
-- What the tracker of poller.py tells of each request.
use anycall.Prelude.{
  ◌≡◌, refl, ap₂, ◌∙◌, arith, Bool, false, not, ◌&&◌, Option, none, some, List, [], ◌∷◌, ◌++◌, map,
  append-nil, is_some, if◌then◌else◌, inl, inr, Bool-cases,
}
use anycall.Text.{Text, ◌==◌}
use anycall.Text.Equality.{eq_iff, eq→path}
use anycall.Assoc.{lookup, insert, Distinct, Distinct-insert}
use anycall.Visualizer.{
  InflightInfo, Snapshot, Message, server_up, server_gone, taken, orphaned, answered, failed_back,
}
use anycall.Visualizer.Rows.{dict_of, server_ids}
use anycall.Visualizer.Activity.{
  messages, connection_messages, newcomers, methods_before, server_messages, inflight_messages,
  methods_messages, current_messages, gone_messages, still_messages, left_messages, inflight_before,
  servers_before, by_request,
}
use anycall.Visualizer.Told.{
  a_request, about, filter, filter-append, filter-third, filter-connection_messages,
  filter-methods_messages,
}

abbrev told : Text → Message → Bool
told id m = about m (a_request id)

-- What became of a request between two snapshots.
abbrev pub fate : Text → Option InflightInfo → Option InflightInfo → List Message
fate id none none = []
fate id none (some e) = taken id e.owner ∷ []
fate id (some p) (some e) =
    if p.owner_alive && not e.owner_alive then orphaned id e.owner ∷ [] else []
fate id (some p) none = (if p.owner_alive then answered id p.owner else failed_back id p.owner) ∷ []

abbrev when_still : Text → Option InflightInfo → Option InflightInfo → List Message
when_still id p none = []
when_still id p (some e) = still_messages id p e

abbrev when_gone : Text → Bool → Option InflightInfo → List Message
when_gone id still none = []
when_gone id still (some p) = if still then [] else left_messages id p

filter-still_messages :
    (id r : Text) (p : Option InflightInfo) (e : InflightInfo)
    → filter (told id) (still_messages r p e) ≡ (if r == id then still_messages r p e else [])
unfolding still_messages
filter-still_messages id r none e = refl
filter-still_messages id r (some p) e = ground arith

filter-left_messages :
    (id r : Text) (p : InflightInfo)
    → filter (told id) (left_messages r p) ≡ (if r == id then left_messages r p else [])
filter-left_messages id r p = ground arith

filter-current_messages :
    (id : Text) (prev current : List (Text × InflightInfo))
    → Distinct current
    → filter (told id) (current_messages prev current)
      ≡ when_still id (lookup id prev) (lookup id current)
unfolding current_messages lookup
filter-current_messages id prev [] h = refl
filter-current_messages id prev ((r, e) ∷ current) h =
    filter-append (told id) (still_messages r (lookup r prev) e) (current_messages prev current)
    ∙ ap₂ (λ xs ys. xs ++ ys) (filter-still_messages id r (lookup r prev) e)
        (filter-current_messages id prev current h.1)
    ∙ elim (Bool-cases (r == id)) [
      | inl same ↦ rw (same, ← eq→path r id same, h.0) (append-nil _)
      | inr other ↦ rw other refl
    ]

filter-gone_messages :
    (id : Text) (prev current : List (Text × InflightInfo))
    → Distinct prev
    → filter (told id) (gone_messages current prev)
      ≡ when_gone id (is_some (lookup id current)) (lookup id prev)
unfolding gone_messages lookup
filter-gone_messages id [] current h = refl
filter-gone_messages id ((r, p) ∷ prev) current h =
    ground (arith, h.0, eq_iff r id, filter-gone_messages id prev current h.1)

still_and_gone :
    (id : Text) (p e : Option InflightInfo)
    → when_still id p e ++ when_gone id (is_some e) p ≡ fate id p e
unfolding still_messages
still_and_gone id none none = refl
still_and_gone id none (some e) = refl
still_and_gone id (some p) none = refl
still_and_gone id (some p) (some e) = append-nil _

filter-inflight_messages :
    (id : Text) (prev current : List (Text × InflightInfo))
    → Distinct prev
    → Distinct current
    → filter (told id) (inflight_messages prev current)
      ≡ fate id (lookup id prev) (lookup id current)
unfolding inflight_messages
filter-inflight_messages id prev current h k =
    filter-append (told id) (current_messages prev current) (gone_messages current prev)
    ∙ ap₂ (λ xs ys. xs ++ ys) (filter-current_messages id prev current k)
        (filter-gone_messages id prev current h)
    ∙ still_and_gone id (lookup id prev) (lookup id current)

module _ (id : Text) where
  filter-map :
      (f : Text → Message) (xs : List Text)
      → ((x : Text) → told id (f x) ≡ false)
      → filter (told id) (map f xs) ≡ []
  filter-map f [] h = refl
  filter-map f (x ∷ xs) h = ground (arith, h x, filter-map f xs h)

  filter-server_messages :
      (before now : List Text) → filter (told id) (server_messages before now) ≡ []
  unfolding server_messages
  filter-server_messages before now =
      filter-append (told id) (map server_up (newcomers before now))
        (map server_gone (newcomers now before))
      ∙ ap₂ (λ xs ys. xs ++ ys) (filter-map server_up (newcomers before now) (λ x. refl))
          (filter-map server_gone (newcomers now before) (λ x. refl))

pub dict_of-Distinct :
    {A : Type 0} (acc pairs : List (Text × A)) → Distinct acc → Distinct (dict_of acc pairs)
dict_of-Distinct acc [] h = h
dict_of-Distinct acc ((k, v) ∷ pairs) h =
    dict_of-Distinct (insert k v acc) pairs (Distinct-insert k v acc h)

inflight_before-Distinct : (prev : Option Snapshot) → Distinct (inflight_before prev)
inflight_before-Distinct none = tt
inflight_before-Distinct (some prev) = elim (Bool-cases prev.connected) [
  | inl connected ↦ simp connected (dict_of-Distinct [] (by_request prev.inflight) tt)
  | inr failed ↦ simp failed tt
]

-- What the tracker tells of a request is its fate, told once: that it was taken, orphaned, answered
-- or failed back by what the last connected snapshot and this one show of it, and nothing if this
-- one is not connected.
pub request_told :
    (id : Text) (prev : Option Snapshot) (s : Snapshot)
    → filter (told id) (messages prev s) ≡ (
        if s.connected
        then fate id
            (lookup id (inflight_before prev))
            (lookup id (dict_of [] (by_request s.inflight)))
        else [])
unfolding messages
request_told id prev s = elim (Bool-cases s.connected) [
  | inl connected ↦ simp connected (
      filter-third (told id) (connection_messages prev s)
        (server_messages (servers_before prev) (server_ids s.servers))
        (inflight_messages (inflight_before prev) (dict_of [] (by_request s.inflight)))
        (methods_messages (methods_before prev) s.methods)
        (filter-connection_messages (a_request id) prev s)
        (filter-server_messages id (servers_before prev) (server_ids s.servers))
        (filter-methods_messages (a_request id) (methods_before prev) s.methods)
      ∙ filter-inflight_messages id (inflight_before prev) (dict_of [] (by_request s.inflight))
          (inflight_before-Distinct prev) (dict_of-Distinct [] (by_request s.inflight) tt))
  | inr failed ↦ simp failed (
      filter-third (told id) (connection_messages prev s) [] []
        (methods_messages (methods_before prev) s.methods)
        (filter-connection_messages (a_request id) prev s) refl
        (filter-methods_messages (a_request id) (methods_before prev) s.methods))
]
