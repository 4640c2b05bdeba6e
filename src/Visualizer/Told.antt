-- ===== src/Visualizer/Told.antt =====
-- The messages of the tracker of poller.py that pass a test.
pub mod Requests
pub mod Servers
use anycall.Prelude.{
  ◌≡◌, refl, sym, ap, ap₂, ◌∙◌, arith, Bool, true, false, not, ◌&&◌, Option, none, some, List, [],
  ◌∷◌, ◌++◌, map, append-nil, is_some, if◌then◌else◌, inl, inr, Bool-cases, Option-cases,
}
use anycall.Text.{Text, ◌==◌}
use anycall.Text.Equality.{eq_iff, eq→path}
use anycall.Assoc.{lookup, insert, Distinct, Distinct-insert}
use anycall.Redis.{contains}
use anycall.Visualizer.{
  MethodInfo, InflightInfo, Snapshot, Message, lost_connection, restored, server_up, server_gone,
  taken, orphaned, answered, failed_back, discovered, backlog_changed, request_queued,
}
use anycall.Visualizer.Sorted.{sorted, insort, text_lt}
use anycall.Visualizer.Rows.{dict_of, server_ids}
use anycall.Visualizer.Activity.{
  messages, connection_messages, newcomers, methods_before, server_messages, inflight_messages,
  methods_messages, current_messages, gone_messages, still_messages, left_messages, method_messages,
  entry_messages, inflight_before, servers_before, by_request,
}

abbrev pub filter : {A : Type 0} → (A → Bool) → List A → List A
filter p [] = []
filter p (x ∷ xs) = let rest = filter p xs in if p x then x ∷ rest else rest

pub filter-append :
    {A : Type 0} (p : A → Bool) (xs ys : List A) → filter p (xs ++ ys) ≡ filter p xs ++ filter p ys
filter-append p [] ys = refl
filter-append p (x ∷ xs) ys = ground (arith, filter-append p xs ys)

pub filter-third :
    {A : Type 0} (p : A → Bool) (a b c d : List A)
    → filter p a ≡ []
    → filter p b ≡ []
    → filter p d ≡ []
    → filter p (a ++ b ++ c ++ d) ≡ filter p c
filter-third p a b c d ha hb hd =
    rw
      (filter-append p (a ++ b ++ c) d, filter-append p (a ++ b) c, filter-append p a b, ha, hb, hd)
      (append-nil _)

pub filter-second :
    {A : Type 0} (p : A → Bool) (a b c d : List A)
    → filter p a ≡ []
    → filter p c ≡ []
    → filter p d ≡ []
    → filter p (a ++ b ++ c ++ d) ≡ filter p b
filter-second p a b c d ha hc hd =
    rw
      (filter-append p (a ++ b ++ c) d, filter-append p (a ++ b) c, filter-append p a b, ha, hc, hd)
      (append-nil _ ∙ append-nil _)

-- What a message may be about.
pub data Subject : Type 0 where
  a_request a_server : Text → Subject

abbrev pub about : Message → Subject → Bool
about (taken r owner) (a_request id) = r == id
about (taken r owner) (a_server id) = false
about (orphaned r owner) (a_request id) = r == id
about (orphaned r owner) (a_server id) = false
about (answered r owner) (a_request id) = r == id
about (answered r owner) (a_server id) = false
about (failed_back r owner) (a_request id) = r == id
about (failed_back r owner) (a_server id) = false
about (server_up r) (a_request id) = false
about (server_up r) (a_server id) = r == id
about (server_gone r) (a_request id) = false
about (server_gone r) (a_server id) = r == id
about (lost_connection e) subject = false
about restored subject = false
about (discovered name) subject = false
about (backlog_changed name before after) subject = false
about (request_queued name preview) subject = false

module _ (subject : Subject) where
  pub filter-connection_messages :
      (prev : Option Snapshot) (s : Snapshot)
      → filter (λ m. about m subject) (connection_messages prev s) ≡ []
  unfolding connection_messages
  filter-connection_messages none s = refl
  filter-connection_messages (some prev) s = ground arith

  filter-entry_messages :
      (name : Text) (prev entries : List (Text × Text))
      → filter (λ m. about m subject) (entry_messages name prev entries) ≡ []
  unfolding entry_messages
  filter-entry_messages name prev [] = refl
  filter-entry_messages name prev ((entry_id, preview) ∷ entries) =
      ground (arith, filter-entry_messages name prev entries)

  filter-method_messages :
      (prev : Option MethodInfo) (m : MethodInfo)
      → filter (λ m. about m subject) (method_messages prev m) ≡ []
  unfolding method_messages
  filter-method_messages none m = filter-entry_messages m.name [] m.entries
  filter-method_messages (some p) m =
      ground (arith, filter-entry_messages m.name p.entries m.entries)

  pub filter-methods_messages :
      (prev : List (Text × MethodInfo)) (ms : List MethodInfo)
      → filter (λ m. about m subject) (methods_messages prev ms) ≡ []
  unfolding methods_messages
  filter-methods_messages prev [] = refl
  filter-methods_messages prev (m ∷ ms) =
      filter-append (λ m. about m subject) (method_messages (lookup m.name prev) m)
        (methods_messages prev ms)
      ∙ ap₂ (λ xs ys. xs ++ ys) (filter-method_messages (lookup m.name prev) m)
          (filter-methods_messages prev ms)
