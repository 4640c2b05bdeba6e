-- ===== src/Visualizer/Steady.antt =====
-- The tracker of poller.py on a snapshot that shows what the one before showed.
use anycall.Sets.{unique, without, contains-unique}
use anycall.Prelude.{
  ℕ, ◌≡◌, refl, sym, ap, ◌∙◌, arith, true, none, some, List, [], ◌∷◌, is_some, eqb_self,
  if◌then◌else◌, inl, inr, Bool-cases,
}
use anycall.Text.{Text}
use anycall.Text.Equality.{eq_iff, eq_self}
use anycall.Assoc.{lookup, insert, Distinct, lookup-insert}
use anycall.Redis.{contains}
use anycall.Visualizer.{MethodInfo, InflightInfo, Snapshot}
use anycall.Visualizer.Sorted.{sorted, text_lt}
use anycall.Visualizer.Rows.{dict_of, server_ids}
use anycall.Visualizer.Activity.{
  messages, connection_messages, server_messages, inflight_messages, methods_messages,
  current_messages, gone_messages, still_messages, method_messages, entry_messages, newcomers,
  by_request, by_name,
}
use anycall.Visualizer.Told.Requests.{dict_of-Distinct}

without-all :
    (ys xs : List Text)
    → ((x : Text) → contains x xs ≡ true → contains x ys ≡ true)
    → without ys xs ≡ []
unfolding without
without-all ys [] h = refl
without-all ys (x ∷ xs) h =
    ground (arith, eq_self x, h x, without-all ys xs (λ y there. h y (ground (arith, there))))

newcomers_self : (ids : List Text) → newcomers ids ids ≡ []
unfolding sorted
newcomers_self ids =
    ap (sorted text_lt)
      (without-all ids (unique ids) (λ x there. sym (contains-unique x ids) ∙ there))

lookup-dict_of :
    {A : Type 0} (k : Text) (acc pairs : List (Text × A))
    → Distinct pairs
    → lookup k (dict_of acc pairs)
      ≡ (if is_some (lookup k pairs) then lookup k pairs else lookup k acc)
unfolding lookup
lookup-dict_of k acc [] h = refl
lookup-dict_of k acc ((name, v) ∷ pairs) h = ground (
  arith,
  eq_iff name k,
  h.0,
  lookup-dict_of k (insert name v acc) pairs h.1,
  lookup-insert name k v acc,
)

lookup-head : {V : Type 0} (k : Text) (v : V) (m : List (Text × V)) → lookup k ((k, v) ∷ m) ≡ some v
unfolding lookup
lookup-head k v m = rw (eq_self k)

lookup-tail :
    {V : Type 0} (k j : Text) (v w : V) (m : List (Text × V))
    → lookup k m ≡ none
    → lookup j m ≡ some w
    → lookup j ((k, v) ∷ m) ≡ some w
unfolding lookup
lookup-tail k j v w m new there = ground (arith, eq_iff k j, new, there)

still_messages_self : (id : Text) (e : InflightInfo) → still_messages id (some e) e ≡ []
unfolding still_messages
still_messages_self id e = ground arith

current_messages_self :
    (prev current : List (Text × InflightInfo))
    → Distinct current
    → ((id : Text) (e : InflightInfo) → lookup id current ≡ some e → lookup id prev ≡ some e)
    → current_messages prev current ≡ []
unfolding current_messages
current_messages_self prev [] h k = refl
current_messages_self prev ((id, e) ∷ current) h k =
    let rest =
      current_messages_self prev current h.1
        (λ r f there. k r f (lookup-tail id r e f current h.0 there)) in
    rw (k id e (lookup-head id e current), rest, still_messages_self id e)

gone_messages_self :
    (current prev : List (Text × InflightInfo))
    → ((id : Text) → is_some (lookup id prev) ≡ true → is_some (lookup id current) ≡ true)
    → gone_messages current prev ≡ []
unfolding gone_messages lookup
gone_messages_self current [] h = refl
gone_messages_self current ((id, e) ∷ prev) h = ground (
  arith,
  eq_self id,
  h id,
  gone_messages_self current prev (λ r there. h r (ground (arith, there))),
)

entry_messages_self :
    (name : Text) (prev entries : List (Text × Text))
    → ((id : Text) → is_some (lookup id entries) ≡ true → is_some (lookup id prev) ≡ true)
    → entry_messages name prev entries ≡ []
unfolding entry_messages lookup
entry_messages_self name prev [] h = refl
entry_messages_self name prev ((id, preview) ∷ entries) h = ground (
  arith,
  eq_self id,
  h id,
  entry_messages_self name prev entries (λ r there. h r (ground (arith, there))),
)

method_messages_self : (m : MethodInfo) → method_messages (some m) m ≡ []
unfolding method_messages
method_messages_self m =
    rw (eqb_self m.backlog, entry_messages_self m.name m.entries m.entries (λ id there. there))

methods_messages_self :
    (prev : List (Text × MethodInfo)) (ms : List MethodInfo)
    → Distinct (by_name ms)
    → ((name : Text) (m : MethodInfo)
        → lookup name (by_name ms) ≡ some m
        → lookup name prev ≡ some m)
    → methods_messages prev ms ≡ []
unfolding methods_messages
methods_messages_self prev [] h k = refl
methods_messages_self prev (m ∷ ms) h k =
    let rest =
      methods_messages_self prev ms h.1
        (λ name n there. k name n (lookup-tail m.name name m n (by_name ms) h.0 there)) in
    rw (k m.name m (lookup-head m.name m (by_name ms)), rest, method_messages_self m)

-- The tracker tells nothing of a snapshot that differs from the one before only in its time, if no
-- two methods have the same name.
pub same_snapshot_is_silent :
    (s : Snapshot) (earlier : ℕ)
    → Distinct (by_name s.methods)
    → messages (some (record s { taken_at = earlier })) s ≡ []
unfolding messages connection_messages server_messages inflight_messages
same_snapshot_is_silent s earlier h =
    let methods =
      methods_messages_self (dict_of [] (by_name s.methods)) s.methods h
        (λ name m there. lookup-dict_of name [] (by_name s.methods) h ∙ rw there) in
    let dict = dict_of [] (by_request s.inflight) in
    let current =
      current_messages_self dict dict (dict_of-Distinct [] (by_request s.inflight) tt)
        (λ id e there. there) in
    let gone = gone_messages_self dict dict (λ id there. there) in
    elim (Bool-cases s.connected) [
      | inl connected ↦
          simp (connected, newcomers_self (server_ids s.servers), current, gone, methods)
      | inr failed ↦ simp (failed, methods)
    ]
