-- ===== src/Adapter/Acquire.antt =====
-- What ACQUIRE_SCRIPT of redis_adapter.py does to what is stored.
use anycall.Prelude.{
  ◌≡◌, refl, ap, ◌∙◌, fun_ext, Option, none, some, List, [], ◌∷◌, arith, inl, inr, Option-cases,
}
use anycall.Text.{Text}
use anycall.Text.Equality.{eq_iff}
use anycall.Redis.{Redis, Data, update, last_of, front_of}
use anycall.Adapter.{string_id, record_owner, take_item, acquire_script}

-- The first key whose list has an element, with its tail element.
abbrev pub first_ready : (Text → List Text) → List Text → Option (Text × Text)
first_ready list [] = none
first_ready list (key ∷ keys) = elim (last_of (list key)) [
  | none ↦ first_ready list keys
  | some item ↦ some (key, item)
]

-- The in-flight entry that goes with a taken item.
abbrev pub with_owner :
    Text → Text → Option Text → (Text → Text → Option Text) → Text → Text → Option Text
with_owner inflight owner none hash = hash
with_owner inflight owner (some id) hash =
    update hash inflight (update (hash inflight) id (some owner))

abbrev pub id_or_empty : Option Text → Text
id_or_empty none = []
id_or_empty (some id) = id

last_of_ne_none : (x : Text) (xs : List Text) → last_of (x ∷ xs) ≡ none → ⊥
last_of_ne_none x [] h = cc
last_of_ne_none x (y ∷ xs) h = last_of_ne_none y xs h

last_of-none : (xs : List Text) → last_of xs ≡ none → xs ≡ []
last_of-none [] h = refl
last_of-none (x ∷ xs) h = absurd (last_of_ne_none x xs h)

update_empty :
    (list : Text → List Text) (key j : Text)
    → list key ≡ []
    → update list key (front_of (list key)) j ≡ list j
update_empty list key j h = ground (arith, h, eq_iff key j)

-- The id under which ACQUIRE_SCRIPT records an item, if it reads as a request.
abbrev pub id_of : Redis → Text → Option Text
id_of R item = string_id (R.cjson_decode item)

module _ (R : Redis) (inflight owner : Text) where
  open R use {State, rpop, contents, contents-rpop, rpop_value, contents-hset}

  -- Taking the tail element of one list, in one step with the entry that names its owner.
  abbrev pub take_spec : Text → Text → Data → Data
  take_spec key item d = record d {
    list = update d.list key (front_of (d.list key));
    hash = with_owner inflight owner (id_of R item) d.hash;
  }

  abbrev pub acquired : Data → Option (Text × Text) → Option (Text × Text × Text) × Data
  acquired d none = (none, d)
  acquired d (some (key, item)) =
      (some (key, item, id_or_empty (id_of R item)), take_spec key item d)

  -- The whole script, on what is stored.
  abbrev pub acquire_spec : List Text → Data → Option (Text × Text × Text) × Data
  acquire_spec keys d = acquired d (first_ready d.list keys)

  rpop_empty :
      (key : Text) (s : State)
      → last_of ((contents s).list key) ≡ none
      → contents (rpop key s).1 ≡ contents s
  rpop_empty key s h =
      contents-rpop key s
      ∙ ap (λ l. record (contents s) { list = l })
          (fun_ext
            λ j. update_empty (contents s).list key j (last_of-none ((contents s).list key) h))

  record_owner_lem :
      (o : Option Text) (s : State)
      → ((record_owner R inflight owner o s).0 ≡ id_or_empty o)
        × (contents (record_owner R inflight owner o s).1
            ≡ record (contents s) { hash = with_owner inflight owner o (contents s).hash })
  unfolding record_owner
  record_owner_lem none s = (refl, refl)
  record_owner_lem (some id) s = (refl, contents-hset inflight id owner s)

  take_item_lem :
      (key item : Text) (s : State)
      → last_of ((contents s).list key) ≡ some item
      → ((take_item R inflight owner key item (rpop key s).1).0
          ≡ (key, item, id_or_empty (id_of R item)))
        × (contents (take_item R inflight owner key item (rpop key s).1).1
            ≡ take_spec key item (contents s))
  unfolding take_item
  take_item_lem key item s h =
      let (named, written) = record_owner_lem (id_of R item) (rpop key s).1 in
      (ap (λ id. (key, item, id)) named, written ∙ ap own (contents-rpop key s))
    where
      own : Data → Data
      own d = record d { hash = with_owner inflight owner (id_of R item) d.hash }

  -- ACQUIRE_SCRIPT implements its specification on what is stored: it takes the tail of the first
  -- queue that has an entry and names its owner in the same step, and changes nothing if all are
  -- empty.
  pub acquire_script_refines :
      (keys : List Text) (s : State)
      → let result = acquire_script R inflight keys owner s in
        (result.0 ≡ (acquire_spec keys (contents s)).0)
        × (contents result.1 ≡ (acquire_spec keys (contents s)).1)
  unfolding acquire_script
  acquire_script_refines [] s = (refl, refl)
  acquire_script_refines (key ∷ keys) s = elim (Option-cases (last_of ((contents s).list key))) [
    | inl empty ↦
        let rest = acquire_script_refines keys (rpop key s).1 in
        rw (rpop_value key s, empty, acquire_script, first_ready)
          (rw (rpop_empty key s empty) at rest)
    | inr (item, ready) ↦
        let taken = take_item_lem key item s ready in
        rw (rpop_value key s, ready, acquire_script, first_ready) (ap some taken.0, taken.1)
  ]
