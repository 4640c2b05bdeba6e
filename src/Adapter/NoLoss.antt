-- ===== src/Adapter/NoLoss.antt =====
-- Where a request is before and after ACQUIRE_SCRIPT of redis_adapter.py.
use anycall.Prelude.{
  ◌≡◌, refl, sym, ap, ◌∙◌, Option, none, some, List, [], ◌∷◌, ◌++◌, append-nil, arith, inl, inr,
  Option-cases, Bool-cases, if◌then◌else◌,
}
use anycall.Text.{Text, ◌==◌}
use anycall.Text.Equality.{eq→path, eq_self, eq_iff}
use anycall.Redis.{Redis, Data, last_of, front_of}
use anycall.Adapter.{acquire_script}
use anycall.Adapter.Acquire.{first_ready, acquired, acquire_script_refines, id_of, with_owner}

-- What a reply takes out of the queue `j`, at its tail.
abbrev pub taken_from : Text → Option (Text × Text × Text) → List Text
taken_from j none = []
taken_from j (some (key, item, id)) = if key == j then item ∷ [] else []

front-last : (xs : List Text) (x : Text) → last_of xs ≡ some x → xs ≡ front_of xs ++ x ∷ []
front-last [] x h = cc
front-last (y ∷ []) x h = cc
front-last (y ∷ z ∷ xs) x h = ap (◌∷◌ y) (front-last (z ∷ xs) x h)

first_ready-last :
    (list : Text → List Text) (keys : List Text) (key item : Text)
    → first_ready list keys ≡ some (key, item)
    → last_of (list key) ≡ some item
first_ready-last list [] key item h = cc
first_ready-last list (k ∷ keys) key item h = elim (Option-cases (last_of (list k))) [
  | inl empty ↦ first_ready-last list keys key item (rw (empty, first_ready) at h)
  | inr (x, ready) ↦ same_pair x ready (rw (ready, first_ready) at h)
]
  where
    same_pair :
        (x : Text)
        → last_of (list k) ≡ some x
        → ◌≡◌ {A = Option (Text × Text)} (some (k, x)) (some (key, item))
        → last_of (list key) ≡ some item
    same_pair x ready e = ground arith

module _ (R : Redis) (inflight owner : Text) where
  open R use {State, contents}

  -- The entries of each queue, and what the reply took from it, are what the queue held.
  acquired_keeps :
      (d : Data) (o : Option (Text × Text)) (j : Text)
      → ((key item : Text) → o ≡ some (key, item) → last_of (d.list key) ≡ some item)
      → d.list j
        ≡ (acquired R inflight owner d o).1.list j ++ taken_from j (acquired R inflight owner d o).0
  acquired_keeps d none j h = sym (append-nil (d.list j))
  acquired_keeps d (some (key, item)) j h = elim (Bool-cases (key == j)) [
    | inl same ↦
        rw same (rw (← eq→path key j same) (front-last (d.list key) item (h key item refl)))
    | inr other ↦ rw other (sym (append-nil (d.list j)))
  ]

  own_entry :
      (o : Option Text) (id : Text) (hash : Text → Text → Option Text)
      → o ≡ some id
      → with_owner inflight owner o hash inflight id ≡ some owner
  own_entry none id hash e = cc
  own_entry (some x) id hash e = ground (arith, eq_self inflight, eq_self id, eq_iff x id)

  same_item :
      (k x key item : Text)
      → ◌≡◌ {A = Option (Text × Text)} (some (k, x)) (some (key, item))
      → x ≡ item
  same_item k x key item e = ground arith

  recorded :
      (d : Data) (o : Option (Text × Text)) (key item id : Text)
      → o ≡ some (key, item)
      → id_of R item ≡ some id
      → (acquired R inflight owner d o).1.hash inflight id ≡ some owner
  recorded d none key item id e h = cc
  recorded d (some (k, x)) key item id e h =
      own_entry (id_of R x) id d.hash (ap (id_of R) (same_item k x key item e) ∙ h)

  reply_item :
      (d : Data) (o : Option (Text × Text)) (key item reply : Text)
      → (acquired R inflight owner d o).0 ≡ some (key, item, reply)
      → o ≡ some (key, item)
  reply_item d none key item reply e = cc
  reply_item d (some (k, x)) key item reply e = ground arith

  -- ACQUIRE_SCRIPT never loses a request: every list is what is left of it followed by what the
  -- reply took from it, and a replied item whose requestId is a string is in the in-flight hash
  -- under the caller.
  pub acquire_never_loses :
      (keys : List Text) (s : State)
      → let result = acquire_script R inflight keys owner s in
        ((j : Text) → (contents s).list j ≡ (contents result.1).list j ++ taken_from j result.0)
        × ((key item reply id : Text)
            → result.0 ≡ some (key, item, reply)
            → id_of R item ≡ some id
            → (contents result.1).hash inflight id ≡ some owner)
  acquire_never_loses keys s =
      let (replied, stored) = acquire_script_refines R inflight owner keys s in
      (
        λ j.
            rw (replied, stored)
              (acquired_keeps (contents s) (first_ready (contents s).list keys) j
                (first_ready-last (contents s).list keys)),
        λ key item reply id e h. rw stored (
            recorded (contents s) (first_ready (contents s).list keys) key item id
              (reply_item (contents s) (first_ready (contents s).list keys) key item reply
                (sym replied ∙ e))
              h),
      )
