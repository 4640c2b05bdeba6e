-- ===== src/Assoc.antt =====
-- Python's `dict` and Redis's maps with text keys, as association lists in insertion order.
use anycall.Prelude.{
  ◌≡◌, ◌∙◌, refl, ap, inl, inr, Bool-cases, Option, none, some, List, [], ◌∷◌, arith, if◌then◌else◌,
}
use anycall.Text.{Text, ◌==◌}
use anycall.Text.Equality.{eq_iff}

module _ {ℓ} {Value : Type ℓ} where
  unfoldable pub lookup : Text → List (Text × Value) → Option Value
  lookup wanted [] = none
  lookup wanted (entry ∷ entries) =
      let later = lookup wanted entries in if entry.0 == wanted then some entry.1 else later

  -- A key that is there keeps its place.
  unfoldable pub insert : Text → Value → List (Text × Value) → List (Text × Value)
  insert key value [] = (key, value) ∷ []
  insert key value (entry ∷ entries) =
      let rest = insert key value entries in
      if entry.0 == key then (entry.0, value) ∷ entries else entry ∷ rest

  unfoldable pub remove : Text → List (Text × Value) → List (Text × Value)
  remove key [] = []
  remove key (entry ∷ entries) =
      let rest = remove key entries in if entry.0 == key then rest else entry ∷ rest

  -- Each key is there once.
  abbrev pub Distinct : List (Text × Value) → Type ℓ
  Distinct [] = Unit
  Distinct (entry ∷ entries) = (lookup entry.0 entries ≡ none) × Distinct entries

  module _ (key wanted : Text) where
    pub lookup-insert :
        (value : Value) (entries : List (Text × Value))
        → lookup wanted (insert key value entries)
          ≡ (if key == wanted then some value else lookup wanted entries)
    unfolding insert lookup
    lookup-insert value [] = refl
    lookup-insert value ((name, other) ∷ entries) =
        ground (
          arith,
          eq_iff key wanted,
          eq_iff name key,
          eq_iff name wanted,
          lookup-insert value entries,
        )

    pub lookup-remove :
        (entries : List (Text × Value))
        → lookup wanted (remove key entries)
          ≡ (if key == wanted then none else lookup wanted entries)
    unfolding remove lookup
    lookup-remove [] = ground arith
    lookup-remove ((name, other) ∷ entries) =
        ground
          (arith, eq_iff key wanted, eq_iff name key, eq_iff name wanted, lookup-remove entries)

module _ {ℓ} {Value : Type ℓ} where
  pub Distinct-insert :
      (key : Text) (value : Value) (entries : List (Text × Value))
      → Distinct entries
      → Distinct (insert key value entries)
  unfolding insert
  Distinct-insert key value [] h = (unfold lookup in refl, tt)
  Distinct-insert key value ((name, other) ∷ entries) (new, h) = elim (Bool-cases (name == key)) [
    | inl same ↦ rw same (new, h)
    | inr apart ↦ rw apart (
      ground (arith, lookup-insert key name value entries, eq_iff key name, eq_iff name key),
      Distinct-insert key value entries h,
    )
  ]

  -- The pairs without repeated keys, the first of each.
  abbrev pub canonical : List (Text × Value) → List (Text × Value)
  canonical [] = []
  canonical ((key, value) ∷ entries) = insert key value (canonical entries)

  pub lookup-canonical :
      (wanted : Text) (entries : List (Text × Value))
      → lookup wanted (canonical entries) ≡ lookup wanted entries
  unfolding lookup
  lookup-canonical wanted [] = refl
  lookup-canonical wanted ((key, value) ∷ entries) =
      lookup-insert key wanted value (canonical entries)
      ∙ ap (λ o. if key == wanted then some value else o) (lookup-canonical wanted entries)

  pub canonical-Distinct : (entries : List (Text × Value)) → Distinct (canonical entries)
  canonical-Distinct [] = tt
  canonical-Distinct ((key, value) ∷ entries) =
      Distinct-insert key value (canonical entries) (canonical-Distinct entries)
