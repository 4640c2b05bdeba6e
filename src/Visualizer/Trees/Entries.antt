-- ===== src/Visualizer/Trees/Entries.antt =====
-- The rows of a tree of app.py with their ancestors, as a list.
use mathlib.Core.List.{Memᴰ}
use mathlib.Core.List.Memᴰ.{head, tail, cases_cons}
use anycall.Prelude.{
  ◌≡◌, refl, sym, subst, arith, Bool, true, List, [], ◌∷◌, ◌++◌, ◌⊎◌, inl, inr, Bool-cases,
}
use anycall.Text.{Text, ◌==◌}
use anycall.Text.Equality.{eq_self}
use anycall.Redis.{contains}
use anycall.Visualizer.Trees
use anycall.Visualizer.Trees.{Row, Tree}
use anycall.Visualizer.Trees.Copy.{Entry, entries_of_item, entries_of, pick, keys_of}

module _ {A : Type 0} where
  Memᴰ-left : {a : A} (xs ys : List A) → Memᴰ a xs → Memᴰ a (xs ++ ys)
  Memᴰ-left [] ys m = elim m [ ]
  Memᴰ-left (x ∷ xs) ys (head e) = head e
  Memᴰ-left (x ∷ xs) ys (tail m) = tail (Memᴰ-left xs ys m)

  Memᴰ-right : {a : A} (xs ys : List A) → Memᴰ a ys → Memᴰ a (xs ++ ys)
  Memᴰ-right [] ys m = m
  Memᴰ-right (x ∷ xs) ys m = tail (Memᴰ-right xs ys m)

  Memᴰ-split : {a : A} (xs ys : List A) → Memᴰ a (xs ++ ys) → Memᴰ a xs ⊎ Memᴰ a ys
  Memᴰ-split [] ys m = inr m
  Memᴰ-split (x ∷ xs) ys (head e) = inl (head e)
  Memᴰ-split (x ∷ xs) ys (tail m) = elim (Memᴰ-split xs ys m) [
    | inl l ↦ inl (tail l)
    | inr r ↦ inr r
  ]

module _ (test : Entry → Bool) where
  pub picked :
      (e : Entry) (entries : List Entry)
      → Memᴰ e entries
      → test e ≡ true
      → Memᴰ e (pick test entries)
  picked e [] m h = elim m [ ]
  picked e (x ∷ entries) (head same) h =
      let taken = subst (λ y. test y ≡ true) same h in rw taken (head same)
  picked e (x ∷ entries) (tail m) h = elim (Bool-cases (test x)) [
    | inl taken ↦ rw taken (tail (picked e entries m h))
    | inr left ↦ rw left (picked e entries m h)
  ]

  pub pick-inv :
      (e : Entry) (entries : List Entry)
      → Memᴰ e (pick test entries)
      → Memᴰ e entries × (test e ≡ true)
  pick-inv e [] m = elim m [ ]
  pick-inv e (x ∷ entries) m = elim (Bool-cases (test x)) [
    | inl taken ↦ elim (cases_cons (rw taken at m)) [
      | inl same ↦ (head same, subst (λ y. test y ≡ true) (sym same) taken)
      | inr later ↦ let (there, passes) = pick-inv e entries later in (tail there, passes)
    ]
    | inr left ↦ let (there, passes) = pick-inv e entries (rw left at m) in (tail there, passes)
  ]

pub contains-keys_of :
    (e : Entry) (entries : List Entry) → Memᴰ e entries → contains e.0.key (keys_of entries) ≡ true
contains-keys_of e [] m = elim m [ ]
contains-keys_of e (x ∷ entries) (head same) =
    subst (λ (y : Entry). contains e.0.key (keys_of (y ∷ entries)) ≡ true) same
      (rw (eq_self e.0.key) refl)
contains-keys_of e (x ∷ entries) (tail m) = ground (arith, contains-keys_of e entries m)

pub key_found :
    (key : Text) (entries : List Entry)
    → contains key (keys_of entries) ≡ true
    → (e : Entry) × Memᴰ e entries × ((e.0.key == key) ≡ true)
key_found key [] h = cc h
key_found key (x ∷ entries) h = elim (Bool-cases (x.0.key == key)) [
  | inl same ↦ (x, head refl, same)
  | inr apart ↦
      let (e, there, same) = key_found key entries (rw apart at h) in (e, tail there, same)
]

-- The ancestors of a row, with their own ancestors, are entries.
abbrev pub Ups : List Entry → List Row → Type 0
Ups entries [] = Unit {0}
Ups entries (a ∷ up) = Memᴰ (a, up) entries × Ups entries up

mutual
  unfolding entries_of_item entries_of

  entries_of_item-Ups :
      (entries : List Entry) (up : List Row) (i : Trees.Item)
      → ((e : Entry) → Memᴰ e (entries_of_item up i) → Memᴰ e entries)
      → Ups entries up
      → (e : Entry) → Memᴰ e (entries_of_item up i)
      → Ups entries e.1
  entries_of_item-Ups entries up (Trees.item row children) within ups e m = elim (cases_cons m) [
    | inl same ↦ subst (λ (y : Entry). Ups entries y.1) (sym same) ups
    | inr below ↦
        entries_of-Ups entries (row ∷ up) children (λ f n. within f (tail n))
          (within (row, up) (head refl), ups) e below
  ]

  pub entries_of-Ups :
      (entries : List Entry) (up : List Row) (is : Trees.Items)
      → ((e : Entry) → Memᴰ e (entries_of up is) → Memᴰ e entries)
      → Ups entries up
      → (e : Entry) → Memᴰ e (entries_of up is)
      → Ups entries e.1
  entries_of-Ups entries up Trees.end within ups e m = elim m [ ]
  entries_of-Ups entries up (Trees.next i rest) within ups e m =
      elim (Memᴰ-split (entries_of_item up i) (entries_of up rest) m) [
        | inl first ↦
            entries_of_item-Ups entries up i
              (λ f n. within f (Memᴰ-left (entries_of_item up i) (entries_of up rest) n)) ups e
              first
        | inr later ↦
            entries_of-Ups entries up rest
              (λ f n. within f (Memᴰ-right (entries_of_item up i) (entries_of up rest) n)) ups e
              later
      ]
