-- ===== src/Visualizer/Trees/Copied.antt =====
-- Which rows are copied from a tree of app.py.
use mathlib.Core.List.{Memᴰ}
use mathlib.Core.List.Memᴰ.{head, tail}
use anycall.Prelude.{
  ◌≡◌, refl, subst, arith, Bool, true, false, not, ◌||◌, List, [], ◌∷◌, ◌⊎◌, inl, inr, Bool-cases,
  All,
}
use anycall.Text.{◌==◌}
use anycall.Redis.{contains}
use anycall.Visualizer.Trees.{Row, Tree}
use anycall.Visualizer.Trees.Entries.{
  picked, pick-inv, contains-keys_of, key_found, Ups, entries_of-Ups,
}
use anycall.Visualizer.Trees.Copy.{
  Entry, entries_of, selected_items, keys_of, has_selected_ancestor, topmost,
}

module _ (t : Tree) where
  abbrev rows : List Entry
  rows = entries_of [] t.items

  abbrev any_selected : List Row → Bool
  any_selected [] = false
  any_selected (a ∷ up) = t.selected a.id || any_selected up

  -- Rows with the same key are the same item.
  abbrev pub KeysApart : Type 0
  KeysApart =
      (e f : Entry) → Memᴰ e rows → Memᴰ f rows → (e.0.key == f.0.key) ≡ true → e.0.id ≡ f.0.id

  selected_ancestor :
      (up : List Row)
      → KeysApart
      → Ups rows up
      → has_selected_ancestor (keys_of (selected_items t)) up ≡ true
      → any_selected up ≡ true
  unfolding has_selected_ancestor selected_items
  selected_ancestor [] apart ups h = cc h
  selected_ancestor (a ∷ up) apart ups h =
      elim (Bool-cases (contains a.key (keys_of (selected_items t)))) [
        | inl found ↦
            let (e, m, same) = key_found a.key (selected_items t) found in
            let (there, chosen) = pick-inv (λ e. t.selected e.0.id) e rows m in
            let id : e.0.id ≡ a.id = apart e (a, up) there ups.0 same in
            let marked : t.selected a.id ≡ true = subst (λ n. t.selected n ≡ true) id chosen in
            ground (arith, marked)
        | inr absent ↦
            let later : has_selected_ancestor (keys_of (selected_items t)) up ≡ true =
              ground (arith, absent, h) in
            ground (arith, selected_ancestor up apart ups.1 later)
      ]

  covered :
      (up : List Row)
      → KeysApart
      → Ups rows up
      → any_selected up ≡ true
      → (e : Entry) × Memᴰ e (topmost (selected_items t)) × Memᴰ e.0 up
  unfolding topmost selected_items
  covered [] apart ups h = cc h
  covered (a ∷ up) apart ups h = elim (Bool-cases (any_selected up)) [
    | inl above ↦ let (e, copied, there) = covered up apart ups.1 above in (e, copied, tail there)
    | inr alone ↦
        let marked : t.selected a.id ≡ true = ground (arith, h, alone) in
        let free : has_selected_ancestor (keys_of (selected_items t)) up ≡ false =
          elim (Bool-cases (has_selected_ancestor (keys_of (selected_items t)) up)) [
            | inl found ↦ cc (selected_ancestor up apart ups.1 found, alone)
            | inr none_found ↦ none_found
          ] in
        (
          (a, up),
          picked (λ e. not (has_selected_ancestor (keys_of (selected_items t)) e.1)) (a, up)
              (selected_items t) (picked (λ e. t.selected e.0.id) (a, up) rows ups.0 marked)
              (rw free refl),
          head refl,
        )
  ]

  unselected :
      (up : List Row)
      → Ups rows up
      → has_selected_ancestor (keys_of (selected_items t)) up ≡ false
      → All (λ a. t.selected a.id ≡ false) up
  unfolding has_selected_ancestor selected_items
  unselected [] ups h = tt
  unselected (a ∷ up) ups h = (
    elim (Bool-cases (t.selected a.id)) [
      | inl marked ↦
          let found =
            contains-keys_of (a, up) (selected_items t)
              (picked (λ e. t.selected e.0.id) (a, up) rows ups.0 marked) in
          ground (arith, h, found)
      | inr bare ↦ bare
    ],
    unselected up ups.1 (ground (arith, h)),
  )

-- For a tree in which rows with the same key are the same item: of each selected row, the row
-- itself or an ancestor of it is among the rows that are copied, and a selected row that is copied
-- has no ancestor that is selected.
pub copied_once :
    (t : Tree)
    → KeysApart t
    → (e : Entry) → Memᴰ e (selected_items t)
    → ((f : Entry) × Memᴰ f (topmost (selected_items t)) × ((f ≡ e) ⊎ Memᴰ f.0 e.1))
      × (Memᴰ e (topmost (selected_items t)) → All (λ a. t.selected a.id ≡ false) e.1)
unfolding selected_items topmost
copied_once t apart e m =
    let within = (pick-inv (λ e. t.selected e.0.id) e (rows t) m).0 in
    let ups = entries_of-Ups (rows t) [] t.items (λ f n. n) tt e within in
    (
      elim (Bool-cases (has_selected_ancestor (keys_of (selected_items t)) e.1)) [
        | inl below ↦
            let (f, copied, above) =
              covered t e.1 apart ups (selected_ancestor t e.1 apart ups below) in
            (f, copied, inr above)
        | inr top ↦ (
          e,
          picked (λ e. not (has_selected_ancestor (keys_of (selected_items t)) e.1)) e
              (selected_items t) m (rw top refl),
          inl refl,
        )
      ],
      λ copied.
          let top =
            (pick-inv (λ e. not (has_selected_ancestor (keys_of (selected_items t)) e.1)) e
              (selected_items t) copied).1 in
          unselected t e.1 ups (ground (arith, top)),
    )
