-- ===== src/Visualizer/Trees/Walks.antt =====
-- The walks over a tree of app.py, as passes over its rows from top to bottom.
use anycall.Prelude.{
  ℕ, ◌≡◌, refl, sym, ap, ◌∙◌, arith, Bool, false, ◌||◌, ◌&&◌, List, [], ◌∷◌, ◌++◌,
}
use anycall.Text.{Text, ◌==◌}
use anycall.Redis.{contains}
use anycall.Visualizer.Trees.{
  Row, Item, item, Items, end, next, Tree, TreeState, note, capture_item, capture_items,
  restore_row, restore_item, restore_items, top_level,
}

unfoldable mutual
  pub rows_of_item : Item → List Row
  rows_of_item (item row children) = row ∷ rows_of children

  pub rows_of : Items → List Row
  rows_of end = []
  rows_of (next i rest) = rows_of_item i ++ rows_of rest

abbrev pub note_all : Tree → List Row → TreeState → TreeState
note_all t [] s = s
note_all t (row ∷ rows) s = note_all t rows (note t row s)

note_all-append :
    (t : Tree) (xs ys : List Row) (s : TreeState)
    → note_all t (xs ++ ys) s ≡ note_all t ys (note_all t xs s)
note_all-append t [] ys s = refl
note_all-append t (x ∷ xs) ys s = note_all-append t xs ys (note t x s)

mutual
  unfolding capture_item capture_items rows_of_item rows_of

  capture_item-rows :
      (t : Tree) (i : Item) (s : TreeState) → capture_item t i s ≡ note_all t (rows_of_item i) s
  capture_item-rows t (item row children) s = capture_items-rows t children (note t row s)

  pub capture_items-rows :
      (t : Tree) (is : Items) (s : TreeState) → capture_items t is s ≡ note_all t (rows_of is) s
  capture_items-rows t end s = refl
  capture_items-rows t (next i rest) s =
      capture_items-rows t rest (capture_item t i s)
      ∙ ap (note_all t (rows_of rest)) (capture_item-rows t i s)
      ∙ sym (note_all-append t (rows_of_item i) (rows_of rest) s)

module _ (keeps : Bool) (s : TreeState) where
  abbrev pub restore_all : List Row → Tree → Tree
  restore_all [] t = t
  restore_all (row ∷ rows) t = restore_all rows (restore_row keeps s row t)

  pub restore_top_level :
      (rows : List Row) (t : Tree) → restore_items keeps s (top_level rows) t ≡ restore_all rows t
  unfolding restore_items restore_item top_level
  restore_top_level [] t = refl
  restore_top_level (row ∷ rows) t = restore_top_level rows (restore_row keeps s row t)

-- Some row with this key is marked.
abbrev pub marked : (ℕ → Bool) → Text → List Row → Bool
marked marks key [] = false
marked marks key (row ∷ rows) = (marks row.id && (row.key == key)) || marked marks key rows

pub noted_selected :
    (t : Tree) (key : Text) (rows : List Row) (s : TreeState)
    → contains key (note_all t rows s).selected
      ≡ (marked t.selected key rows || contains key s.selected)
unfolding note
noted_selected t key [] s = refl
noted_selected t key (row ∷ rows) s = ground (arith, noted_selected t key rows (note t row s))

pub noted_expanded :
    (t : Tree) (key : Text) (rows : List Row) (s : TreeState)
    → contains key (note_all t rows s).expanded
      ≡ (marked t.expanded key rows || contains key s.expanded)
unfolding note
noted_expanded t key [] s = refl
noted_expanded t key (row ∷ rows) s = ground (arith, noted_expanded t key rows (note t row s))

pub noted_current :
    (t : Tree) (rows : List Row) (s : TreeState) → (note_all t rows s).current ≡ s.current
unfolding note
noted_current t [] s = refl
noted_current t (row ∷ rows) s = noted_current t rows (note t row s)
