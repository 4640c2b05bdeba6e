-- ===== src/Visualizer/Trees/Kept.antt =====
-- What of a tree's state outlives its being built anew, in app.py.
use anycall.Prelude.{
  ℕ, ◌≡◌, refl, sym, ap, ◌∙◌, arith, Bool, true, false, ◌||◌, ◌&&◌, not, Option, none, some, List,
  [], ◌∷◌, ◌++◌, All, eqb, if◌then◌else◌, Bool-cases, inl, inr,
}
use anycall.Text.{Text}
use anycall.Text.Equality.{eq→path}
use anycall.Redis.{contains}
use anycall.Visualizer.Trees.{
  Row, Tree, TreeState, cleared, key_of, is_current, capture_tree_state, restore_row,
  restore_tree_state, rebuild, top_level,
}
use anycall.Visualizer.Trees.Walks.{
  rows_of, note_all, capture_items-rows, restore_all, restore_top_level, marked, noted_selected,
  noted_expanded, noted_current,
}

-- Some row has the key of the current one.
abbrev pub any_current : Option Text → List Row → Bool
any_current current [] = false
any_current current (row ∷ rows) = is_current row.key current || any_current current rows

-- No row is the item with this number.
abbrev pub NewId : ℕ → List Row → Type 0
NewId n rows = All (λ row. eqb n row.id ≡ false) rows

eqb_self : (n : ℕ) → eqb n n ≡ true
eqb_self n = ground arith

restore_all-append :
    (keeps : Bool) (s : TreeState) (xs ys : List Row) (t : Tree)
    → restore_all keeps s (xs ++ ys) t ≡ restore_all keeps s ys (restore_all keeps s xs t)
restore_all-append keeps s [] ys t = refl
restore_all-append keeps s (x ∷ xs) ys t =
    restore_all-append keeps s xs ys (restore_row keeps s x t)

module _ (keeps : Bool) (s : TreeState) (n : ℕ) where
  row_expanded :
      (row : Row) (t : Tree)
      → (restore_row keeps s row t).expanded n
        ≡ (if eqb n row.id && contains row.key s.expanded then true else t.expanded n)
  unfolding restore_row
  row_expanded row t = ground arith

  row_selected :
      (row : Row) (t : Tree)
      → (restore_row keeps s row t).selected n ≡ (
          if is_current row.key s.current
          then (if eqb n row.id then true else (keeps && t.selected n))
          else if eqb n row.id && contains row.key s.selected
          then true
          else t.selected n)
  unfolding restore_row
  row_selected row t = ground arith

  other_expanded :
      (rows : List Row) (t : Tree)
      → NewId n rows
      → (restore_all keeps s rows t).expanded n ≡ t.expanded n
  other_expanded [] t h = refl
  other_expanded (row ∷ rows) t h =
      ground (arith, h.0, row_expanded row t, other_expanded rows (restore_row keeps s row t) h.1)

  other_selected :
      (rows : List Row) (t : Tree)
      → NewId n rows
      → (restore_all keeps s rows t).selected n
        ≡ (t.selected n && (keeps || not (any_current s.current rows)))
  other_selected [] t h = ground arith
  other_selected (row ∷ rows) t h =
      ground (arith, h.0, row_selected row t, other_selected rows (restore_row keeps s row t) h.1)

is_current-eq : (key : Text) (o : Option Text) → is_current key o ≡ true → o ≡ some key
unfolding is_current
is_current-eq key none h = cc h
is_current-eq key (some current) h = ap some (sym (eq→path key current h))

module _ (keeps : Bool) (s : TreeState) where
  row_pointer :
      (row : Row) (t : Tree)
      → (restore_row keeps s row t).current
        ≡ (if is_current row.key s.current then some row else t.current)
  unfolding restore_row
  row_pointer row t = ground arith

  row_current :
      (row : Row) (t : Tree)
      → key_of (restore_row keeps s row t).current
        ≡ (if is_current row.key s.current then s.current else key_of t.current)
  row_current row t = elim (Bool-cases (is_current row.key s.current)) [
    | inl same ↦
        rw (row_pointer row t, same, is_current-eq row.key s.current same) (unfold key_of in refl)
    | inr apart ↦ rw (row_pointer row t, apart) refl
  ]

  restored_current :
      (rows : List Row) (t : Tree)
      → key_of (restore_all keeps s rows t).current
        ≡ (if any_current s.current rows then s.current else key_of t.current)
  restored_current [] t = refl
  restored_current (row ∷ rows) t =
      ground (arith, row_current row t, restored_current rows (restore_row keeps s row t))

  module _ (before after : List Row) (row : Row) (t : Tree) (new : NewId row.id before)
      (last : NewId row.id after) where
    restored_expanded :
        (restore_all keeps s (before ++ (row ∷ after)) t).expanded row.id
        ≡ (contains row.key s.expanded || t.expanded row.id)
    restored_expanded =
        let t1 = restore_all keeps s before t in
        rw (restore_all-append keeps s before (row ∷ after) t) (
          ground (
            arith,
            eqb_self row.id,
            other_expanded keeps s row.id after (restore_row keeps s row t1) last,
            row_expanded keeps s row.id row t1,
            other_expanded keeps s row.id before t new,
          ))

    restored_selected :
        t.selected row.id ≡ false
        → (restore_all keeps s (before ++ (row ∷ after)) t).selected row.id ≡ (
            (is_current row.key s.current || contains row.key s.selected)
            && (keeps || not (any_current s.current after)))
    restored_selected bare =
        let t1 = restore_all keeps s before t in
        rw (restore_all-append keeps s before (row ∷ after) t) (
          ground (
            arith,
            bare,
            eqb_self row.id,
            other_selected keeps s row.id after (restore_row keeps s row t1) last,
            row_selected keeps s row.id row t1,
            other_selected keeps s row.id before t new,
          ))

-- When a tree is built anew from rows, at a row whose number no other row has: it is expanded
-- exactly if an expanded row of the old tree had its key; it is selected exactly if a selected row
-- or the current row of the old tree had its key, and no row after it has the key of the current
-- one or making a row current keeps the other rows selected; and the key of the current row is the
-- old one if some row has it, or else there is none.
pub rebuild_keeps :
    (keeps : Bool) (before after : List Row) (row : Row) (t : Tree)
    → NewId row.id before
    → NewId row.id after
    → let old = rows_of t.items in
      let current = key_of t.current in
      let rows = before ++ (row ∷ after) in
      let t' = rebuild keeps rows t in
      (t'.expanded row.id ≡ marked t.expanded row.key old)
      × (t'.selected row.id ≡ (
          (is_current row.key current || marked t.selected row.key old)
          && (keeps || not (any_current current after))))
      × (key_of t'.current ≡ (if any_current current rows then current else none))
unfolding rebuild capture_tree_state restore_tree_state
rebuild_keeps keeps before after row t new last =
    let rows = before ++ (row ∷ after) in
    let empty : TreeState = record { selected = []; expanded = []; current = key_of t.current } in
    let s = note_all t (rows_of t.items) empty in
    let bare : Tree = record cleared { items = top_level rows } in
    rw (capture_items-rows t t.items empty, restore_top_level keeps s rows bare)
      (
        restored_expanded keeps s before after row bare new last
            ∙ ground (arith, noted_expanded t row.key (rows_of t.items) empty),
        restored_selected keeps s before after row bare new last refl
            ∙ rw
                (
                  noted_current t (rows_of t.items) empty,
                  noted_selected t row.key (rows_of t.items) empty,
                )
                (ground arith),
        restored_current keeps s rows bare
            ∙ rw (noted_current t (rows_of t.items) empty) (unfold key_of in refl),
      )
