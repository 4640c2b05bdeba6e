-- ===== src/Visualizer/Trees.antt =====
-- The trees of tools/visualizer/src/visualizer/app.py: their state, and how it is carried over when a
-- tree is built anew. Items are told apart by numbers, as Python tells objects apart.
pub mod Walks
pub mod Kept
pub mod Copy
pub mod Entries
pub mod Copied
use anycall.Prelude.{
  ℕ, suc, Bool, true, false, ◌&&◌, Option, none, some, List, [], ◌∷◌, eqb, if◌then◌else◌,
}
use anycall.Text.{Text, ◌==◌}
use anycall.Json.{Json}
use anycall.Redis.{contains}

-- A `QTreeWidgetItem` without its children: its texts, KEY_ROLE and DATA_ROLE.
pub record Row : Type 0 where
  pub id : ℕ
  pub key : Text
  pub cells : List Text
  pub content : Json

mutual
  pub data Item : Type 0 where
    item : Row → Items → Item

  pub data Items : Type 0 where
    end : Items
    next : Item → Items → Items

-- A `QTreeWidget`: its items, and what they are marked with.
pub record Tree : Type 0 where
  pub items : Items
  pub selected : ℕ → Bool
  pub expanded : ℕ → Bool
  pub current : Option Row

-- `tree.clear()`
abbrev pub cleared : Tree
cleared = record { items = end; selected = λ i. false; expanded = λ i. false; current = none }

abbrev pub mark : (ℕ → Bool) → ℕ → ℕ → Bool
mark marks n i = if eqb i n then true else marks i

-- What `_capture_tree_state` returns.
pub record TreeState : Type 0 where
  pub selected : List Text
  pub expanded : List Text
  pub current : Option Text

unfoldable pub note : Tree → Row → TreeState → TreeState
note t row s = record s {
  selected = if t.selected row.id then row.key ∷ s.selected else s.selected;
  expanded = if t.expanded row.id then row.key ∷ s.expanded else s.expanded;
}

-- `walk` of `_capture_tree_state`
unfoldable mutual
  unfolding note

  pub capture_item : Tree → Item → TreeState → TreeState
  capture_item t (item row children) s = capture_items t children (note t row s)

  pub capture_items : Tree → Items → TreeState → TreeState
  capture_items t end s = s
  capture_items t (next i rest) s = capture_items t rest (capture_item t i s)

unfoldable pub key_of : Option Row → Option Text
key_of none = none
key_of (some row) = some row.key

unfoldable pub capture_tree_state : Tree → TreeState
unfolding key_of
capture_tree_state t =
    capture_items t t.items (record { selected = []; expanded = []; current = key_of t.current })

unfoldable pub is_current : Text → Option Text → Bool
is_current key none = false
is_current key (some current) = key == current

-- `addTopLevelItems`
unfoldable pub top_level : List Row → Items
top_level [] = end
top_level (row ∷ rows) = next (item row end) (top_level rows)

-- `setCurrentItem` makes a row current and selects it. Whether the other rows that are selected stay
-- so is Qt's choice, by selection mode and modifier keys: `keeps`.
module _ (keeps : Bool) where
  abbrev pub set_current : Row → Tree → Tree
  set_current row t = record t {
    current = some row;
    selected = λ i. if eqb i row.id then true else (keeps && t.selected i);
  }

  unfoldable pub restore_row : TreeState → Row → Tree → Tree
  unfolding is_current
  restore_row s row t =
      let t1 =
        if contains row.key s.expanded then record t { expanded = mark t.expanded row.id } else t in
      let t2 =
        if contains row.key s.selected
        then record t1 { selected = mark t1.selected row.id }
        else t1 in
      if is_current row.key s.current then set_current row t2 else t2

  -- `walk` of `_restore_tree_state`
  unfoldable mutual
    unfolding restore_row

    pub restore_item : TreeState → Item → Tree → Tree
    restore_item s (item row children) t = restore_items s children (restore_row s row t)

    pub restore_items : TreeState → Items → Tree → Tree
    restore_items s end t = t
    restore_items s (next i rest) t = restore_items s rest (restore_item s i t)

  unfoldable pub restore_tree_state : Tree → TreeState → Tree
  restore_tree_state t s = restore_items s t.items t

  -- The rows of a snapshot, and on them the state of the old tree.
  unfoldable pub rebuild : List Row → Tree → Tree
  unfolding top_level
  rebuild rows t =
      restore_tree_state (record cleared { items = top_level rows }) (capture_tree_state t)
