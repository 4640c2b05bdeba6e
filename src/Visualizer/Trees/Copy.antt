-- ===== src/Visualizer/Trees/Copy.antt =====
-- `_copy_selection_as_json` of app.py. `selectedItems()` is taken to list the rows from top to bottom.
use anycall.Prelude.{
  Bool, false, not, ◌||◌, Option, none, some, List, [], ◌∷◌, ◌++◌, length, if◌then◌else◌,
}
use anycall.Text.{Text, codes}
use anycall.Json.{Json, Items, item, no_items, arr}
use anycall.Redis.{contains}
use anycall.Visualizer.Trees
use anycall.Visualizer.Trees.{Row, Tree}
use anycall.Errors.{show}

-- A row and its ancestors, the nearest first.
abbrev pub Entry : Type 0
Entry = Row × List Row

unfoldable mutual
  pub entries_of_item : List Row → Trees.Item → List Entry
  entries_of_item up (Trees.item row children) = (row, up) ∷ entries_of (row ∷ up) children

  pub entries_of : List Row → Trees.Items → List Entry
  entries_of up Trees.end = []
  entries_of up (Trees.next i rest) = entries_of_item up i ++ entries_of up rest

abbrev pub pick : (Entry → Bool) → List Entry → List Entry
pick test [] = []
pick test (e ∷ entries) = let rest = pick test entries in if test e then e ∷ rest else rest

unfoldable pub selected_items : Tree → List Entry
selected_items t = pick (λ e. t.selected e.0.id) (entries_of [] t.items)

abbrev pub keys_of : List Entry → List Text
keys_of [] = []
keys_of (e ∷ entries) = e.0.key ∷ keys_of entries

unfoldable pub has_selected_ancestor : List Text → List Row → Bool
has_selected_ancestor selected_keys [] = false
has_selected_ancestor selected_keys (parent ∷ up) =
    contains parent.key selected_keys || has_selected_ancestor selected_keys up

unfoldable pub topmost : List Entry → List Entry
topmost selected = pick (λ e. not (has_selected_ancestor (keys_of selected) e.1)) selected

abbrev pub contents_of : List Entry → Items
contents_of [] = no_items
contents_of (e ∷ entries) = item e.0.content (contents_of entries)

-- One row is copied as itself, several as a list.
unfoldable pub payload_of : List Entry → Option Json
payload_of [] = none
payload_of (e ∷ []) = some e.0.content
payload_of (e ∷ f ∷ entries) = some (arr (contents_of (e ∷ f ∷ entries)))

-- The clipboard's text and the window's title, or nothing if no row is selected; `pretty` is
-- `json.dumps` with an indent of 2.
unfoldable pub copy_selection_as_json : (Json → Text) → Tree → Option (Text × Text)
unfolding payload_of topmost selected_items
copy_selection_as_json pretty t =
    let items = topmost (selected_items t) in
    elim (payload_of items) [
      | none ↦ none
      | some payload ↦ some (
        pretty payload,
        codes "AnyCall Visualizer — copied " ++ (show (length items) ++ codes " row(s) as JSON"),
      )
    ]
