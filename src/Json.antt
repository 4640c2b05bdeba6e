-- ===== src/Json.antt =====
-- The values that Python's `json` module reads and writes, and its dictionaries.
pub mod Dicts
pub mod Print
pub mod Parse
pub mod RoundTrip
use anycall.Prelude.{Bool, Option, none, some, if◌then◌else◌}
use anycall.Text.{Text, ◌==◌}

-- A number is kept as the text of its literal: nothing in the program computes with one.
mutual
  pub data Json : Type 0 where
    null : Json
    bool : Bool → Json
    number : Text → Json
    str : Text → Json
    arr : Items → Json
    obj : Fields → Json

  pub data Items : Type 0 where
    no_items : Items
    item : Json → Items → Items

  -- A `dict`, in insertion order.
  pub data Fields : Type 0 where
    no_fields : Fields
    field : Text → Json → Fields → Fields

-- `d.get(k)`
unfoldable pub get : Text → Fields → Option Json
get k no_fields = none
get k (field j v d) = if j == k then some v else get k d

-- `d[k] = v`: a key that is there keeps its place.
unfoldable pub put : Text → Json → Fields → Fields
put k v no_fields = field k v no_fields
put k v (field j w d) = if j == k then field j v d else field j w (put k v d)

-- `dict(pairs)`, the pairs added to `acc` in order
unfoldable pub dict_from : Fields → Fields → Fields
dict_from acc no_fields = acc
dict_from acc (field k v d) = dict_from (put k v acc) d
