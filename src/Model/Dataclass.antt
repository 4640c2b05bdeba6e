-- ===== src/Model/Dataclass.antt =====
-- What model.py uses of Python's dataclasses and dictionaries. Python does not check the
-- annotations of a dataclass, so a field holds any JSON value, and `None` is `null`.
use anycall.Prelude.{Bool, true, false, ◌&&◌, none, some}
use anycall.Text.{Text}
use anycall.Json.{Json, Fields, null, obj, no_fields, field, get, put}
use anycall.Errors.{type_error, attribute_error, Result, ok, err, or_raise}

-- `value is not None`
unfoldable pub is_set : Json → Bool
is_set null = false
is_set _ = true

-- `cls(**kwargs)`: a key that names no parameter is a TypeError.
unfoldable pub all_known : (Text → Bool) → Fields → Bool
all_known known no_fields = true
all_known known (field k v d) = known k && all_known known d

-- A parameter without a default must be there.
unfoldable pub require : Text → Fields → Result Json
require k d = or_raise (get k d) type_error

-- A parameter whose default is `None`.
unfoldable pub optional : Text → Fields → Json
optional k d = elim (get k d) [ none ↦ null | some v ↦ v ]

-- The loop over `data.items()` that writes each value under its normalized key.
unfoldable pub normalize : (Text → Text) → Fields → Fields → Fields
normalize rename acc no_fields = acc
normalize rename acc (field k v d) = normalize rename (put (rename k) v acc) d

-- `data.items()` of what is no dict is an AttributeError.
unfoldable pub items_of : Json → Result Fields
items_of (obj d) = ok d
items_of _ = err attribute_error
