-- ===== src/Registry.antt =====
-- implementations/python/lib/src/anycall/registry.py.
pub mod WriteOnce
use anycall.Prelude.{Bool, Option, none, some, List, [], ◌∷◌, ◌++◌, eqb, is_some, if◌then◌else◌}
use anycall.Text.{Text, codes, ◌==◌}
use anycall.Errors.{any_call_error, Result, ok, err}
use anycall.Serialization.{PyType}

-- `self._types`, a dict in insertion order
pub record TypeRegistry : Type 0 where
  pub types : List (Text × PyType)

abbrev pub empty : TypeRegistry
empty = record { types = [] }

unfoldable pub lookup : Text → List (Text × PyType) → Option PyType
lookup operation [] = none
lookup operation ((name, t) ∷ types) = if name == operation then some t else lookup operation types

unfoldable pub conflict_message : Text → PyType → PyType → Text
conflict_message operation existing response_type =
    codes "Operation '"
    ++ (operation
        ++ (codes "' already registered with type "
            ++ (existing.name
                ++ (codes ", cannot register "
                    ++ (response_type.name
                        ++ codes
                            ". Either register with same type (idempotent) or recreate client.")))))

-- A key that is missing is added at the end of the dict.
unfoldable pub register : TypeRegistry → Text → PyType → Result TypeRegistry
unfolding lookup
register r operation response_type = elim (lookup operation r.types) [
  | none ↦ ok (record { types = r.types ++ (operation, response_type) ∷ [] })
  | some existing ↦
      if eqb existing.ident response_type.ident
      then ok r
      else err
          (any_call_error (codes "unknown") (conflict_message operation existing response_type))
]

unfoldable pub get : TypeRegistry → Text → Option PyType
unfolding lookup
get r operation = lookup operation r.types

unfoldable pub has : TypeRegistry → Text → Bool
unfolding lookup
has r operation = is_some (lookup operation r.types)
