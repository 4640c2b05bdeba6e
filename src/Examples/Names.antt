-- ===== src/Examples/Names.antt =====
-- Runs of the theorems on keys.
use anycall.Prelude.{◌≡◌, refl, []}
use anycall.Text.{codes}
use anycall.Json.{Fields, str, field, no_fields}
use anycall.Queues.Keys.{requests, key_text-injective}
use anycall.Examples.{echo, id_1}

-- Both spellings of the id, and a method.
abbrev mixed : Fields
mixed =
    field (codes "request_id") (str id_1)
      (field (codes "methodName") (str echo) (field (codes "payload") (str []) no_fields))

key_text-injective_example : requests echo ≡ requests echo
key_text-injective_example = key_text-injective (requests echo) (requests echo) refl
