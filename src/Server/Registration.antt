-- ===== src/Server/Registration.antt =====
-- Registration of server.py: `register`, `unregister`, `start` and `stop`.
use anycall.Prelude.{ℕ, ◌+◌, false, Option, none, some, List, [], ◌∷◌, is_some, if◌then◌else◌}
use anycall.Text.{Text, codes}
use anycall.Assoc.{lookup, insert, remove}
use anycall.Errors.{value_error, Result}
use anycall.Serialization.{PyType, Object, dataclass}
use anycall.Exec.{Exec, pure, raise, modify, ◌>>◌}
use anycall.Server.{AnycallContext, Server, ring, set_limiter}
use anycall.Server.Limiter.{new_limiter}

-- The annotation of a parameter.
pub data Annotation : Type 0 where
  missing context : Annotation
  annotated : PyType → Annotation

-- A bound method of a supplier, with what `supply` put on it and its parameters.
pub record Member : Type 0 where
  pub supply_method_name : Option Text
  pub supply_max_concurrency : ℕ
  pub parameters : List Annotation
  pub method : AnycallContext → Object → Result Object

abbrev pub context_type : PyType
context_type = record { ident = 3; name = codes "AnycallContext"; kind = dataclass }

-- The type of the request parameter, or none for the ValueError of a wrong signature.
unfoldable pub parameter_type_of : List Annotation → Option PyType
parameter_type_of (context ∷ annotated t ∷ []) = some t
parameter_type_of (context ∷ context ∷ []) = some context_type
parameter_type_of _ = none

-- A registered method gets a limiter of its own, also where the name was registered before.
unfoldable pub with_handler : Text → Member → PyType → Server → Server
with_handler method_name m t s = ring (record s {
  method_handlers =
      insert method_name
        (record {
          method = m.method;
          parameter_type = t;
          max_concurrency = m.supply_max_concurrency;
        })
        s.method_handlers;
  method_limiters = insert method_name s.next_limiter s.method_limiters;
  limiters = set_limiter s.next_limiter (new_limiter m.supply_max_concurrency) s.limiters;
  next_limiter = s.next_limiter + 1;
})

unfoldable pub without_handler : Text → Server → Server
without_handler method_name s =
    if is_some (lookup method_name s.method_handlers)
    then ring (record s {
      method_handlers = remove method_name s.method_handlers;
      method_limiters = remove method_name s.method_limiters;
    })
    else s

module _ {S : Type 0} where
  unfoldable pub add_handler : Text → Member → PyType → Exec S Server (Unit {0})
  unfolding with_handler
  add_handler method_name m t = modify (with_handler method_name m t)

  -- One round of the loop of `_register_supplier`.
  unfoldable pub register_member : Member → Exec S Server (Unit {0})
  register_member m = elim m.supply_method_name [
    | none ↦ pure tt
    | some method_name ↦ elim (parameter_type_of m.parameters) [
      | none ↦ raise value_error
      | some t ↦ add_handler method_name m t
    ]
  ]

  unfoldable pub register_supplier : List Member → Exec S Server (Unit {0})
  register_supplier [] = pure tt
  register_supplier (m ∷ members) = register_member m >> register_supplier members

  unfoldable pub register : List (List Member) → Exec S Server (Unit {0})
  register [] = pure tt
  register (supplier ∷ suppliers) = register_supplier supplier >> register suppliers

  unfoldable pub unregister : Text → Exec S Server (Unit {0})
  unfolding without_handler
  unregister method_name = modify (without_handler method_name)

  -- What `stop` does before it waits for the executor to finish its jobs: an executor that is shut
  -- down takes no more.
  unfoldable pub stop : Exec S Server (Unit {0})
  stop =
      modify (λ s.
        if s.running then ring (record s { running = false; shut = is_some s.workers }) else s)
