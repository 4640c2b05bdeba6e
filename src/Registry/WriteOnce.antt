-- ===== src/Registry/WriteOnce.antt =====
-- Sequences of calls of `register` of registry.py.
use anycall.Prelude.{
  ◌≡◌, refl, ◌↔◌, Option-cases, inl, inr, false, Option, none, some, List, [], ◌∷◌, ◌++◌, arith,
  eqb, if◌then◌else◌, is_some,
}
use anycall.Text.{Text, codes, ◌==◌}
use anycall.Text.Equality.{eq_iff}
use anycall.Errors.{any_call_error, Exn, Result, ok, err}
use anycall.Serialization.{PyType}
use anycall.Registry.{TypeRegistry, empty, lookup, register, get, has, conflict_message}

lookup-append :
    (k j : Text) (t : PyType) (m : List (Text × PyType))
    → lookup j (m ++ (k, t) ∷ [])
      ≡ (if is_some (lookup j m) then lookup j m else if k == j then some t else none)
unfolding lookup
lookup-append k j t [] = refl
lookup-append k j t ((i, u) ∷ m) = ground (arith, lookup-append k j t m)

-- The registrations that the code refuses leave the registry as it was.
abbrev pub after : TypeRegistry → Result TypeRegistry → TypeRegistry
after r (ok q) = q
after r (err e) = r

abbrev pub register_all : TypeRegistry → List (Text × PyType) → TypeRegistry
register_all r [] = r
register_all r ((k, t) ∷ calls) = register_all (after r (register r k t)) calls

-- The type of the first registration of an operation.
abbrev pub first_type : Text → List (Text × PyType) → Option PyType
first_type k [] = none
first_type k ((j, t) ∷ calls) = if j == k then some t else first_type k calls

get-after :
    (r : TypeRegistry) (k j : Text) (t : PyType)
    → get (after r (register r k t)) j
      ≡ (if is_some (get r j) then get r j else if k == j then some t else none)
unfolding get register
get-after r k j t = ground (arith, lookup-append k j t r.types, eq_iff k j)

get-register_all :
    (r : TypeRegistry) (k : Text) (calls : List (Text × PyType))
    → get (register_all r calls) k ≡ (if is_some (get r k) then get r k else first_type k calls)
get-register_all r k [] = ground arith
get-register_all r k ((j, t) ∷ calls) =
    ground (arith, get-register_all (after r (register r j t)) k calls, get-after r j k t)

-- After any registrations, refused ones included, an operation has the type of its first
-- registration, and `has` says whether there is one.
pub first_registration_wins :
    (k : Text) (calls : List (Text × PyType))
    → (get (register_all empty calls) k ≡ first_type k calls)
      × (has (register_all empty calls) k ≡ is_some (first_type k calls))
unfolding has get lookup
first_registration_wins k calls =
    (ground (arith, get-register_all empty k calls), ground (arith, get-register_all empty k calls))

-- A registration is refused exactly if the operation already has a type of another identity.
pub register_refused :
    (r : TypeRegistry) (k : Text) (t : PyType)
    → ((e : Exn) × (register r k t ≡ err e))
      ↔ ((u : PyType) × (get r k ≡ some u) × (eqb u.ident t.ident ≡ false))
unfolding register get
register_refused r k t = elim (Option-cases (lookup k r.types)) [
  | inl missing ↦ (λ (e, h). ground (arith, missing), λ (u, found, other). cc)
  | inr (u, found) ↦ (
    λ (e, h). (u, found, ground arith),
    λ (v, same, other). (any_call_error (codes "unknown") (conflict_message k u t), ground arith),
  )
]
