-- ===== src/Json/Dicts.antt =====
-- Laws of the dictionary operations.
use anycall.Prelude.{◌≡◌, refl, ap, ◌∙◌, false, none, some, arith, if◌then◌else◌}
use anycall.Text.{Text, ◌==◌}
use anycall.Text.Equality.{eq_iff, eq_self}
use anycall.Json.{Json, Fields, no_fields, field, get, put, dict_from}

pub get-put :
    (k j : Text) (v : Json) (d : Fields) → get j (put k v d) ≡ (if k == j then some v else get j d)
unfolding get put
get-put k j v no_fields = refl
get-put k j v (field i w d) = ground (arith, eq_iff i k, eq_iff i j, eq_iff k j, get-put k j v d)

abbrev pub append_fields : Fields → Fields → Fields
append_fields no_fields e = e
append_fields (field k v d) e = field k v (append_fields d e)

-- No key of a `Distinct` dictionary is repeated.
abbrev pub Distinct : Fields → Type 0
Distinct no_fields = Unit {0}
Distinct (field k v d) = (get k d ≡ none) × Distinct d

-- Every key of the second dictionary is missing from the first.
abbrev Apart : Fields → Fields → Type 0
Apart acc no_fields = Unit {0}
Apart acc (field k v d) = (get k acc ≡ none) × Apart acc d

put_absent :
    (k : Text) (v : Json) (acc : Fields)
    → get k acc ≡ none
    → put k v acc ≡ append_fields acc (field k v no_fields)
unfolding get put
put_absent k v no_fields h = refl
put_absent k v (field j w acc) h = ground (arith, put_absent k v acc)

get-append :
    (k j : Text) (v : Json) (acc : Fields)
    → (j == k) ≡ false
    → get k acc ≡ none
    → get k (append_fields acc (field j v no_fields)) ≡ none
unfolding get
get-append k j v no_fields h n = ground arith
get-append k j v (field i w acc) h n = ground (arith, get-append k j v acc h)

absent_ne :
    (k : Text) (j : Text) (v : Json) (d : Fields)
    → get k (field j v d) ≡ none
    → ((k == j) ≡ false) × (get k d ≡ none)
unfolding get
absent_ne k j v d h = ground (arith, eq_iff j k, eq_iff k j, eq_self k)

Apart-append :
    (k : Text) (v : Json) (acc d : Fields)
    → get k d ≡ none
    → Apart acc d
    → Apart (append_fields acc (field k v no_fields)) d
Apart-append k v acc no_fields h a = tt
Apart-append k v acc (field j w d) h a =
    let other = absent_ne k j w d h in
    (get-append j k v acc other.0 a.0, Apart-append k v acc d other.1 a.1)

append_fields_assoc :
    (a b c : Fields) → append_fields (append_fields a b) c ≡ append_fields a (append_fields b c)
append_fields_assoc no_fields b c = refl
append_fields_assoc (field k v a) b c = ap (field k v) (append_fields_assoc a b c)

append_fields-nil : (e : Fields) → e ≡ append_fields e no_fields
append_fields-nil no_fields = refl
append_fields-nil (field k v e) = ap (field k v) (append_fields-nil e)

dict_from-Apart :
    (acc d : Fields) → Distinct d → Apart acc d → dict_from acc d ≡ append_fields acc d
unfolding dict_from
dict_from-Apart acc no_fields h a = append_fields-nil acc
dict_from-Apart acc (field k v d) h a =
    let one = append_fields acc (field k v no_fields) in
    ap (λ e. dict_from e d) (put_absent k v acc a.0)
    ∙ dict_from-Apart one d h.1 (Apart-append k v acc d h.0 a.1)
    ∙ append_fields_assoc acc (field k v no_fields) d

Apart-nil : (d : Fields) → Apart no_fields d
unfolding get
Apart-nil no_fields = tt
Apart-nil (field k v d) = (refl, Apart-nil d)

-- Without repeated keys, a `dict` of pairs is those pairs.
pub dict_from-Distinct : (d : Fields) → Distinct d → dict_from no_fields d ≡ d
dict_from-Distinct d h = dict_from-Apart no_fields d h (Apart-nil d)
