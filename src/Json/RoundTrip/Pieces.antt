-- ===== src/Json/RoundTrip/Pieces.antt =====
-- What Json/Print writes for the parts of a value, read by Json/Parse.
use anycall.Prelude.{
  ℕ, zero, suc, ◌+◌, ◌≡◌, refl, Bool, true, false, ◌&&◌, ◌||◌, some, [], ◌∷◌, ◌++◌, append_assoc,
  arith, All, length, length-append, eqb, leb,
}
use anycall.Text.{Text}
use anycall.Json.{
  Json, Items, Fields, null, bool, number, str, arr, obj, no_items, item, no_fields, field,
}
use anycall.Json.Dicts.{Distinct}
use anycall.Json.Print.{quote, escape_all, dumps, dump_items, dump_fields}
use anycall.Json.Parse.Numbers.{is_number, is_number_char, read_number, scan, Scan}
use anycall.Json.Parse.{
  parse_value, parse_items, parse_fields, skip_space, is_space, starts_with, expect, expect_sep,
  ◌>>=◌, ◌>>◌, read_string,
}
use anycall.Json.RoundTrip.Strings.{IsText, read_string-escape_all}

-- The values that are read back as they were: number literals are well-formed, texts hold no
-- surrogates, and no dictionary repeats a key.
abbrev pub IsLiteral : Text → Type 0
IsLiteral n = (is_number n ≡ true) × All (λ c. is_number_char c ≡ true) n

abbrev mutual
  pub Writable : Json → Type 0
  Writable null = Unit {0}
  Writable (bool b) = Unit {0}
  Writable (number n) = IsLiteral n
  Writable (str s) = IsText s
  Writable (arr xs) = WritableItems xs
  Writable (obj d) = Distinct d × WritableFields d

  pub WritableItems : Items → Type 0
  WritableItems no_items = Unit {0}
  WritableItems (item v xs) = Writable v × WritableItems xs

  pub WritableFields : Fields → Type 0
  WritableFields no_fields = Unit {0}
  WritableFields (field k v d) = IsText k × Writable v × WritableFields d

-- No number goes on in the text that follows.
abbrev pub Stops : Text → Type 0
Stops [] = Unit {0}
Stops (c ∷ s) = is_number_char c ≡ false

unfoldable mutual
  pub size : Json → ℕ
  size null = 1
  size (bool b) = 1
  size (number n) = 1
  size (str s) = 1
  size (arr xs) = suc (size_items xs)
  size (obj d) = suc (size_fields d)

  pub size_items : Items → ℕ
  size_items no_items = 1
  size_items (item v xs) = suc (size v + size_items xs)

  pub size_fields : Fields → ℕ
  size_fields no_fields = 1
  size_fields (field k v d) = suc (size v + size_fields d)

read_number-All :
    (n rest : Text)
    → All (λ c. is_number_char c ≡ true) n
    → Stops rest
    → read_number (n ++ rest) ≡ (n, rest)
unfolding read_number
read_number-All [] [] h st = refl
read_number-All [] (c ∷ rest) h st = rw (st, read_number)
read_number-All (c ∷ n) rest h st = rw (read_number-All n rest h.1 st, h.0)

-- A literal begins with a digit or a sign, so no other branch of the parser takes it.
abbrev Starts : Text → Type 0
Starts [] = ⊥
Starts (c ∷ s) = (eqb c b'-' || leb 48 c && leb c 57) ≡ true

scan_bad : (s : Text) → scan Scan.bad s ≡ false
unfolding scan
scan_bad [] = refl
scan_bad (c ∷ s) = ground (arith, scan_bad s)

pub literal-Starts : (n : Text) → is_number n ≡ true → Starts n
unfolding is_number
literal-Starts [] h = cc
literal-Starts (c ∷ s) h = ground (arith, scan_bad s)

pub parse_literal :
    (f : ℕ) (n rest : Text)
    → IsLiteral n
    → Stops rest
    → parse_value (suc f) (n ++ rest) ≡ some (number n, rest)
unfolding parse_value skip_space is_space starts_with
parse_literal f [] rest h st = absurd (literal-Starts [] h.0)
parse_literal f (c ∷ n) rest h st =
    ground (arith, literal-Starts (c ∷ n) h.0, read_number-All (c ∷ n) rest h.1 st)

pub parse_string :
    (f : ℕ) (s rest : Text) → IsText s → parse_value (suc f) (quote s ++ rest) ≡ some (str s, rest)
unfolding parse_value skip_space is_space starts_with expect
parse_string f s rest h = rw (
  read_string-escape_all (suc (suc (length (escape_all s ++ rest)))) s rest h
      (omega (arith, length-append (escape_all s) rest)),
  ◌>>=◌,
)

pub Stops-items : (xs : Items) (rest : Text) → Stops (dump_items false xs ++ rest)
unfolding dump_items is_number_char
Stops-items no_items rest = refl
Stops-items (item v xs) rest = refl

pub Stops-fields : (d : Fields) (rest : Text) → Stops (dump_fields false d ++ rest)
unfolding dump_fields is_number_char
Stops-fields no_fields rest = refl
Stops-fields (field k v d) rest = refl

parse_value_space : (f : ℕ) (s : Text) → parse_value f (32 ∷ s) ≡ parse_value f s
unfolding parse_value skip_space is_space
parse_value_space zero s = refl
parse_value_space (suc f) s = refl

-- What `dumps` writes begins with no space and no bracket that closes.
dumps_head :
    (v : Json) (s : Text)
    → Writable v
    → (skip_space (dumps v ++ s) ≡ dumps v ++ s) × (starts_with b']' (dumps v ++ s) ≡ false)
unfolding dumps skip_space is_space starts_with
dumps_head null s w = (refl, refl)
dumps_head (bool true) s w = (refl, refl)
dumps_head (bool false) s w = (refl, refl)
dumps_head (number []) s w = absurd (literal-Starts [] w.0)
dumps_head (number (c ∷ n)) s w =
    (ground (arith, literal-Starts (c ∷ n) w.0), ground (arith, literal-Starts (c ∷ n) w.0))
dumps_head (str t) s w = (refl, refl)
dumps_head (arr xs) s w = (refl, refl)
dumps_head (obj d) s w = (refl, refl)

module _ (f : ℕ) (v : Json) (xs : Items) (rest : Text) (w : Writable v)
    (value : parse_value f (dumps v ++ (dump_items false xs ++ rest))
      ≡ some (v, dump_items false xs ++ rest))
    (items : parse_items f false (dump_items false xs ++ rest) ≡ some (xs, rest)) where
  pub parse_item :
      (first : Bool)
      → parse_items (suc f) first (dump_items first (item v xs) ++ rest) ≡ some (item v xs, rest)
  unfolding parse_items dump_items skip_space is_space starts_with expect expect_sep
  parse_item true =
      let head = dumps_head v (dump_items false xs ++ rest) w in
      rw (append_assoc (dumps v) (dump_items false xs) rest, head.0, head.1, value, items)
  parse_item false = rw (
    append_assoc (dumps v) (dump_items false xs) rest,
    parse_value_space f (dumps v ++ (dump_items false xs ++ rest)),
    value,
    items,
  )

module _ (f : ℕ) (k : Text) (v : Json) (d : Fields) (rest : Text) (w : IsText k)
    (value : parse_value f (dumps v ++ (dump_fields false d ++ rest))
      ≡ some (v, dump_fields false d ++ rest))
    (fields : parse_fields f false (dump_fields false d ++ rest) ≡ some (d, rest)) where
  tail : Text
  tail = b':' ∷ 32 ∷ (dumps v ++ (dump_fields false d ++ rest))

  key :
      read_string (suc (suc (length (escape_all k ++ tail)))) (escape_all k ++ tail)
      ≡ some (k, tail)
  key =
      read_string-escape_all (suc (suc (length (escape_all k ++ tail)))) k tail w
        (omega (arith, length-append (escape_all k) tail))

  regroup :
      (escape_all k ++ (b':' ∷ 32 ∷ (dumps v ++ dump_fields false d))) ++ rest
      ≡ escape_all k ++ tail
  unfolding tail
  regroup = simp append_assoc

  pub parse_field :
      (first : Bool)
      → parse_fields (suc f) first (dump_fields first (field k v d) ++ rest)
        ≡ some (field k v d, rest)
  unfolding parse_fields dump_fields skip_space is_space starts_with expect expect_sep tail
  parse_field true = rw (
    regroup,
    key,
    parse_value_space f (dumps v ++ (dump_fields false d ++ rest)),
    value,
    fields,
    ◌>>=◌,
    ◌>>◌,
  )
  parse_field false = rw (
    regroup,
    key,
    parse_value_space f (dumps v ++ (dump_fields false d ++ rest)),
    value,
    fields,
    ◌>>=◌,
    ◌>>◌,
  )
