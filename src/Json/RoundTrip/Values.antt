-- ===== src/Json/RoundTrip/Values.antt =====
-- Reading of whole values.
use anycall.Prelude.{
  ℕ, zero, suc, ◌+◌, ◌*◌, ◌≤◌, ◌≡◌, refl, sym, ap, ◌∙◌, Bool, true, false, some, [], ◌∷◌, ◌++◌,
  append-nil, arith, length, length-append,
}
use anycall.Text.{Text, ◌==◌}
use anycall.Json.{
  Json, Items, Fields, null, bool, number, str, arr, obj, no_items, item, no_fields, field,
}
use anycall.Json.Dicts.{dict_from-Distinct}
use anycall.Json.Print.{quote, escape, escape_all, sep, dumps, dump_items, dump_fields}
use anycall.Json.Parse.Numbers.{is_number}
use anycall.Json.Parse.{
  parse_value, parse_items, parse_fields, skip_space, is_space, starts_with, expect, expect_sep,
  expect_all, loads, finish,
}
use anycall.Json.RoundTrip.Pieces.{
  Writable, WritableItems, WritableFields, Stops, size, size_items, size_fields, literal-Starts,
  parse_literal, parse_string, Stops-items, Stops-fields, parse_item, parse_field,
}

mutual
  unfolding parse_value parse_items parse_fields dumps dump_items dump_fields size size_items
      size_fields skip_space is_space starts_with expect expect_sep expect_all

  parse-dumps :
      (f : ℕ) (v : Json) (rest : Text)
      → Writable v
      → size v ≤ f
      → Stops rest
      → parse_value f (dumps v ++ rest) ≡ some (v, rest)
  parse-dumps (suc f) null rest w h st = refl
  parse-dumps (suc f) (bool true) rest w h st = refl
  parse-dumps (suc f) (bool false) rest w h st = refl
  parse-dumps (suc f) (number n) rest w h st = parse_literal f n rest w st
  parse-dumps (suc f) (str s) rest w h st = parse_string f s rest w
  parse-dumps (suc f) (arr xs) rest w h st = rw (parse-dump_items f true xs rest w (omega arith))
  parse-dumps (suc f) (obj d) rest w h st =
      rw (parse-dump_fields f true d rest w.1 (omega arith), dict_from-Distinct d w.0)
  parse-dumps zero null rest w h st = absurd (omega arith)
  parse-dumps zero (bool b) rest w h st = absurd (omega arith)
  parse-dumps zero (number n) rest w h st = absurd (omega arith)
  parse-dumps zero (str s) rest w h st = absurd (omega arith)
  parse-dumps zero (arr xs) rest w h st = absurd (omega arith)
  parse-dumps zero (obj d) rest w h st = absurd (omega arith)

  parse-dump_items :
      (f : ℕ) (first : Bool) (xs : Items) (rest : Text)
      → WritableItems xs
      → size_items xs ≤ f
      → parse_items f first (dump_items first xs ++ rest) ≡ some (xs, rest)
  parse-dump_items zero first no_items rest w h = absurd (omega arith)
  parse-dump_items zero first (item v xs) rest w h = absurd (omega arith)
  parse-dump_items (suc f) true no_items rest w h = refl
  parse-dump_items (suc f) false no_items rest w h = refl
  parse-dump_items (suc f) first (item v xs) rest w h =
      parse_item f v xs rest w.0
        (parse-dumps f v (dump_items false xs ++ rest) w.0 (omega arith) (Stops-items xs rest))
        (parse-dump_items f false xs rest w.1 (omega arith)) first

  parse-dump_fields :
      (f : ℕ) (first : Bool) (d : Fields) (rest : Text)
      → WritableFields d
      → size_fields d ≤ f
      → parse_fields f first (dump_fields first d ++ rest) ≡ some (d, rest)
  parse-dump_fields zero first no_fields rest w h = absurd (omega arith)
  parse-dump_fields zero first (field k v d) rest w h = absurd (omega arith)
  parse-dump_fields (suc f) true no_fields rest w h = refl
  parse-dump_fields (suc f) false no_fields rest w h = refl
  parse-dump_fields (suc f) first (field k v d) rest w h =
      parse_field f k v d rest w.0
        (parse-dumps f v (dump_fields false d ++ rest) w.1 (omega arith) (Stops-fields d rest))
        (parse-dump_fields f false d rest w.2 (omega arith)) first

literal_pos : (n : Text) → is_number n ≡ true → 2 ≤ 2 * length n
literal_pos [] h = absurd (literal-Starts [] h)
literal_pos (c ∷ n) h = omega arith

length-quote : (s : Text) → 2 ≤ length (quote s)
unfolding escape_all
length-quote [] = omega arith
length-quote (c ∷ s) = omega (arith, length-append (escape c) (escape_all s), length-quote s)

mutual
  unfolding size size_items size_fields dumps dump_items dump_fields

  size-le : (v : Json) → Writable v → size v + 1 ≤ 2 * length (dumps v)
  size-le null w = omega arith
  size-le (bool true) w = omega arith
  size-le (bool false) w = omega arith
  size-le (number n) w = literal_pos n w.0
  size-le (str s) w = omega (arith, length-quote s)
  size-le (arr xs) w = omega (arith, size_items-le true xs w)
  size-le (obj d) w = omega (arith, size_fields-le true d w.1)

  size_items-le :
      (first : Bool) (xs : Items)
      → WritableItems xs
      → size_items xs ≤ 2 * length (dump_items first xs)
  size_items-le first no_items w = omega arith
  size_items-le first (item v xs) w = omega (
    arith,
    length-append (sep first) (dumps v ++ dump_items false xs),
    length-append (dumps v) (dump_items false xs),
    size-le v w.0,
    size_items-le false xs w.1,
  )

  size_fields-le :
      (first : Bool) (d : Fields)
      → WritableFields d
      → size_fields d ≤ 2 * length (dump_fields first d)
  size_fields-le first no_fields w = omega arith
  size_fields-le first (field k v d) w = omega (
    arith,
    length-append (sep first) (quote k ++ (b':' ∷ 32 ∷ (dumps v ++ dump_fields false d))),
    length-append (quote k) (b':' ∷ 32 ∷ (dumps v ++ dump_fields false d)),
    length-append (dumps v) (dump_fields false d),
    size-le v w.1,
    size_fields-le false d w.2,
  )

-- `json.loads(json.dumps(v))` is `v`.
pub loads-dumps : (v : Json) → Writable v → loads (dumps v) ≡ some v
unfolding loads skip_space ◌==◌
loads-dumps v w =
    ap (λ s. finish (parse_value (2 * length (dumps v) + 2) s)) (sym (append-nil (dumps v)))
    ∙ ap finish (parse-dumps (2 * length (dumps v) + 2) v [] w (omega (arith, size-le v w)) tt)
