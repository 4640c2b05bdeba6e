-- ===== src/Json/Print.antt =====
-- `json.dumps` with its default separators and `ensure_ascii`.
use anycall.Prelude.{
  ℕ, ◌+◌, ◌-◌, ◌/◌, ◌%◌, Bool, true, false, ◌&&◌, [], ◌∷◌, ◌++◌, ltb, leb, eqb, if◌then◌else◌,
}
use anycall.Text.{Text, codes}
use anycall.Json.{
  Json, Items, Fields, null, bool, number, str, arr, obj, no_items, item, no_fields, field,
}

unfoldable pub hex_digit : ℕ → ℕ
hex_digit d = if ltb d 10 then d + 48 else d + 87

unfoldable pub hex4 : ℕ → Text
hex4 c =
    hex_digit (c / 4096 % 16)
    ∷ hex_digit (c / 256 % 16)
    ∷ hex_digit (c / 16 % 16)
    ∷ hex_digit (c % 16)
    ∷ []

abbrev pub unicode_escape : ℕ → Text
unicode_escape c = 92 ∷ b'u' ∷ hex4 c

-- The characters that have a short escape, by the letter of that escape.
unfoldable pub short_escape : ℕ → ℕ
short_escape c =
    if eqb c 34
    then 34
    else if eqb c 92
    then 92
    else if eqb c 10
    then b'n'
    else if eqb c 13
    then b'r'
    else if eqb c 9
    then b't'
    else if eqb c 12
    then b'f'
    else if eqb c 8
    then b'b'
    else 0

unfoldable pub escape : ℕ → Text
escape c =
    if ltb 0 (short_escape c)
    then 92 ∷ short_escape c ∷ []
    else if leb 32 c && leb c 126
    then c ∷ []
    else if ltb c 0x10000
    then unicode_escape c
    else unicode_escape (0xd800 + (c - 0x10000) / 1024 % 1024)
      ++ unicode_escape (0xdc00 + (c - 0x10000) % 1024)

unfoldable pub escape_all : Text → Text
escape_all [] = 34 ∷ []
escape_all (c ∷ s) = escape c ++ escape_all s

abbrev pub quote : Text → Text
quote s = 34 ∷ escape_all s

abbrev pub sep : Bool → Text
sep first = if first then [] else b',' ∷ 32 ∷ []

unfoldable mutual
  pub dumps : Json → Text
  dumps null = codes "null"
  dumps (bool true) = codes "true"
  dumps (bool false) = codes "false"
  dumps (number n) = n
  dumps (str s) = quote s
  dumps (arr xs) = b'[' ∷ dump_items true xs
  dumps (obj d) = b'{' ∷ dump_fields true d

  pub dump_items : Bool → Items → Text
  dump_items first no_items = b']' ∷ []
  dump_items first (item v xs) = sep first ++ (dumps v ++ dump_items false xs)

  pub dump_fields : Bool → Fields → Text
  dump_fields first no_fields = b'}' ∷ []
  dump_fields first (field k v d) =
      sep first ++ (quote k ++ (b':' ∷ 32 ∷ (dumps v ++ dump_fields false d)))
