-- ===== src/Json/RoundTrip/Ascii.antt =====
-- `ensure_ascii` of `json.dumps`.
use anycall.Prelude.{
  ℕ, ◌+◌, ◌-◌, ◌/◌, ◌%◌, ◌<◌, ◌≡◌, Bool, true, false, ◌&&◌, [], ◌∷◌, ◌++◌, arith, All, inl, inr,
  Bool-cases, ltb, leb,
}
use anycall.Text.{Text}
use anycall.Json.{
  Json, Items, Fields, null, bool, number, str, arr, obj, no_items, item, no_fields, field,
}
use anycall.Json.Print.{
  hex_digit, hex4, short_escape, escape, escape_all, unicode_escape, quote, sep, dumps, dump_items,
  dump_fields,
}
use anycall.Json.Parse.Numbers.{is_number_char}
use anycall.Json.RoundTrip.Strings.{IsText}
use anycall.Json.RoundTrip.Pieces.{Writable, WritableItems, WritableFields}

abbrev IsAscii : Text → Type 0
IsAscii = All (λ c. c < 128)

IsAscii-append : (s t : Text) → IsAscii s → IsAscii t → IsAscii (s ++ t)
IsAscii-append [] t h k = k
IsAscii-append (c ∷ s) t h k = (h.0, IsAscii-append s t h.1 k)

hex_digit-ascii : (d : ℕ) → d < 16 → hex_digit d < 128
unfolding hex_digit
hex_digit-ascii d h = ground arith

unicode_escape-IsAscii : (c : ℕ) → IsAscii (unicode_escape c)
unfolding hex4
unicode_escape-IsAscii c = (
  omega arith,
  (
    omega arith,
    (
      hex_digit-ascii (c / 4096 % 16) (omega arith),
      (
        hex_digit-ascii (c / 256 % 16) (omega arith),
        (hex_digit-ascii (c / 16 % 16) (omega arith), (hex_digit-ascii (c % 16) (omega arith), tt)),
      ),
    ),
  ),
)

short_escape-ascii : (c : ℕ) → short_escape c < 128
unfolding short_escape
short_escape-ascii c = ground arith

printable-ascii : (c : ℕ) → (leb 32 c && leb c 126) ≡ true → c < 128
printable-ascii c h = ground arith

number_char-ascii : (c : ℕ) → is_number_char c ≡ true → c < 128
unfolding is_number_char
number_char-ascii c h = ground arith

escape-IsAscii : (c : ℕ) → IsAscii (escape c)
unfolding escape
escape-IsAscii c = elim (Bool-cases (ltb 0 (short_escape c))) [
  | inl short ↦ rw short (omega arith, (short_escape-ascii c, tt))
  | inr long ↦ elim (Bool-cases (leb 32 c && leb c 126)) [
    | inl printable ↦ rw (long, printable) (printable-ascii c printable, tt)
    | inr other ↦ elim (Bool-cases (ltb c 0x10000)) [
      | inl basic ↦ rw (long, other, basic) (unicode_escape-IsAscii c)
      | inr pair ↦
          rw (long, other, pair)
            (IsAscii-append (unicode_escape (0xd800 + (c - 0x10000) / 1024 % 1024)) _
              (unicode_escape-IsAscii _) (unicode_escape-IsAscii _))
    ]
  ]
]

escape_all-IsAscii : (s : Text) → IsAscii (escape_all s)
unfolding escape_all
escape_all-IsAscii [] = (omega arith, tt)
escape_all-IsAscii (c ∷ s) =
    IsAscii-append (escape c) (escape_all s) (escape-IsAscii c) (escape_all-IsAscii s)

number-IsAscii : (n : Text) → All (λ c. is_number_char c ≡ true) n → IsAscii n
number-IsAscii [] h = tt
number-IsAscii (c ∷ n) h = (number_char-ascii c h.0, number-IsAscii n h.1)

sep-IsAscii : (first : Bool) → IsAscii (sep first)
sep-IsAscii true = tt
sep-IsAscii false = (omega arith, (omega arith, tt))

mutual
  unfolding dumps dump_items dump_fields

  dumps-IsAscii : (v : Json) → Writable v → IsAscii (dumps v)
  dumps-IsAscii null w = (omega arith, (omega arith, (omega arith, (omega arith, tt))))
  dumps-IsAscii (bool true) w = (omega arith, (omega arith, (omega arith, (omega arith, tt))))
  dumps-IsAscii (bool false) w =
      (omega arith, (omega arith, (omega arith, (omega arith, (omega arith, tt)))))
  dumps-IsAscii (number n) w = number-IsAscii n w.1
  dumps-IsAscii (str s) w = (omega arith, escape_all-IsAscii s)
  dumps-IsAscii (arr xs) w = (omega arith, dump_items-IsAscii true xs w)
  dumps-IsAscii (obj d) w = (omega arith, dump_fields-IsAscii true d w.1)

  dump_items-IsAscii :
      (first : Bool) (xs : Items) → WritableItems xs → IsAscii (dump_items first xs)
  dump_items-IsAscii first no_items w = (omega arith, tt)
  dump_items-IsAscii first (item v xs) w =
      IsAscii-append (sep first) _ (sep-IsAscii first)
        (IsAscii-append (dumps v) _ (dumps-IsAscii v w.0) (dump_items-IsAscii false xs w.1))

  dump_fields-IsAscii :
      (first : Bool) (d : Fields) → WritableFields d → IsAscii (dump_fields first d)
  dump_fields-IsAscii first no_fields w = (omega arith, tt)
  dump_fields-IsAscii first (field k v d) w = IsAscii-append (sep first) _ (sep-IsAscii first) (
      IsAscii-append (quote k) _ (omega arith, escape_all-IsAscii k)
        (
          omega arith,
          (
            omega arith,
            IsAscii-append (dumps v) _ (dumps-IsAscii v w.1) (dump_fields-IsAscii false d w.2),
          ),
        ))

IsAscii-IsText : (s : Text) → IsAscii s → IsText s
IsAscii-IsText [] h = tt
IsAscii-IsText (c ∷ s) h = ((omega (arith, h.0), inl (omega (arith, h.0))), IsAscii-IsText s h.1)

-- The text of a value can be a string in another value.
pub dumps-IsText : (v : Json) → Writable v → IsText (dumps v)
dumps-IsText v w = IsAscii-IsText (dumps v) (dumps-IsAscii v w)

pub append-IsText : (s t : Text) → IsText s → IsText t → IsText (s ++ t)
append-IsText [] t h k = k
append-IsText (c ∷ s) t h k = (h.0, append-IsText s t h.1 k)
