-- ===== src/Json/RoundTrip/Strings.antt =====
-- Reading of escapes and quoted strings.
use anycall.Prelude.{
  ℕ, zero, suc, ◌+◌, ◌-◌, ◌*◌, ◌/◌, ◌%◌, ◌≤◌, ◌<◌, ◌≡◌, refl, ap, ◌∙◌, ◌⊎◌, inl, inr, true, false,
  ◌&&◌, some, [], ◌∷◌, ◌++◌, append_assoc, arith, All, length, length-append, Bool-cases, ltb, leb,
}
use anycall.Text.{Text}
use anycall.Json.Print.{hex_digit, hex4, short_escape, escape, escape_all, unicode_escape}
use anycall.Json.Parse.{
  hex_value, read_hex4, read_escape, read_char, read_string, starts_with, after_hex, join_low,
  read_low, is_low, is_high, expect, next, ◌>>=◌,
}

-- A code point that is no surrogate.
abbrev pub IsChar : ℕ → Type 0
IsChar c = (c < 0x110000) × ((c < 0xd800) ⊎ (0xdfff < c))

abbrev pub IsText : Text → Type 0
IsText = All IsChar

hex_value-hex_digit : (d : ℕ) → d < 16 → hex_value (hex_digit d) ≡ some d
unfolding hex_value hex_digit
hex_value-hex_digit d h = ground arith

hex4_sum :
    (c : ℕ) → c < 65536 → c / 4096 % 16 * 4096 + c / 256 % 16 * 256 + c / 16 % 16 * 16 + c % 16 ≡ c
hex4_sum c h = omega arith

read_hex4-hex4 : (c : ℕ) (rest : Text) → c < 65536 → read_hex4 (hex4 c ++ rest) ≡ some (c, rest)
unfolding read_hex4 hex4 next
read_hex4-hex4 c rest h =
    rw
      (
        hex_value-hex_digit (c / 4096 % 16) (omega arith),
        hex_value-hex_digit (c / 256 % 16) (omega arith),
        hex_value-hex_digit (c / 16 % 16) (omega arith),
        hex_value-hex_digit (c % 16) (omega arith),
      )
      (ap (λ n. some (n, rest)) (hex4_sum c h))

after_hex_plain : (c : ℕ) (rest : Text) → is_high c ≡ false → after_hex c rest ≡ some (c, rest)
unfolding after_hex
after_hex_plain c rest h = rw h

after_hex_high : (c : ℕ) (rest : Text) → is_high c ≡ true → after_hex c rest ≡ read_low c rest
unfolding after_hex
after_hex_high c rest h = rw h

read_low_pair :
    (high low : ℕ) (rest : Text)
    → low < 1024
    → read_low high (unicode_escape (0xdc00 + low) ++ rest)
      ≡ some (0x10000 + (high - 0xd800) * 1024 + low, rest)
unfolding read_low expect join_low is_low
read_low_pair high low rest h =
    rw (read_hex4-hex4 (0xdc00 + low) rest (omega arith), read_low) (ground arith)

read_char_unicode :
    (c : ℕ) (rest : Text) → c < 65536 → read_char (unicode_escape c ++ rest) ≡ after_hex c rest
unfolding read_char read_escape next
read_char_unicode c rest h = rw (read_hex4-hex4 c rest h, ◌>>=◌)

ne_surrogate : (c : ℕ) → IsChar c → is_high c ≡ false
unfolding is_high
ne_surrogate c h = ground arith

ltb-false : (a b : ℕ) → ltb a b ≡ false → b ≤ a
ltb-false a b h = ground arith

high_test : (k : ℕ) → k < 1024 → is_high (0xd800 + k) ≡ true
unfolding is_high
high_test k h = ground arith

pair_sum :
    (c : ℕ)
    → c < 0x110000
    → 0x10000 ≤ c
    → 0x10000 + (0xd800 + (c - 0x10000) / 1024 % 1024 - 0xd800) * 1024 + (c - 0x10000) % 1024 ≡ c
pair_sum c h k = omega arith

length-escape_pos : (c : ℕ) (s : Text) → length s + 1 ≤ length (escape c ++ s)
unfolding escape hex4
length-escape_pos c s =
    ground (arith, length-append (hex4 (0xd800 + (c - 0x10000) / 1024 % 1024)) s)

module _ (c : ℕ) (rest : Text) (h : IsChar c) where
  read_char-short :
      ltb 0 (short_escape c) ≡ true → read_char (92 ∷ short_escape c ∷ rest) ≡ some (c, rest)
  unfolding read_char read_escape short_escape next
  read_char-short e = ground arith

  read_char-plain :
      ltb 0 (short_escape c) ≡ false → leb 32 c ≡ true → read_char (c ∷ rest) ≡ some (c, rest)
  unfolding read_char short_escape next
  read_char-plain e k = ground arith

  read_char-pair :
      ltb c 0x10000 ≡ false
      → read_char (
          unicode_escape (0xd800 + (c - 0x10000) / 1024 % 1024)
          ++ (unicode_escape (0xdc00 + (c - 0x10000) % 1024) ++ rest))
        ≡ some (c, rest)
  read_char-pair big =
      let high = 0xd800 + (c - 0x10000) / 1024 % 1024 in
      let more = unicode_escape (0xdc00 + (c - 0x10000) % 1024) ++ rest in
      read_char_unicode high more (omega arith)
      ∙ after_hex_high high more (high_test ((c - 0x10000) / 1024 % 1024) (omega arith))
      ∙ read_low_pair high ((c - 0x10000) % 1024) rest (omega arith)
      ∙ ap (λ n. some (n, rest)) (pair_sum c h.0 (ltb-false c 0x10000 big))

  read_char-escape : read_char (escape c ++ rest) ≡ some (c, rest)
  unfolding escape
  read_char-escape = elim (Bool-cases (ltb 0 (short_escape c))) [
    | inl short ↦ rw (short, escape) (read_char-short short)
    | inr long ↦ rw long (elim (Bool-cases (leb 32 c && leb c 126)) [
      | inl plain ↦ rw plain (read_char-plain long (ground arith))
      | inr other ↦ rw other (elim (Bool-cases (ltb c 0x10000)) [
        | inl small ↦
            rw small
              (read_char_unicode c rest (ground arith) ∙ after_hex_plain c rest (ne_surrogate c h))
        | inr big ↦ rw (big, append_assoc) (read_char-pair big)
      ])
    ])
  ]

starts_with-escape : (c : ℕ) (rest : Text) → starts_with 34 (escape c ++ rest) ≡ false
unfolding escape starts_with short_escape
starts_with-escape c rest = ground arith

-- A string is read up to its closing quote, and what follows is left.
pub read_string-escape_all :
    (f : ℕ) (s rest : Text)
    → IsText s
    → length (escape_all s) ≤ f
    → read_string f (escape_all s ++ rest) ≡ some (s, rest)
unfolding read_string escape_all
read_string-escape_all zero [] rest h fits = absurd (omega arith)
read_string-escape_all zero (c ∷ s) rest h fits =
    absurd (omega (arith, length-escape_pos c (escape_all s)))
read_string-escape_all (suc f) [] rest h fits = refl
read_string-escape_all (suc f) (c ∷ s) rest h fits = rw (
  append_assoc (escape c) (escape_all s) rest,
  starts_with-escape c (escape_all s ++ rest),
  read_char-escape c (escape_all s ++ rest) h.0,
  read_string-escape_all f s rest h.1 (omega (arith, length-escape_pos c (escape_all s))),
  ◌>>=◌,
)
