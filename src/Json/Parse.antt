-- ===== src/Json/Parse.antt =====
-- `json.loads`, by recursive descent. A parser returns what it read and the text that is left.
pub mod Numbers
use mathlib.Core.Option
use anycall.Prelude.{
  ℕ, zero, suc, ◌+◌, ◌-◌, ◌*◌, Bool, true, false, ◌&&◌, ◌||◌, Option, none, some, [], ◌∷◌, ltb, leb,
  eqb, if◌then◌else◌, length,
}
use anycall.Json.Parse.Numbers.{is_number, read_number}
use anycall.Text.{Text, codes, ◌==◌}
use anycall.Json.{
  Json, Items, Fields, null, bool, number, str, arr, obj, no_items, item, no_fields, field,
  dict_from,
}

abbrev pub Parser : Type 0 → Type 0
Parser A = Text → Option (A × Text)

abbrev pub pure : {A : Type 0} → A → Parser A
pure a s = some (a, s)

infixl 5 ◌>>=◌ ◌>>◌
abbrev pub ◌>>=◌ : {A B : Type 0} → Parser A → (A → Parser B) → Parser B
◌>>=◌ p f s = elim (p s) [ none ↦ none | some (a, rest) ↦ f a rest ]

abbrev pub ◌>>◌ : {A B : Type 0} → Parser A → Parser B → Parser B
p >> q = p >>= λ _. q

unfoldable pub is_space : ℕ → Bool
is_space c = eqb c 32 || eqb c 10 || eqb c 13 || eqb c 9

unfoldable pub skip_space : Text → Text
skip_space [] = []
skip_space (c ∷ s) = let rest = skip_space s in if is_space c then rest else c ∷ s

unfoldable pub expect : ℕ → Parser (Unit {0})
expect c [] = none
expect c (d ∷ s) = if eqb d c then some (tt, s) else none

unfoldable pub starts_with : ℕ → Text → Bool
starts_with c [] = false
starts_with c (d ∷ s) = eqb d c

unfoldable pub hex_value : ℕ → Option ℕ
hex_value d =
    if leb 48 d && leb d 57
    then some (d - 48)
    else if leb 97 d && leb d 102
    then some (d - 87)
    else if leb 65 d && leb d 70
    then some (d - 55)
    else none

unfoldable pub next : Parser ℕ
next [] = none
next (c ∷ s) = some (c, s)

abbrev pub when_hex : Option ℕ → Parser ℕ
when_hex o s = Option.map (λ n. (n, s)) o

unfoldable pub read_hex4 : Parser ℕ
unfolding next hex_value
read_hex4 = do
  a ← next
  x ← when_hex (hex_value a)
  b ← next
  y ← when_hex (hex_value b)
  c ← next
  z ← when_hex (hex_value c)
  d ← next
  w ← when_hex (hex_value d)
  pure (x * 4096 + y * 256 + z * 16 + w)

unfoldable pub is_high : ℕ → Bool
is_high c = leb 0xd800 c && leb c 0xdbff

unfoldable pub is_low : ℕ → Bool
is_low c = leb 0xdc00 c && leb c 0xdfff

-- A low surrogate that follows is joined to the high one before it.
unfoldable pub join_low : ℕ → Text → ℕ → Parser ℕ
unfolding is_low
join_low high before low s =
    if is_low low
    then some (0x10000 + (high - 0xd800) * 1024 + (low - 0xdc00), s)
    else some (high, before)

unfoldable pub read_low : ℕ → Parser ℕ
unfolding expect
read_low high s = elim ((do expect 92; expect b'u'; read_hex4) s) [
  | none ↦ some (high, s)
  | some (low, rest) ↦ join_low high s low rest
]

unfoldable pub after_hex : ℕ → Parser ℕ
after_hex c = if is_high c then read_low c else pure c

-- What follows the backslash.
unfoldable pub read_escape : ℕ → Parser ℕ
read_escape e =
    if eqb e 34 || eqb e 92 || eqb e b'/'
    then pure e
    else if eqb e b'n'
    then pure 10
    else if eqb e b'r'
    then pure 13
    else if eqb e b't'
    then pure 9
    else if eqb e b'f'
    then pure 12
    else if eqb e b'b'
    then pure 8
    else if eqb e b'u'
    then (do c ← read_hex4; after_hex c)
    else λ _. none

unfoldable pub read_char : Parser ℕ
unfolding next
read_char = do
  c ← next
  if eqb c 92 then (do e ← next; read_escape e) else if ltb c 32 then (λ _. none) else pure c

-- The characters up to the closing quote.
unfoldable pub read_string : ℕ → Parser Text
unfolding starts_with expect
read_string zero s = none
read_string (suc f) s =
    let more = (do c ← read_char; t ← read_string f; pure (c ∷ t)) s in
    if starts_with 34 s then (do expect 34; pure []) s else more

unfoldable pub expect_all : Text → Parser (Unit {0})
unfolding expect
expect_all [] = pure tt
expect_all (c ∷ w) = do expect c; expect_all w

unfoldable pub expect_sep : Bool → Parser (Unit {0})
unfolding expect
expect_sep first = if first then pure tt else expect b','

abbrev trim : Parser (Unit {0})
trim s = some (tt, skip_space s)

abbrev lexeme : Parser Text
lexeme s = some (read_number s)

abbrev on_text : {A : Type 0} → Text → Parser A → Option (A × Text)
on_text s p = p s

abbrev string : Parser Text
string s = on_text s do expect 34; read_string (suc (length s))

-- What a call leaves is no structural part of its input, so each call costs a unit of fuel.
unfoldable mutual
  pub parse_value : ℕ → Parser Json
  parse_value zero s = none
  parse_value (suc f) s =
      let t = skip_space s in
      let items = on_text t (do expect b'['; xs ← parse_items f true; pure (arr xs)) in
      let fields =
        on_text t (do expect b'{'; d ← parse_fields f true; pure (obj (dict_from no_fields d))) in
      if starts_with 34 t
      then on_text t (do w ← string; pure (str w))
      else if starts_with b'[' t
      then items
      else if starts_with b'{' t
      then fields
      else if starts_with b'n' t
      then on_text t (do expect_all (codes "null"); pure null)
      else if starts_with b't' t
      then on_text t (do expect_all (codes "true"); pure (bool true))
      else if starts_with b'f' t
      then on_text t (do expect_all (codes "false"); pure (bool false))
      else on_text t (do n ← lexeme; if is_number n then pure (number n) else λ _. none)

  pub parse_items : ℕ → Bool → Parser Items
  parse_items zero first s = none
  parse_items (suc f) first s =
      let t = skip_space s in
      let more =
        on_text t do expect_sep first; v ← parse_value f; xs ← parse_items f false; pure (item v xs)
      in if starts_with b']' t then on_text t (do expect b']'; pure no_items) else more

  pub parse_fields : ℕ → Bool → Parser Fields
  parse_fields zero first s = none
  parse_fields (suc f) first s =
      let t = skip_space s in
      let more = on_text t do
        expect_sep first
        trim
        k ← string
        trim
        expect b':'
        v ← parse_value f
        d ← parse_fields f false
        pure (field k v d)
      in if starts_with b'}' t then on_text t (do expect b'}'; pure no_fields) else more

unfoldable pub finish : Option (Json × Text) → Option Json
unfolding skip_space
finish none = none
finish (some (v, rest)) = if skip_space rest == [] then some v else none

-- `none` is a JSONDecodeError.
unfoldable pub loads : Text → Option Json
unfolding finish
loads s = finish (parse_value (2 * length s + 2) s)
