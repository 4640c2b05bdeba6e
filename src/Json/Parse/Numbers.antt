-- ===== src/Json/Parse/Numbers.antt =====
-- The literals of numbers that `json.loads` reads.
use anycall.Prelude.{ℕ, Bool, true, false, ◌&&◌, ◌||◌, [], ◌∷◌, leb, eqb, if◌then◌else◌}
use anycall.Text.{Text}

unfoldable pub is_number_char : ℕ → Bool
is_number_char c =
    (leb 48 c && leb c 57) || eqb c b'-' || eqb c b'+' || eqb c b'.' || eqb c b'e' || eqb c b'E'

-- Where a scan stands in a number literal; `bad` for a text that is none.
pub data Scan : Type 0 where
  start minus zeros whole point fraction e e_sign exponent bad : Scan

unfoldable pub scan_digit : Scan → ℕ → Scan
scan_digit start c = if eqb c 48 then zeros else whole
scan_digit minus c = if eqb c 48 then zeros else whole
scan_digit whole c = whole
scan_digit point c = fraction
scan_digit fraction c = fraction
scan_digit e c = exponent
scan_digit e_sign c = exponent
scan_digit exponent c = exponent
scan_digit _ c = bad

unfoldable pub scan_other : Scan → ℕ → Scan
scan_other start c = if eqb c b'-' then minus else bad
scan_other zeros c = if eqb c b'.' then point else if eqb c b'e' || eqb c b'E' then e else bad
scan_other whole c = if eqb c b'.' then point else if eqb c b'e' || eqb c b'E' then e else bad
scan_other fraction c = if eqb c b'e' || eqb c b'E' then e else bad
scan_other e c = if eqb c b'-' || eqb c b'+' then e_sign else bad
scan_other _ c = bad

unfoldable pub accepts : Scan → Bool
accepts zeros = true
accepts whole = true
accepts fraction = true
accepts exponent = true
accepts _ = false

unfoldable pub scan : Scan → Text → Bool
unfolding accepts scan_digit scan_other
scan q [] = accepts q
scan q (c ∷ s) = scan (if leb 48 c && leb c 57 then scan_digit q c else scan_other q c) s

unfoldable pub is_number : Text → Bool
unfolding scan
is_number = scan start

unfoldable pub read_number : Text → Text × Text
unfolding is_number_char
read_number [] = ([], [])
read_number (c ∷ s) =
    let (n, rest) = read_number s in if is_number_char c then (c ∷ n, rest) else ([], c ∷ s)
