-- ===== src/Prelude/Numbers.antt =====
-- Go's signed integers, and `strconv.Atoi`.
use Prim.Native.Char.{code}
use Prim.Native.Nat.{ℕ, zero, suc, ◌+◌, ◌-◌, ◌*◌}
use Prim.Native.String.{String}
use mathlib.Core.Bool.{Bool, true, false, ◌&&◌}
use mathlib.Core.Option.{Option, none, some}
use pelagia.Prelude.Tests.{ltb, leb, nat_eq, if◌then◌else◌}

-- `negsuc n` is -(n + 1).
pub data ℤ : Type 0 where
  pos : ℕ → ℤ
  negsuc : ℕ → ℤ

abbrev pub neg : ℕ → ℤ
neg zero = pos 0
neg (suc n) = negsuc n

abbrev pub eq_ℤ : ℤ → ℤ → Bool
eq_ℤ (pos m) (pos n) = nat_eq m n
eq_ℤ (negsuc m) (negsuc n) = nat_eq m n
eq_ℤ (pos _) (negsuc _) = false
eq_ℤ (negsuc _) (pos _) = false

-- Whether the time `t` is before `start` by a signed duration later.
abbrev pub has_time_left : (t start : ℕ) → ℤ → Bool
has_time_left t start (pos d) = ltb t (start + d)
has_time_left t start (negsuc n) = ltb (t + suc n) start

-- The value that a parser returns, and whether its error is nil.
pub record Number : Type 0 where
  pub value : ℤ
  pub valid : Bool

abbrev digit_value : ℕ → Option ℕ
digit_value c = if leb b'0' c && leb c b'9' then some (c - b'0') else none

unfoldable pub all_digits : ℕ → String → Option ℕ
all_digits n String.[] = some n
all_digits n (String.◌∷◌ c s) = elim (digit_value (code c)) [
  | none ↦ none
  | some d ↦ all_digits (n * 10 + d) s
]

-- The number that the digits of a text make, none if there is no digit or something else.
unfoldable pub unsigned : String → Option ℕ
unfolding all_digits
unsigned String.[] = none
unsigned (String.◌∷◌ c s) = all_digits 0 (String.◌∷◌ c s)

-- 2 ^ 63
abbrev pub int_limit : ℕ
int_limit = 9223372036854775808

-- A number out of range is an error with the nearest bound as the value.
unfoldable pub ranged : Bool → ℕ → Number
ranged negative n =
    if negative
    then (if leb n int_limit
        then record { value = neg n; valid = true }
        else record { value = neg int_limit; valid = false })
    else if ltb n int_limit
    then record { value = pos n; valid = true }
    else record { value = pos (int_limit - 1); valid = false }

unfoldable pub signed : Bool → Option ℕ → Number
unfolding ranged
signed negative none = record { value = pos 0; valid = false }
signed negative (some n) = ranged negative n

-- `strconv.Atoi`
unfoldable pub parse_int : String → Number
unfolding signed unsigned
parse_int String.[] = signed false none
parse_int (String.◌∷◌ c s) =
    if nat_eq (code c) b'-'
    then signed true (unsigned s)
    else if nat_eq (code c) b'+'
    then signed false (unsigned s)
    else signed false (unsigned (String.◌∷◌ c s))
