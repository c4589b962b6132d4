-- ===== src/Config/Values.antt =====
-- The values of parameters: `strconv.ParseBool`, the conversions of integers, and what a parameter
-- sets. A value that does not parse is logged, and leaves what was there.
use Prim.Native.Nat.{◌%◌, ◌^◌}
use Prim.Native.String.{String}
use pelagia.Prelude.{
  ℕ, suc, ◌*◌, ◌-◌, Bool, true, false, Option, none, some, List, [], ◌∷◌, Assoc, lookup, contains,
  ltb, ◌==◌, if◌then◌else◌,
}
use pelagia.Prelude.Numbers.{ℤ, pos, negsuc, neg, Number, parse_int}

abbrev true_texts : List String
true_texts = "1" ∷ "t" ∷ "T" ∷ "TRUE" ∷ "true" ∷ "True" ∷ []

abbrev false_texts : List String
false_texts = "0" ∷ "f" ∷ "F" ∷ "FALSE" ∷ "false" ∷ "False" ∷ []

-- `strconv.ParseBool`
unfoldable pub parse_bool : String → Option Bool
parse_bool s =
    if contains true_texts s then some true else if contains false_texts s then some false else none

-- `strings.TrimSuffix(s, "\n")`
unfoldable pub trim_newline : String → String
trim_newline String.[] = ""
trim_newline (String.◌∷◌ c s) =
    let rest = trim_newline s in if String.◌∷◌ c s == "\n" then "" else String.◌∷◌ c rest

abbrev integer : Number → Option ℤ
integer n = if n.valid then some n.value else none

-- `strconv.Atoi`, none if it fails.
unfoldable pub parse_integer : String → Option ℤ
parse_integer s = integer (parse_int s)

-- The last `w` bits of an integer.
abbrev pub residue : ℕ → ℤ → ℕ
residue w (pos n) = n % 2 ^ w
residue w (negsuc n) = 2 ^ w - 1 - n % 2 ^ w

-- The signed integer that `w` bits stand for.
abbrev pub signed_bits : ℕ → ℕ → ℤ
signed_bits w r = if ltb r (2 ^ (w - 1)) then pos r else negsuc (2 ^ w - 1 - r)

-- `int32(n)`
unfoldable pub to_int32 : ℤ → ℤ
to_int32 n = signed_bits 32 (residue 32 n)

abbrev scale_by : ℕ → ℤ → ℤ
scale_by k (pos n) = pos (n * k)
scale_by k (negsuc n) = neg (suc n * k)

-- `time.Duration(mins) * time.Minute`, in nanoseconds.
unfoldable pub minutes : ℤ → ℤ
minutes n = signed_bits 64 (residue 64 (scale_by 60000000000 n))

-- What a parameter sets, if its value parses.
abbrev pub or_kept {ℓ} : {A : Type ℓ} → A → Option A → A
or_kept kept none = kept
or_kept kept (some a) = a

abbrev pub parse_or {ℓ} : {A : Type ℓ} → (String → Option A) → A → Option String → A
parse_or parse kept none = kept
parse_or parse kept (some s) = or_kept kept (parse s)

module _ (config : Assoc String) where
  abbrev pub set_value : String → String → String
  set_value key kept = or_kept kept (lookup key config)

  abbrev pub set_parsed {ℓ} : {A : Type ℓ} → (String → Option A) → String → A → A
  set_parsed parse key kept = parse_or parse kept (lookup key config)
