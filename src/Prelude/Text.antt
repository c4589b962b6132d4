-- ===== src/Prelude/Text.antt =====
-- Go's text functions: `fmt.Sprintf` by concatenation, `strings.Split(s, ".")[0]`,
-- `strings.HasPrefix`, `strings.HasSuffix`, `sort.Strings` and `%d`.
use Prim.Native.Nat.{ℕ, zero, suc, ◌/◌, ◌%◌, Ordering}
use Prim.Native.Char.{code}
use Prim.Native.String
use Prim.Native.String.{String}
use mathlib.Core.Bool.{Bool, true, false}
use mathlib.Core.Option.{Option, none, some}
use mathlib.Core.List.{List, [], ◌∷◌, ◌++◌}
use mathlib.Core.Path.{◌≡◌, refl}
use native.Mathlib.Omega.{arith}
use text.Mathlib.Text.{starts_with, find?}
use pelagia.Prelude.Tests.{ltb, nat_eq, if◌then◌else◌, ◌==◌}

-- `fmt.Sprintf`, with the verbs replaced by their arguments.
unfoldable pub sprint : List String → String
sprint [] = ""
sprint (s ∷ ss) = String.◌++◌ s (sprint ss)

-- The characters of `s` before the first `sep`, which is `strings.Split(s, sep)[0]`.
unfoldable pub before_char : ℕ → String → String
before_char sep String.[] = ""
before_char sep (String.◌∷◌ c s) =
    let rest = before_char sep s in if nat_eq (code c) sep then "" else String.◌∷◌ c rest

unfoldable pub ends_with : String → String → Bool
ends_with String.[] t = String.[] == t
ends_with (String.◌∷◌ c s) t =
    let rest = ends_with s t in if String.◌∷◌ c s == t then true else rest

abbrev on_head : (String → String) → List String → List String
on_head f [] = f "" ∷ []
on_head f (s ∷ ss) = f s ∷ ss

-- `strings.Split`, for a separator of one character.
unfoldable pub split : ℕ → String → List String
split sep String.[] = "" ∷ []
split sep (String.◌∷◌ c s) =
    let rest = split sep s in if nat_eq (code c) sep then "" ∷ rest else on_head (String.◌∷◌ c) rest

-- The rest of `s` behind `t`, if `s` begins with `t`.
unfoldable pub drop_prefix : String → String → Option String
drop_prefix String.[] s = some s
drop_prefix (String.◌∷◌ c t) String.[] = none
drop_prefix (String.◌∷◌ c t) (String.◌∷◌ d s) =
    let rest = drop_prefix t s in if nat_eq (code c) (code d) then rest else none

-- `strings.ReplaceAll(s, t, "")` for a text that is not empty, with as many rounds as `s` has
-- characters.
unfoldable pub remove_from : ℕ → String → String → String
unfolding drop_prefix
remove_from zero t s = s
remove_from (suc fuel) t String.[] = ""
remove_from (suc fuel) t (String.◌∷◌ c s) = elim (drop_prefix t (String.◌∷◌ c s)) [
  | none ↦ String.◌∷◌ c (remove_from fuel t s)
  | some rest ↦ remove_from fuel t rest
]

unfoldable pub remove_text : String → String → String
unfolding remove_from
remove_text t s = remove_from (String.count s) t s

-- `strings.Contains`
abbrev pub has_text : String → String → Bool
has_text s t = elim (find? s t) [ none ↦ false | some _ ↦ true ]

-- `lcmcommon.Contains` at texts.
unfoldable pub contains : List String → String → Bool
contains [] s = false
contains (v ∷ list) s = if v == s then true else contains list s

pub contains-append_left :
    (xs ys : List String) (s : String) → contains xs s ≡ true → contains (xs ++ ys) s ≡ true
unfolding contains
contains-append_left [] ys s h = ground (arith, h)
contains-append_left (x ∷ xs) ys s h = ground (arith, h, contains-append_left xs ys s)

abbrev pub has_prefix : String → String → Bool
has_prefix s t = starts_with s t

unfoldable pub digit : ℕ → String
digit zero = "0"
digit (suc zero) = "1"
digit (suc (suc zero)) = "2"
digit (suc (suc (suc zero))) = "3"
digit (suc (suc (suc (suc zero)))) = "4"
digit (suc (suc (suc (suc (suc zero))))) = "5"
digit (suc (suc (suc (suc (suc (suc zero)))))) = "6"
digit (suc (suc (suc (suc (suc (suc (suc zero))))))) = "7"
digit (suc (suc (suc (suc (suc (suc (suc (suc zero)))))))) = "8"
digit _ = "9"

-- A number below 10 ^ fuel in decimal.
unfoldable pub decimal : ℕ → ℕ → String
unfolding digit
decimal zero n = ""
decimal (suc fuel) n =
    let more = String.◌++◌ (decimal fuel (n / 10)) (digit (n % 10)) in
    if ltb n 10 then digit n else more

-- `%d`: twenty digits hold every 64-bit number.
unfoldable pub show_nat : ℕ → String
unfolding decimal
show_nat n = decimal 20 n

abbrev text_le : String → String → Bool
text_le s t = elim (String.compare s t) [ Ordering.gt ↦ false | _ ↦ true ]

unfoldable pub insert_sorted : String → List String → List String
insert_sorted s [] = s ∷ []
insert_sorted s (t ∷ ts) = if text_le s t then s ∷ t ∷ ts else t ∷ insert_sorted s ts

unfoldable pub sort_strings : List String → List String
unfolding insert_sorted
sort_strings [] = []
sort_strings (s ∷ ss) = insert_sorted s (sort_strings ss)

contains-insert_sorted :
    (t : String) (ts : List String) (s : String)
    → contains (insert_sorted t ts) s ≡ contains (t ∷ ts) s
unfolding contains insert_sorted
contains-insert_sorted t [] s = refl
contains-insert_sorted t (u ∷ us) s = ground (arith, contains-insert_sorted t us s)

pub contains-sort_strings :
    (ss : List String) (s : String) → contains (sort_strings ss) s ≡ contains ss s
unfolding contains sort_strings
contains-sort_strings [] s = refl
contains-sort_strings (t ∷ ts) s =
    ground (arith, contains-insert_sorted t (sort_strings ts) s, contains-sort_strings ts s)
