-- ===== src/Prelude/Keys.antt =====
-- Maps whose keys are distinct, as those of Go are.
use Prim.Native.String.{String}
use mathlib.Core.Bool.{Bool, true, false}
use mathlib.Core.Path.{ap, ◌≡◌, refl}
use mathlib.Core.Option.{Option, none, some}
use mathlib.Core.List.{[], ◌∷◌}
use native.Mathlib.Omega.{arith}
use text.Mathlib.TextEquality.{eq_iff}
use pelagia.Prelude.Tests.{if◌then◌else◌, ◌==◌}
use pelagia.Prelude.Lists.{All}
use pelagia.Prelude.Maps.{Assoc, lookup, lookup_or, insert, has_key, lookup-insert}

module _ {ℓ} {V : Type ℓ} where
  abbrev pub IsMap : Assoc V → Type ℓ
  IsMap [] = Unit
  IsMap ((k, v) ∷ m) = (lookup k m ≡ none) × IsMap m

  pub insert-IsMap : (k : String) (v : V) (m : Assoc V) → IsMap m → IsMap (insert k v m)
  unfolding lookup insert
  insert-IsMap k v [] h = (refl, tt)
  insert-IsMap k v ((j, w) ∷ m) (fresh, h) =
      ground (arith, eq_iff j k, eq_iff k j, lookup-insert k j v m, insert-IsMap k v m h)

  pub lookup_or-insert :
      (d : V) (k j : String) (v : V) (m : Assoc V)
      → lookup_or d j (insert k v m) ≡ (if k == j then v else lookup_or d j m)
  lookup_or-insert d k j v m = rw (lookup_or, lookup-insert k j v m) (choice (k == j) (lookup j m))
    where
      choice :
          (b : Bool) (o : Option V)
          → elim (if b then some v else o) [ none ↦ d | some u ↦ u ]
            ≡ (if b then v else elim o [ none ↦ d | some u ↦ u ])
      choice true o = refl
      choice false o = refl

  -- What holds of every key and its value holds of the entries.
  pub IsMap-All {κ} :
      {Q : String → V → Type κ} (m : Assoc V)
      → IsMap m
      → ((k : String) (v : V) → lookup k m ≡ some v → Q k v)
      → All (λ e. Q e.0 e.1) m
  unfolding lookup
  IsMap-All [] h f = tt
  IsMap-All ((k, v) ∷ m) (fresh, h) f = (
    f k v (ground (arith, eq_iff k k)),
    IsMap-All m h (λ j w e. f j w (ground (arith, eq_iff k j))),
  )

  -- What holds of every key, with any value, holds of the entries.
  pub keys-All {κ} :
      {Q : String → V → Type κ} (m : Assoc V)
      → ((k : String) (v : V) → has_key k m ≡ true → Q k v)
      → All (λ e. Q e.0 e.1) m
  unfolding lookup
  keys-All [] f = tt
  keys-All ((k, v) ∷ m) f =
      (f k v (ground (arith, eq_iff k k)), keys-All m (λ j w e. f j w (ground (arith, eq_iff k j))))

  pub lookup_or-some :
      (d : V) (k : String) (m : Assoc V) {v : V} → lookup k m ≡ some v → lookup_or d k m ≡ v
  lookup_or-some d k m e = ap (λ o. elim o [ none ↦ d | some u ↦ u ]) e
