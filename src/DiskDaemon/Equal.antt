-- ===== src/DiskDaemon/Equal.antt =====
-- `reflect.DeepEqual` at the types of the reports. A nil slice and an empty one are one here.
use pelagia.Prelude.{
  ◌≡◌, refl, String, Bool, true, false, ◌&&◌, none, some, List, [], ◌∷◌, All, Assoc, lookup, length,
  IsMap, IsMap-All, nat_eq, eq_iff, ◌==◌, arith,
}
use pelagia.Common.Disks.{BlockDeviceInfo}

abbrev pub bool_equal : Bool → Bool → Bool
bool_equal true b = b
bool_equal false true = false
bool_equal false false = true

module _ {ℓ} {A : Type ℓ} (equal : A → A → Bool) where
  unfoldable pub list_equal : List A → List A → Bool
  list_equal [] [] = true
  list_equal [] (_ ∷ _) = false
  list_equal (_ ∷ _) [] = false
  list_equal (x ∷ xs) (y ∷ ys) = equal x y && list_equal xs ys

  -- Every key of the first map has an equal value in the second one.
  unfoldable pub is_within : Assoc A → Assoc A → Bool
  is_within [] n = true
  is_within ((k, v) ∷ m) n =
      (elim (lookup k n) [ none ↦ false | some w ↦ equal v w ]) && is_within m n

  unfoldable pub map_equal : Assoc A → Assoc A → Bool
  unfolding is_within
  map_equal m n = nat_eq (length m) (length n) && is_within m n

  module _ (equal_refl : (x : A) → equal x x ≡ true) where
    pub list_equal_refl : (xs : List A) → list_equal xs xs ≡ true
    unfolding list_equal
    list_equal_refl [] = refl
    list_equal_refl (x ∷ xs) = ground (arith, equal_refl x, list_equal_refl xs)

    is_within_refl : (m n : Assoc A) → All (λ e. lookup e.0 n ≡ some e.1) m → is_within m n ≡ true
    unfolding is_within
    is_within_refl [] n h = refl
    is_within_refl ((k, v) ∷ m) n (e, h) = ground (arith, equal_refl v, is_within_refl m n h)

    pub map_equal_refl : (m : Assoc A) → IsMap m → map_equal m m ≡ true
    unfolding map_equal
    map_equal_refl m h =
        ground
          (arith, is_within_refl m m (IsMap-All {Q = λ k v. lookup k m ≡ some v} m h (λ k v e. e)))

abbrev pub text_equal : String → String → Bool
text_equal s t = s == t

pub text_equal_refl : (s : String) → text_equal s s ≡ true
text_equal_refl s = (eq_iff s s).1 refl

unfoldable pub block_equal : BlockDeviceInfo → BlockDeviceInfo → Bool
block_equal a b =
    a.kname == b.kname
    && a.serial == b.serial
    && a.type == b.type
    && a.fstype == b.fstype
    && bool_equal a.rotational b.rotational
    && a.maj_min == b.maj_min
    && list_equal text_equal a.symlinks b.symlinks
    && list_equal text_equal a.parent b.parent
    && list_equal text_equal a.childrens b.childrens

bool_equal_refl : (b : Bool) → bool_equal b b ≡ true
bool_equal_refl true = refl
bool_equal_refl false = refl

pub block_equal_refl : (b : BlockDeviceInfo) → block_equal b b ≡ true
unfolding block_equal
block_equal_refl b = ground (
  arith,
  text_equal_refl b.kname,
  text_equal_refl b.serial,
  text_equal_refl b.type,
  text_equal_refl b.fstype,
  bool_equal_refl b.rotational,
  text_equal_refl b.maj_min,
  list_equal_refl text_equal text_equal_refl b.symlinks,
  list_equal_refl text_equal text_equal_refl b.parent,
  list_equal_refl text_equal text_equal_refl b.childrens,
)
