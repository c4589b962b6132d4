-- ===== src/Common/Version/Supported.antt =====
-- ParseCephVersion of pkg/common/version.go: what it reads and what it accepts.
use Prim.Native.Char.{code}
use Prim.Native.String
use Prim.Native.String.{String}
use text.Mathlib.TextLemmas.{nil-append, cons-append}
use pelagia.Prelude.{
  ℕ, ◌≡◌, refl, sym, ap, subst, Bool, true, false, false≢true, ◌&&◌, ◌||◌, any, Option, none, some,
  List, [], ◌∷◌, drop_prefix, nat_eq, if_cases, and_true, eq_iff, arith, ◌==◌,
}
use pelagia.Common.World.{Result, ok, err}
use pelagia.Common.Version.{
  CephVersion, version_error, atoi, available_ceph_versions, is_digit, digits, number_dot,
  version_at, find_version, has_minor, with_minor, supported_version, with_numbers,
  parse_ceph_version,
}

-- The version is one of those of a release.
abbrev pub is_of : CephVersion → CephVersion → Bool
is_of v w =
    v.name == w.name
    && v.major_version == w.major_version
    && nat_eq v.order w.order
    && has_minor w.supported_minors v.minor_version

is_ok : Result CephVersion → Bool
is_ok (ok v) = true
is_ok (err e) = false

value_or : CephVersion → Result CephVersion → CephVersion
value_or w (ok v) = v
value_or w (err e) = w

with_minor-is_of :
    (major : String) (minor : ℕ) (w v : CephVersion)
    → (w.major_version == major) ≡ true
    → with_minor major minor w ≡ ok v
    → is_of v w ≡ true
unfolding with_minor is_ok value_or
with_minor-is_of major minor w v same =
    if_cases (λ r. r ≡ ok v → is_of v w ≡ true) (has_minor w.supported_minors minor)
      (λ has e. subst (λ x. is_of x w ≡ true) (ap (value_or v) e) (fits has))
      (λ _ e. absurd (false≢true (ap is_ok e)))
  where
    fits :
        has_minor w.supported_minors minor ≡ true
        → (w.name == w.name
            && major == w.major_version
            && nat_eq w.order w.order
            && has_minor w.supported_minors minor)
          ≡ true
    fits has =
        rw
          (
            (eq_iff w.name w.name).1 refl,
            (eq_iff major w.major_version).1 (sym ((eq_iff w.major_version major).0 same)),
            has,
          )
          (ground arith)

supported_version-is_of :
    (major : String) (minor : ℕ) (vs : List CephVersion) (seen : List String) (v : CephVersion)
    → supported_version major minor seen vs ≡ ok v
    → any (is_of v) vs ≡ true
unfolding supported_version is_ok
supported_version-is_of major minor [] seen v = λ e. absurd (false≢true (ap is_ok e))
supported_version-is_of major minor (w ∷ ws) seen v =
    if_cases (λ r. r ≡ ok v → any (is_of v) (w ∷ ws) ≡ true) (w.major_version == major)
      (λ same e. ap (λ b. b || any (is_of v) ws) (with_minor-is_of major minor w v same e))
      (λ _ e. either (is_of v w) (supported_version-is_of major minor ws _ v e))
  where
    either : (b : Bool) → any (is_of v) ws ≡ true → (b || any (is_of v) ws) ≡ true
    either true h = refl
    either false h = h

-- A version that is accepted is of an available release: it has the name, the major version and
-- the order of the release, and a minor version that the release supports.
pub parse_ceph_version-is_of :
    (text : String) (v : CephVersion)
    → parse_ceph_version text ≡ ok v
    → any (is_of v) available_ceph_versions ≡ true
unfolding parse_ceph_version with_numbers is_ok
parse_ceph_version-is_of text v = read (find_version text)
  where
    numbered :
        (major : String) (third : String) (o : Option ℕ)
        → elim o as (λ _. Result CephVersion) [
          | none ↦
              err (
                version_error ("failed to parse ceph version minor part: '\"" ∷ third ∷ "\"'" ∷ []))
          | some minor ↦ supported_version major minor [] available_ceph_versions
        ]
          ≡ ok v
        → any (is_of v) available_ceph_versions ≡ true
    numbered major third none e = absurd (false≢true (ap is_ok e))
    numbered major third (some minor) e =
        supported_version-is_of major minor available_ceph_versions [] v e

    read :
        (o : Option (String × String × String))
        → elim o as (λ _. Result CephVersion) [
          | none ↦ err (
              version_error (
                "failed to parse version '" ∷ text ∷ "', expected format 'ceph version x.x.x'"
                ∷ []))
          | some (first, second, third) ↦ with_numbers first second third
        ]
          ≡ ok v
        → any (is_of v) available_ceph_versions ≡ true
    read none e = absurd (false≢true (ap is_ok e))
    read (some (first, second, third)) e = numbered _ third (atoi third) e

abbrev pub is_number : String → Bool
is_number String.[] = true
is_number (String.◌∷◌ c s) = is_digit (code c) && is_number s

nat_eq_refl : (n : ℕ) → nat_eq n n ≡ true
nat_eq_refl n = ground arith

drop_prefix-append : (p s : String) → drop_prefix p (String.◌++◌ p s) ≡ some s
unfolding drop_prefix
drop_prefix-append String.[] s = rw (nil-append s) refl
drop_prefix-append (String.◌∷◌ c p) s =
    rw (cons-append c p s, drop_prefix-append p s, nat_eq_refl (code c)) refl

digits-append :
    (n t : String) → is_number n ≡ true → digits t ≡ ("", t) → digits (String.◌++◌ n t) ≡ (n, t)
unfolding digits
digits-append String.[] t h e = rw (nil-append t) e
digits-append (String.◌∷◌ c n) t h e =
    let (digit, more) = and_true (is_digit (code c)) _ h in
    rw (cons-append c n t, digits-append n t more e, digit) refl

-- A text that does not go on with a digit.
abbrev pub Ends : String → Type 0
Ends t = digits t ≡ ("", t)

dot-Ends : (t : String) → Ends (String.◌++◌ "." t)
unfolding digits
dot-Ends t = rw (cons-append _ "" t, nil-append t) refl

number_dot-append :
    (n t : String)
    → is_number n ≡ true
    → n == "" ≡ false
    → number_dot (String.◌++◌ n (String.◌++◌ "." t)) ≡ some (n, t)
unfolding number_dot
number_dot-append n t number there =
    rw (digits-append n (String.◌++◌ "." t) number (dot-Ends t), there, drop_prefix-append "." t)
      refl

-- The text of a version, with what Ceph prints behind it.
abbrev pub version_text : String → String → String → String → String
version_text a b c behind =
    String.◌++◌ "ceph version "
      (String.◌++◌ a (String.◌++◌ "." (String.◌++◌ b (String.◌++◌ "." (String.◌++◌ c behind)))))

version_at-text :
    (a b c behind : String)
    → is_number a ≡ true
    → is_number b ≡ true
    → is_number c ≡ true
    → a == "" ≡ false
    → b == "" ≡ false
    → c == "" ≡ false
    → Ends behind
    → version_at (version_text a b c behind) ≡ some (a, b, c)
unfolding version_at
version_at-text a b c behind na nb nc ea eb ec ends =
    rw
      (
        drop_prefix-append "ceph version " _,
        number_dot-append a _ na ea,
        number_dot-append b _ nb eb,
        digits-append c behind nc ends,
        ec,
      )
      refl

first_version :
    (s : String) (v : String × String × String) → version_at s ≡ some v → find_version s ≡ some v
unfolding find_version
first_version String.[] v e = e
first_version (String.◌∷◌ c s) v e = rw (find_version, e) refl

-- A text that begins with a version is read as its three numbers, whatever stands behind them but
-- another digit.
pub parse_ceph_version-text :
    (a b c behind : String)
    → is_number a ≡ true
    → is_number b ≡ true
    → is_number c ≡ true
    → a == "" ≡ false
    → b == "" ≡ false
    → c == "" ≡ false
    → Ends behind
    → parse_ceph_version (version_text a b c behind) ≡ with_numbers a b c
unfolding parse_ceph_version
parse_ceph_version-text a b c behind na nb nc ea eb ec ends =
    rw
      (
        parse_ceph_version,
        first_version (version_text a b c behind) (a, b, c)
            (version_at-text a b c behind na nb nc ea eb ec ends),
      )
      refl
