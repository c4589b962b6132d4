-- ===== src/Common/Version.antt =====
-- pkg/common/version.go: the Ceph versions. The search of the regular expression
-- `ceph version (\d+)\.(\d+)\.(\d+)` is written out: a run of digits ends before the dot, so that no
-- match is lost by taking it whole.
pub mod Supported
pub mod Samples
use Prim.Native.Char.{code}
use Prim.Native.String
use Prim.Native.String.{String}
use pelagia.Prelude.{
  ℕ, ◌+◌, ◌-◌, ◌*◌, Bool, true, false, ◌&&◌, ◌++◌, not, any, Option, none, some, List, [], ◌∷◌, map,
  sprint, drop_prefix, show_nat, ltb, leb, nat_eq, ◌==◌, if◌then◌else◌,
}
use pelagia.Common.World.{Error, Result, ok, err}

pub record CephVersion : Type 0 where
  pub name : String
  pub major_version : String
  pub minor_version : ℕ
  pub order : ℕ
  pub supported_minors : List ℕ

abbrev pub tentacle : CephVersion
tentacle = record {
  name = "Tentacle";
  major_version = "v20.2";
  minor_version = 0;
  order = 20;
  supported_minors = 0 ∷ 1 ∷ 2 ∷ 3 ∷ 4 ∷ [];
}

abbrev pub squid : CephVersion
squid = record {
  name = "Squid";
  major_version = "v19.2";
  minor_version = 0;
  order = 19;
  supported_minors = 3 ∷ 4 ∷ 5 ∷ 6 ∷ 7 ∷ [];
}

abbrev pub latest_release : CephVersion
latest_release = tentacle

abbrev pub available_ceph_versions : List CephVersion
available_ceph_versions = tentacle ∷ squid ∷ []

abbrev pub version_error : List String → Error
version_error texts = record { text = sprint texts; not_found = false; no_match = false }

-- `GetCephVersionByReleaseName`, with `strings.EqualFold` as a parameter.
unfoldable pub version_named :
    (String → String → Bool) → String → List CephVersion → Result CephVersion
version_named equal_fold name [] = err (
    version_error ("specified not supported Ceph release '" ∷ name ∷ "'. Is version correct?" ∷ []))
version_named equal_fold name (v ∷ vs) =
    if equal_fold v.name name then ok v else version_named equal_fold name vs

unfoldable pub get_ceph_version_by_release_name :
    (String → String → Bool) → String → Result CephVersion
get_ceph_version_by_release_name equal_fold name =
    if name == "" then ok latest_release else version_named equal_fold name available_ceph_versions

abbrev pub is_digit : ℕ → Bool
is_digit c = leb b'0' c && leb c b'9'

-- The digits at the front, and what is behind them.
unfoldable pub digits : String → String × String
digits String.[] = ("", "")
digits (String.◌∷◌ c s) =
    let (more, rest) = digits s in
    if is_digit (code c) then (String.◌∷◌ c more, rest) else ("", String.◌∷◌ c s)

abbrev pub and_some {ℓ κ} : {A : Type ℓ} {B : Type κ} → Option A → (A → Option B) → Option B
and_some none f = none
and_some (some a) f = f a

unfoldable pub number_dot : String → Option (String × String)
number_dot s =
    let (number, rest) = digits s in
    if number == "" then none else and_some (drop_prefix "." rest) (λ behind. some (number, behind))

-- The expression at the front of a text.
unfoldable pub version_at : String → Option (String × String × String)
version_at s = and_some (drop_prefix "ceph version " s) λ s₁.
    and_some (number_dot s₁) λ (major, s₂). and_some (number_dot s₂) λ (minor, s₃).
      let (patch, rest) = digits s₃ in if patch == "" then none else some (major, minor, patch)

-- `FindStringSubmatch`: the first match.
unfoldable pub find_version : String → Option (String × String × String)
find_version String.[] = version_at ""
find_version (String.◌∷◌ c s) =
    let later = find_version s in
    elim (version_at (String.◌∷◌ c s)) [ none ↦ later | some v ↦ some v ]

unfoldable pub number_from : ℕ → String → ℕ
number_from n String.[] = n
number_from n (String.◌∷◌ c s) = number_from (n * 10 + (code c - b'0')) s

-- `strconv.Atoi` at digits: a number of more than 63 bits is an error.
unfoldable pub atoi : String → Option ℕ
atoi s = let n = number_from 0 s in if ltb n 9223372036854775808 then some n else none

abbrev pub has_minor : List ℕ → ℕ → Bool
has_minor minors n = any (λ m. nat_eq m n) minors

-- `%v` of a list of texts.
unfoldable pub spaced : List String → String
spaced [] = ""
spaced (s ∷ []) = s
spaced (s ∷ t ∷ ss) = sprint (s ∷ " " ∷ spaced (t ∷ ss) ∷ [])

abbrev pub bracketed : List String → String
bracketed texts = sprint ("[" ∷ spaced texts ∷ "]" ∷ [])

abbrev pub minor_text : CephVersion → ℕ → String
minor_text v minor = sprint (v.major_version ∷ "." ∷ show_nat minor ∷ [])

unfoldable pub with_minor : String → ℕ → CephVersion → Result CephVersion
with_minor major minor v =
    if has_minor v.supported_minors minor
    then ok (record {
      name = v.name;
      major_version = major;
      minor_version = minor;
      order = v.order;
      supported_minors = [];
    })
    else err (
        version_error (
          "specified Ceph version '"
          ∷ major
          ∷ "."
          ∷ show_nat minor
          ∷ "' is not supported. Please use one of: "
          ∷ bracketed (map (minor_text v) v.supported_minors)
          ∷ []))

-- The loop over the versions, with the texts of those that it has passed.
unfoldable pub supported_version : String → ℕ → List String → List CephVersion → Result CephVersion
supported_version major minor seen [] = err (
    version_error (
      "unsupported Ceph major version '"
      ∷ major
      ∷ "' provided. Supported are: "
      ∷ bracketed seen
      ∷ []))
supported_version major minor seen (v ∷ vs) =
    if v.major_version == major
    then with_minor major minor v
    else supported_version major minor
        (seen ++ sprint (v.name ∷ " (" ∷ v.major_version ∷ ")" ∷ []) ∷ []) vs

unfoldable pub with_numbers : String → String → String → Result CephVersion
with_numbers first second third = elim (atoi third) [
  | none ↦ err (version_error ("failed to parse ceph version minor part: '\"" ∷ third ∷ "\"'" ∷ []))
  | some minor ↦
      supported_version (sprint ("v" ∷ first ∷ "." ∷ second ∷ [])) minor [] available_ceph_versions
]

-- `ParseCephVersion`
unfoldable pub parse_ceph_version : String → Result CephVersion
parse_ceph_version text = elim (find_version text) [
  | none ↦ err (
      version_error
        ("failed to parse version '" ∷ text ∷ "', expected format 'ceph version x.x.x'" ∷ []))
  | some (first, second, third) ↦ with_numbers first second third
]

-- `CephVersionGreaterOrEqual`
unfoldable pub ceph_version_greater_or_equal : CephVersion → CephVersion → Bool
ceph_version_greater_or_equal current required =
    if current.name == "" then false else leb required.order current.order
