-- ===== src/OsdRemove/Spec/Volumes/Key.antt =====
-- The keys of stray OSDs: spec_handler.go writes them, helpers.go and executor.go read them.
use Prim.Native.Nat.{ℕ}
use Prim.Native.Char.{code}
use Prim.Native.String
use Prim.Native.String.{String}
use text.Mathlib.TextLemmas.{nil-append, cons-append, append-nil}
use pelagia.Prelude.{
  sym, ◌≡◌, refl, ap, ◌∙◌, Bool, true, false≢true, not, ◌&&◌, sprint, before_char, ends_with,
  nat_eq, and_true, if_ind, if_cases, ◌==◌,
}
use pelagia.OsdRemove.Config.{stray_osd_node_marker, is_stray_osd_id, osd_number, plain_osd_id}
use pelagia.OsdRemove.Spec.Volumes.{stray_key}

-- The character is not in the text.
abbrev pub is_free : ℕ → String → Bool
is_free sep String.[] = true
is_free sep (String.◌∷◌ c s) = not (nat_eq (code c) sep) && is_free sep s

ends_with-append :
    (s t suffix : String) → ends_with t suffix ≡ true → ends_with (String.◌++◌ s t) suffix ≡ true
unfolding ends_with
ends_with-append String.[] t suffix h = rw (nil-append t) h
ends_with-append (String.◌∷◌ c s) t suffix h =
    rw (cons-append c s t) (if_ind (λ b. b ≡ true) _ refl (ends_with-append s t suffix h))

before_char-append :
    (sep : ℕ) (s t : String)
    → is_free sep s ≡ true
    → before_char sep (String.◌++◌ s t) ≡ String.◌++◌ s (before_char sep t)
unfolding before_char
before_char-append sep String.[] t h = rw (nil-append t, nil-append (before_char sep t)) refl
before_char-append sep (String.◌∷◌ c s) t h =
    let (other, free) = and_true (not (nat_eq (code c) sep)) _ h in
    rw (cons-append c s t, cons-append c s (before_char sep t))
      (if_cases (λ r. r ≡ String.◌∷◌ c (String.◌++◌ s (before_char sep t))) (nat_eq (code c) sep)
        (λ e. absurd (false≢true (ap not (sym e) ∙ other)))
        (λ e. ap (String.◌∷◌ c) (before_char-append sep s t free)))

before_dot : (r : String) → before_char b'.' (String.◌++◌ "." r) ≡ ""
unfolding before_char
before_dot r = rw (cons-append _ "" r) refl

-- A key that is the id, a dot and what ends with the marker.
read_key :
    (osd r : String)
    → is_free b'.' osd ≡ true
    → ends_with r stray_osd_node_marker ≡ true
    → (is_stray_osd_id (String.◌++◌ osd (String.◌++◌ "." r)) ≡ true)
      × (plain_osd_id (String.◌++◌ osd (String.◌++◌ "." r)) ≡ osd)
unfolding is_stray_osd_id plain_osd_id osd_number
read_key osd r free marked =
    (marks, rw marks (before_char-append b'.' osd _ free ∙ rw (before_dot r) (append-nil osd)))
  where
    marks : ends_with (String.◌++◌ osd (String.◌++◌ "." r)) stray_osd_node_marker ≡ true
    marks = ends_with-append osd _ _ (ends_with-append "." r _ marked)

-- The key of a stray OSD is read as one, and gives the id back that it was made of.
pub plain_osd_id-stray_key :
    (osd uuid : String)
    → is_free b'.' osd ≡ true
    → (is_stray_osd_id (stray_key osd uuid) ≡ true) × (plain_osd_id (stray_key osd uuid) ≡ osd)
unfolding stray_key sprint ends_with
plain_osd_id-stray_key osd uuid free =
    if_ind (λ key. (is_stray_osd_id key ≡ true) × (plain_osd_id key ≡ osd)) (uuid == "")
      (read_key osd stray_osd_node_marker free ends)
      (read_key osd _ free (
        ends_with-append uuid _ stray_osd_node_marker
          (ends_with-append "." stray_osd_node_marker stray_osd_node_marker ends)))
  where
    ends : ends_with stray_osd_node_marker stray_osd_node_marker ≡ true
    ends = refl
