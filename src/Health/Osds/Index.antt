-- ===== src/Health/Osds/Index.antt =====
-- The index shortcut of getOsdClusterDetails.
use pelagia.Prelude.{
  ℕ, zero, suc, ◌≡◌, none, some, List, [], ◌∷◌, get_elem?, Option-cases, inl, inr, arith,
}
use pelagia.Common.Objects.{OsdInfo}
use pelagia.Health.Osds.{find_info, info_at, osd_info_of}

-- No two entries have one id.
abbrev pub IsDistinct : List OsdInfo → Type 0
IsDistinct [] = Unit
IsDistinct (info ∷ infos) = (find_info info.osd_id infos ≡ none) × IsDistinct infos

find_info-get_elem? :
    (infos : List OsdInfo) (idx : ℕ) {info : OsdInfo}
    → IsDistinct infos
    → get_elem? infos idx ≡ some info
    → find_info info.osd_id infos ≡ some info
unfolding find_info
find_info-get_elem? [] idx d e = cc
find_info-get_elem? (x ∷ xs) zero d e = ground arith
find_info-get_elem? (x ∷ xs) (suc idx) {info} d e = ground (arith, find_info-get_elem? xs idx d.1 e)

-- Where no id occurs twice, the index finds what the search of the whole list finds.
pub osd_info_of-find_info :
    (count idx id : ℕ) (infos : List OsdInfo)
    → IsDistinct infos
    → osd_info_of count idx id infos ≡ find_info id infos
unfolding osd_info_of info_at
osd_info_of-find_info count idx id infos d = elim (Option-cases (get_elem? infos idx)) [
  | inl e ↦ ground arith
  | inr (info, e) ↦ ground (arith, find_info-get_elem? infos idx {info = info} d e)
]
