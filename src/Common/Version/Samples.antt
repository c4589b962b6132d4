-- ===== src/Common/Version/Samples.antt =====
-- Texts that Ceph prints.
use pelagia.Prelude.{◌≡◌, refl, true, any, [], drop_prefix, sprint}
use pelagia.Common.Version.{
  CephVersion, available_ceph_versions, digits, number_dot, version_at, find_version, number_from,
  atoi, with_minor, supported_version, with_numbers, parse_ceph_version,
}
use pelagia.Common.Version.Supported.{
  is_of, version_text, parse_ceph_version-is_of, parse_ceph_version-text,
}

abbrev parsed_squid : CephVersion
parsed_squid = record {
  name = "Squid";
  major_version = "v19.2";
  minor_version = 3;
  order = 19;
  supported_minors = [];
}

parse_ceph_version-is_of_example : any (is_of parsed_squid) available_ceph_versions ≡ true
unfolding parse_ceph_version find_version version_at drop_prefix number_dot digits with_numbers atoi
    number_from supported_version with_minor sprint
parse_ceph_version-is_of_example =
    parse_ceph_version-is_of "ceph version 19.2.3 squid" parsed_squid refl

parse_ceph_version-text_example :
    parse_ceph_version (version_text "19" "2" "3" " squid (stable)") ≡ with_numbers "19" "2" "3"
unfolding digits
parse_ceph_version-text_example =
    parse_ceph_version-text "19" "2" "3" " squid (stable)" refl refl refl refl refl refl refl
