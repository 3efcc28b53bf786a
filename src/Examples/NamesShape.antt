-- ===== src/Examples/NamesShape.antt =====
-- Names of internal/sshx/naming.go, by example.
use multi_ssh.Base.{◌≡◌, refl, true, some, Text, text_eq}
use multi_ssh.Base.Strings.{cut}
use multi_ssh.Examples.Data.{toy_sha, laptop, laptop_key}
use multi_ssh.Names.{
  dot, valid_friendly_name, valid_canonical_name, canonical_name, verify_canonical_name,
}
use multi_ssh.Names.Shape.{canonical_name_lem}

canonical_name_lem_example :
    (n : Text) × (canonical_name toy_sha laptop laptop_key ≡ some n)
    × (valid_canonical_name n ≡ true)
    × ((cut dot n).0 ≡ laptop)
    × (verify_canonical_name toy_sha n laptop_key ≡ true)
unfolding valid_friendly_name
canonical_name_lem_example = canonical_name_lem toy_sha laptop laptop_key refl
