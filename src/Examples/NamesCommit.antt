-- ===== src/Examples/NamesCommit.antt =====
-- What a canonical name commits to (internal/sshx/naming.go), by example.
use multi_ssh.Base.{◌≡◌, ◌≢◌, refl, true, [], ◌∷◌, arith, ℕ_discrete, text_eq}
use multi_ssh.Base.Strings.{cut}
use multi_ssh.Examples.Data.{toy_sha, laptop_key, laptop_name}
use multi_ssh.Names.{
  dot, valid_friendly_name, name_message, canonical_name, verify_canonical_name, b32_encode,
}
use multi_ssh.Names.Commit.{verify_two_keys}
use multi_ssh.Names.Shape.{name_hash}

laptop_verifies : verify_canonical_name toy_sha laptop_name laptop_key ≡ true
unfolding verify_canonical_name canonical_name valid_friendly_name name_message b32_encode cut
    text_eq ℕ_discrete
laptop_verifies = refl

other_verifies : verify_canonical_name toy_sha laptop_name (9 ∷ 9 ∷ []) ≡ true
unfolding verify_canonical_name canonical_name valid_friendly_name name_message b32_encode cut
    text_eq ℕ_discrete
other_verifies = refl

verify_two_keys_example :
    (name_message (cut dot laptop_name).0 laptop_key
      ≢ name_message (cut dot laptop_name).0 (9 ∷ 9 ∷ []))
    × (name_hash toy_sha (cut dot laptop_name).0 laptop_key
        ≡ name_hash toy_sha (cut dot laptop_name).0 (9 ∷ 9 ∷ []))
verify_two_keys_example =
    verify_two_keys toy_sha laptop_name laptop_key ((9 ∷ 9 ∷ [])) laptop_verifies other_verifies
      (λ e. ground arith)
