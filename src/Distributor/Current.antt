-- ===== src/Distributor/Current.antt =====
-- Which agents count as up to date: `builds` and `serving` of cmd/proxy/install.go, as the page of
-- cmd/proxy/main.go uses them.
use mathlib.Core.Option.{none-ne-some, some-injective}
use multi_ssh.Base.{
  ◌≡◌, refl, ap, ◌∙◌, true, false, List, [], ◌∷◌, map, Option, some, Text, ◌==◌, text_eq, Dict,
  lookup, ltb, contains, length, Bool-cases, inl, inr, arith,
}
use multi_ssh.Base.Strings.{codes}
use multi_ssh.Page.{build_state}
use multi_ssh.Distributor.{Entry, Distributor, build_id_of, sums, builds, serving, scan}
use multi_ssh.Distributor.Scanned.{offered, lookup-scan}

contains-sums :
    (h : Dict Text Text) (n sum : Text)
    → lookup n h ≡ some sum
    → contains (map build_id_of (sums h)) (build_id_of sum) ≡ true
unfolding lookup
contains-sums [] n sum e = absurd (none-ne-some sum e)
contains-sums ((k, s) ∷ h) n sum e = elim (Bool-cases (n == k)) [
  | inl yes' ↦
      let same : s ≡ sum = some-injective s sum (rw yes' at e) in
      ground (arith, ap build_id_of same)
  | inr no' ↦ ground (arith, contains-sums h n sum (rw no' at e))
]

serving-some : (h : Dict Text Text) (n sum : Text) → lookup n h ≡ some sum → ltb 0 (length h) ≡ true
unfolding lookup
serving-some [] n sum e = absurd (none-ne-some sum e)
serving-some ((k, s) ∷ h) n sum e = ground arith

-- An agent that reports the build of a file which the proxy serves is shown as current.
pub served_current :
    (hash_file : Text → Option Text) (sha256 : Text → Text) (d : Distributor) (es : List Entry)
    (n sum : Text)
    → offered es n ≡ true
    → hash_file n ≡ some sum
    → (build_id_of sum == []) ≡ false
    → let now = scan hash_file sha256 d (some es) in
      build_state (build_id_of sum) (builds now) (serving now) ≡ codes "current"
unfolding builds serving build_state
served_current hash_file sha256 d es n sum there hashed some' =
    let now = scan hash_file sha256 d (some es) in
    let at : lookup n now.hashes ≡ some sum =
      lookup-scan hash_file sha256 d es n ∙ rw there hashed in
    rw (serving-some now.hashes n sum at, some', contains-sums now.hashes n sum at) refl
