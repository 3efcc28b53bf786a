-- ===== src/Names/Commit.antt =====
-- What a canonical name of internal/sshx/naming.go commits to.
use mathlib.Core.Option.{some-injective}
use multi_ssh.Base.{
  ℕ, ◌≡◌, ◌≢◌, ◌∙◌, refl, sym, ap, Bool, true, List, [], ◌∷◌, ◌++◌, Text, all, arith,
}
use multi_ssh.Base.Strings.{cut, lacks, cut_at}
use multi_ssh.Names.{
  PublicKey, dot, label_char, valid_friendly_name, valid_canonical_name, name_domain, name_message,
  Sha256, canonical_name, verify_canonical_name,
}
use multi_ssh.Names.Shape.{verify_iff, name_hash, name_hash_shape, valid_canonical_name_iff}

label-lacks_nul : (s : Text) → all label_char s ≡ true → lacks 0 s ≡ true
label-lacks_nul [] h = refl
label-lacks_nul (c ∷ s) h = ground (arith, label-lacks_nul s)

friendly-lacks_nul : (s : Text) → valid_friendly_name s ≡ true → lacks 0 s ≡ true
unfolding valid_friendly_name
friendly-lacks_nul [] h = refl
friendly-lacks_nul (c ∷ s) h = ground (arith, label-lacks_nul s)

append-cancel : (p s t : List ℕ) → p ++ s ≡ p ++ t → s ≡ t
append-cancel [] s t e = e
append-cancel (c ∷ p) s t e = append-cancel p s t (cc)

-- The separators cannot be produced from within a field: what is hashed determines both the label
-- and the host key, for valid labels.
pub name_message-injective :
    (base base' : Text) (key key' : PublicKey)
    → valid_friendly_name base ≡ true
    → valid_friendly_name base' ≡ true
    → name_message base key ≡ name_message base' key'
    → (base ≡ base') × (key ≡ key')
unfolding name_message
name_message-injective base base' key key' v v' e = (ap (λ t. t.0) parts, ap (λ t. t.1) parts)
  where
    tails : base ++ 0 ∷ key ≡ base' ++ 0 ∷ key'
    tails = append-cancel (name_domain ++ 0 ∷ []) _ _ e

    parts : ◌≡◌ {A = Text × Text × Bool} (base, key, true) (base', key', true)
    parts =
        sym (cut_at 0 base key (friendly-lacks_nul base v))
        ∙ ap (cut 0) tails
        ∙ cut_at 0 base' key' (friendly-lacks_nul base' v')

module _ (sha : Sha256) where
  -- What a verified name looks like.
  verify_parts :
      (n : Text) (key : PublicKey)
      → verify_canonical_name sha n key ≡ true
      → (valid_friendly_name (cut dot n).0 ≡ true)
        × (n ≡ (cut dot n).0 ++ dot ∷ name_hash sha (cut dot n).0 key)
  unfolding canonical_name
  verify_parts n key h = let c = ((verify_iff sha n key).0 h).1 in (ground arith, ground arith)

  -- A name that two different host keys both verify is a collision of the shortened hash: two
  -- different messages, and the same twelve characters for both.
  pub verify_two_keys :
      (n : Text) (key key' : PublicKey)
      → verify_canonical_name sha n key ≡ true
      → verify_canonical_name sha n key' ≡ true
      → key ≢ key'
      → (name_message (cut dot n).0 key ≢ name_message (cut dot n).0 key')
        × (name_hash sha (cut dot n).0 key ≡ name_hash sha (cut dot n).0 key')
  verify_two_keys n key key' h h' differ =
      let base = (cut dot n).0 in
      let p = verify_parts n key h in
      let p' = verify_parts n key' h' in
      (
        λ e. differ (name_message-injective base base key key' p.0 p'.0 e).1,
        append-cancel (dot ∷ []) _ _ (append-cancel base _ _ (sym p.1 ∙ p'.1)),
      )

  -- A name that a host key verifies is well formed, and is the one name that its label and that key
  -- give: no other name with the same label is verified by the key.
  pub verify_unique :
      (n m : Text) (key : PublicKey)
      → verify_canonical_name sha n key ≡ true
      → verify_canonical_name sha m key ≡ true
      → (cut dot n).0 ≡ (cut dot m).0
      → (valid_canonical_name n ≡ true) × (n ≡ m)
  verify_unique n m key h k same =
      let v = verify_parts n key h in
      let shape = name_hash_shape sha (cut dot n).0 key in
      (
        (valid_canonical_name_iff n).1 (_, _, v.1, v.0, shape.0, shape.1),
        some-injective n m (cc (((verify_iff sha n key).0 h).1, ((verify_iff sha m key).0 k).1)),
      )
