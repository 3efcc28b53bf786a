-- ===== src/Names/Shape.antt =====
-- The two namespaces of internal/sshx/naming.go, and what the derivation of a name gives.
use multi_ssh.Base.{
  ℕ, ◌≤◌, ◌<◌, ◌≡◌, refl, sym, ◌↔◌, true, false, List, [], ◌∷◌, ◌++◌, map, some, Text, text_eq,
  length, take, all, All, length-append, all-append, all-take, length-take_le, arith,
}
use multi_ssh.Base.Strings.{cut, lacks, cut_at, cut_missing, cut_parts}
use multi_ssh.Names.{
  PublicKey, Bytes, dot, hash_len, label_char, b32_char, b32_digit, quintets, b32_group, b32_encode,
  valid_friendly_name, is_canonical_name, valid_canonical_name, name_message, Sha256,
  canonical_name, verify_canonical_name,
}

label-lacks : (s : Text) → all label_char s ≡ true → lacks dot s ≡ true
label-lacks [] h = refl
label-lacks (c ∷ s) h = ground (arith, label-lacks s)

pub friendly-lacks : (s : Text) → valid_friendly_name s ≡ true → lacks dot s ≡ true
unfolding valid_friendly_name
friendly-lacks [] h = refl
friendly-lacks (c ∷ s) h = ground (arith, label-lacks s)

-- No friendly name is in the canonical namespace, and every well-formed canonical name is.
pub namespaces_apart :
    (s : Text)
    → (valid_friendly_name s ≡ true → is_canonical_name s ≡ false)
      × (valid_canonical_name s ≡ true → is_canonical_name s ≡ true)
unfolding is_canonical_name valid_canonical_name
namespaces_apart s =
    (λ h. rw (cut_missing dot s (friendly-lacks s h), is_canonical_name), λ h. ground arith)

-- A label, a dot, and twelve characters of the hash's alphabet.
abbrev pub IsCanonical : Text → Type 0
IsCanonical s =
    (base : Text) × (hash : Text) × (s ≡ base ++ dot ∷ hash)
    × (valid_friendly_name base ≡ true)
    × (all b32_char hash ≡ true)
    × (length hash ≡ hash_len)

-- The test accepts exactly the texts that are a valid label, a dot and twelve base32 characters.
pub valid_canonical_name_iff : (s : Text) → (valid_canonical_name s ≡ true) ↔ IsCanonical s
unfolding valid_canonical_name
valid_canonical_name_iff s = (parts, whole)
  where
    parts : valid_canonical_name s ≡ true → IsCanonical s
    parts h = (
      (cut dot s).0,
      (cut dot s).1,
      sym (cut_parts dot s (ground arith)),
      ground arith,
      ground arith,
      ground arith,
    )

    whole : IsCanonical s → valid_canonical_name s ≡ true
    whole (base, hash, e, v, a, n) = rw (e, cut_at dot base hash (friendly-lacks base v), v, a, n)

digits-b32 : (ds : List ℕ) → All (λ d. d < 32) ds → all b32_char (map b32_digit ds) ≡ true
digits-b32 [] h = refl
digits-b32 (d ∷ ds) h = ground (arith, digits-b32 ds)

group-b32 : (a b c d e : ℕ) → all b32_char (b32_group a b c d e) ≡ true
unfolding b32_group
group-b32 a b c d e = digits-b32 (quintets a b c d e) (omega arith)

pub encode-b32 : (s : Bytes) → all b32_char (b32_encode s) ≡ true
unfolding b32_encode
encode-b32 [] = refl
encode-b32 (a ∷ []) = all-take b32_char 2 (b32_group a 0 0 0 0) (group-b32 a 0 0 0 0)
encode-b32 (a ∷ b ∷ []) = all-take b32_char 4 (b32_group a b 0 0 0) (group-b32 a b 0 0 0)
encode-b32 (a ∷ b ∷ c ∷ []) = all-take b32_char 5 (b32_group a b c 0 0) (group-b32 a b c 0 0)
encode-b32 (a ∷ b ∷ c ∷ d ∷ []) = all-take b32_char 7 (b32_group a b c d 0) (group-b32 a b c d 0)
encode-b32 (a ∷ b ∷ c ∷ d ∷ e ∷ s) =
    rw (all-append b32_char (b32_group a b c d e) (b32_encode s), group-b32 a b c d e)
      (encode-b32 s)

length-group : (a b c d e : ℕ) → length (b32_group a b c d e) ≡ 8
unfolding b32_group
length-group a b c d e = refl

pub length-b32_encode : (s : Bytes) → length s ≡ 32 → hash_len ≤ length (b32_encode s)
unfolding b32_encode
length-b32_encode (a ∷ b ∷ c ∷ d ∷ e ∷ f ∷ g ∷ h ∷ i ∷ j ∷ s) n = omega (
  arith,
  length-append (b32_group a b c d e) (b32_group f g h i j ++ b32_encode s),
  length-append (b32_group f g h i j) (b32_encode s),
  length-group a b c d e,
  length-group f g h i j,
)
length-b32_encode _ n = absurd (omega arith)

module _ (sha : Sha256) where
  abbrev pub name_hash : Text → PublicKey → Text
  name_hash base key = take hash_len (b32_encode (sha.sum (name_message base key)))

  pub name_hash_shape :
      (base : Text) (key : PublicKey)
      → (all b32_char (name_hash base key) ≡ true) × (length (name_hash base key) ≡ hash_len)
  name_hash_shape base key =
      let m = sha.sum (name_message base key) in
      (
        all-take b32_char hash_len (b32_encode m) (encode-b32 m),
        length-take_le hash_len (b32_encode m) (length-b32_encode m (sha.sum_length _)),
      )

  pub verify_iff :
      (n : Text) (key : PublicKey)
      → (verify_canonical_name sha n key ≡ true)
        ↔ (((cut dot n).2 ≡ true) × (canonical_name sha (cut dot n).0 key ≡ some n))
  unfolding verify_canonical_name
  verify_iff n key = ground arith

  -- Deriving a name from a valid label succeeds, and gives a well-formed canonical name with that
  -- label in front, which the same host key verifies.
  pub canonical_name_lem :
      (base : Text) (key : PublicKey)
      → valid_friendly_name base ≡ true
      → (n : Text) × (canonical_name sha base key ≡ some n)
        × (valid_canonical_name n ≡ true)
        × ((cut dot n).0 ≡ base)
        × (verify_canonical_name sha n key ≡ true)
  unfolding canonical_name
  canonical_name_lem base key v =
      let h = name_hash base key in
      let e = cut_at dot base h (friendly-lacks base v) in
      (
        base ++ dot ∷ h,
        rw v,
        (valid_canonical_name_iff _).1
            (base, h, refl, v, (name_hash_shape base key).0, (name_hash_shape base key).1),
        rw e,
        (verify_iff _ key).1 (rw e, rw (e, v)),
      )
