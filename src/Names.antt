-- ===== src/Names.antt =====
-- internal/sshx/naming.go: friendly and canonical names. A key is its wire encoding, the bytes of
-- `Marshal()`. SHA-256 is a parameter; base32 is written out.
pub mod Shape
pub mod Commit
use multi_ssh.Base.{
  ℕ, ◌+◌, ◌-◌, ◌*◌, ◌/◌, ◌%◌, ◌^◌, ◌≡◌, refl, Bool, true, false, ◌&&◌, ◌||◌, List, [], ◌∷◌, ◌++◌,
  map, Option, none, some, Text, ◌==◌, text_eq, ltb, leb, eqb, if◌then◌else◌, length, take, all,
  ℕ_discrete,
}
use multi_ssh.Base.Strings.{codes, cut}

abbrev pub Bytes : Type 0
Bytes = List ℕ

abbrev pub PublicKey : Type 0
PublicKey = Bytes

abbrev pub dot : ℕ
dot = b'.'

-- How many characters of the hash a name carries.
abbrev pub hash_len : ℕ
hash_len = 12

-- `[a-z0-9]`
abbrev pub label_start : ℕ → Bool
label_start c = (leb b'a' c && leb c b'z') || (leb b'0' c && leb c b'9')

-- `[a-z0-9-]`
abbrev pub label_char : ℕ → Bool
label_char c = label_start c || eqb c b'-'

-- `[a-z2-7]`
abbrev pub b32_char : ℕ → Bool
b32_char c = (leb b'a' c && leb c b'z') || (leb b'2' c && leb c b'7')

-- `^[a-z0-9][a-z0-9-]{0,62}$`
unfoldable pub valid_friendly_name : Text → Bool
valid_friendly_name [] = false
valid_friendly_name (c ∷ s) = label_start c && all label_char s && leb (length s) 62

-- `strings.Contains(s, ".")`
unfoldable pub is_canonical_name : Text → Bool
is_canonical_name s = (cut dot s).2

-- `^[a-z0-9][a-z0-9-]{0,62}\.[a-z2-7]{12}$`: no character before the dot is a dot.
unfoldable pub valid_canonical_name : Text → Bool
valid_canonical_name s =
    (cut dot s).2
    && valid_friendly_name (cut dot s).0
    && all b32_char (cut dot s).1
    && eqb (length (cut dot s).1) hash_len

abbrev b32_digit : ℕ → ℕ
b32_digit d = if ltb d 26 then b'a' + d else b'2' + (d - 26)

-- Five bytes as eight groups of five bits.
quintets : ℕ → ℕ → ℕ → ℕ → ℕ → List ℕ
quintets a b c d e =
    let n = a * 2 ^ 32 + b * 2 ^ 24 + c * 2 ^ 16 + d * 2 ^ 8 + e in
    (n / 2 ^ 35 % 32)
    ∷ (n / 2 ^ 30 % 32)
    ∷ (n / 2 ^ 25 % 32)
    ∷ (n / 2 ^ 20 % 32)
    ∷ (n / 2 ^ 15 % 32)
    ∷ (n / 2 ^ 10 % 32)
    ∷ (n / 2 ^ 5 % 32)
    ∷ (n % 32)
    ∷ []

b32_group : ℕ → ℕ → ℕ → ℕ → ℕ → Text
unfolding quintets
b32_group a b c d e = map b32_digit (quintets a b c d e)

-- base32 in lowercase with no padding
unfoldable pub b32_encode : Bytes → Text
unfolding b32_group
b32_encode [] = []
b32_encode (a ∷ []) = take 2 (b32_group a 0 0 0 0)
b32_encode (a ∷ b ∷ []) = take 4 (b32_group a b 0 0 0)
b32_encode (a ∷ b ∷ c ∷ []) = take 5 (b32_group a b c 0 0)
b32_encode (a ∷ b ∷ c ∷ d ∷ []) = take 7 (b32_group a b c d 0)
b32_encode (a ∷ b ∷ c ∷ d ∷ e ∷ s) = b32_group a b c d e ++ b32_encode s

abbrev pub name_domain : Bytes
name_domain = codes "multissh-canonical-name-v1"

-- What is written to the hash.
unfoldable pub name_message : Text → PublicKey → Bytes
name_message base host_key = name_domain ++ 0 ∷ (base ++ 0 ∷ host_key)

-- SHA-256: the digest of a message has 32 bytes.
pub record Sha256 : Type 0 where
  pub sum : Bytes → Bytes
  pub sum_length : (m : Bytes) → length (sum m) ≡ 32

-- `none` is the error about the label.
unfoldable pub canonical_name : Sha256 → Text → PublicKey → Option Text
canonical_name sha base host_key =
    if valid_friendly_name base
    then some (base ++ dot ∷ take hash_len (b32_encode (sha.sum (name_message base host_key))))
    else none

same_name : Option Text → Text → Bool
same_name none name = false
same_name (some want) name = want == name

unfoldable pub verify_canonical_name : Sha256 → Text → PublicKey → Bool
unfolding same_name
verify_canonical_name sha name host_key =
    let want = canonical_name sha (cut dot name).0 host_key in
    if (cut dot name).2 then same_name want name else false

-- The test vectors of RFC 4648, in lowercase.
encodes_fooba : b32_encode (codes "fooba") ≡ codes "mzxw6ytb"
unfolding b32_encode
encodes_fooba = refl

encodes_foobar : b32_encode (codes "foobar") ≡ codes "mzxw6ytboi"
unfolding b32_encode
encodes_foobar = refl

encodes_f : b32_encode (codes "f") ≡ codes "my"
unfolding b32_encode
encodes_f = refl

friendly_shapes :
    (valid_friendly_name (codes "laptop-2") ≡ true)
    × (valid_friendly_name (codes "-laptop") ≡ false)
    × (valid_friendly_name (codes "Laptop") ≡ false)
    × (valid_friendly_name (codes "a.b") ≡ false)
unfolding valid_friendly_name
friendly_shapes = (refl, refl, refl, refl)

canonical_shapes :
    (valid_canonical_name (codes "laptop.abcdefgh2345") ≡ true)
    × (valid_canonical_name (codes "laptop.abcdefgh234") ≡ false)
    × (valid_canonical_name (codes "laptop.abcdefgh2345.") ≡ false)
unfolding valid_canonical_name valid_friendly_name cut
canonical_shapes = (refl, refl, refl)
