-- ===== src/Distributor/Safe.antt =====
-- What of the names of files reaches the installer: cmd/proxy/install.go.
use mathlib.Core.Bool.{false≢true}
use mathlib.Core.Path.{subst}
use multi_ssh.Base.{
  ℕ, ◌≡◌, refl, sym, ap, ◌∙◌, Bool, true, not, ◌&&◌, ◌||◌, List, [], ◌∷◌, ◌++◌, map, Option, none,
  some, Text, ◌==◌, text_eq, Dict, insert, eqb, leb, ◌⊎◌, all, all-append, contains, All,
  All-contains, and_true, Bool-cases, Option-cases, inl, inr, arith,
}
use multi_ssh.Base.Strings.{codes, cut, cut_parts, lacks, lacks_of_all}
use multi_ssh.Base.Scanner.{space}
use multi_ssh.Base.Records.{lacks-append}
use multi_ssh.Addresses.{split}
use multi_ssh.Base.Sort.{sort, text_leb, contains-sort}
use multi_ssh.Names.{label_start}
use multi_ssh.Distributor.{
  dash, is_word, platform_name, Entry, build_names, hash_builds, add_build, scan, new_distributor,
  pair, join, hashes_text,
}
use multi_ssh.Distributor.Scanned.{offered, offered-shaped, contains-build_names}

-- `[a-z0-9-]`, and what `hex.EncodeToString` gives.
abbrev pub name_char : ℕ → Bool
name_char c = (leb b'a' c && leb c b'z') || (leb b'0' c && leb c b'9') || eqb c b'-'

abbrev pub hex_char : ℕ → Bool
hex_char c = (leb b'0' c && leb c b'9') || (leb b'a' c && leb c b'f')

-- A directory that cannot be read has no entry.
abbrev pub entries_of : Option (List Entry) → List Entry
entries_of none = []
entries_of (some es) = es

-- The name of a build in the directory, of these characters only, and the checksum of its file.
abbrev pub IsBuild : List Entry → (Text → Option Text) → Text × Text → Type 0
IsBuild es hash_file (name, sum) =
    (offered es name ≡ true) × (all name_char name ≡ true) × (hash_file name ≡ some sum)

all_implies :
    (p q : ℕ → Bool)
    → ((c : ℕ) → p c ≡ true → q c ≡ true)
    → (s : Text) → all p s ≡ true
    → all q s ≡ true
all_implies p q f [] h = refl
all_implies p q f (c ∷ s) h =
    let (a, b) = and_true (p c) (all p s) h in rw (f c a) (all_implies p q f s b)

all-append-name_char :
    (s t : Text) → all name_char s ≡ true → all name_char t ≡ true → all name_char (s ++ t) ≡ true
all-append-name_char s t h k = all-append name_char s t ∙ rw (h, k) refl

is_word-name_char : (s : Text) → is_word s ≡ true → all name_char s ≡ true
is_word-name_char s h =
    all_implies label_start name_char (λ c p. ground arith) s
      (and_true (not (s == [])) (all label_start s) h).1

platform_name-name_char : (name : Text) → platform_name name ≡ true → all name_char name ≡ true
unfolding platform_name
platform_name-name_char name h =
    let (front, behind) =
      and_true ((cut dash name).2 && is_word (cut dash name).0) (is_word (cut dash name).1) h in
    let (found, before) = and_true (cut dash name).2 (is_word (cut dash name).0) front in
    ap (all name_char) (sym (cut_parts dash name found))
    ∙ all-append-name_char (cut dash name).0 (dash ∷ (cut dash name).1) (is_word-name_char _ before)
        (is_word-name_char _ behind)

module _ (es : List Entry) (hash_file : Text → Option Text) where
  All-insert :
      (name sum : Text) (h : Dict Text Text)
      → IsBuild es hash_file (name, sum)
      → All (IsBuild es hash_file) h
      → All (IsBuild es hash_file) (insert name sum h)
  unfolding insert
  All-insert name sum [] p ps = (p, tt)
  All-insert name sum ((n, s) ∷ h) p (q, ps) = elim (Bool-cases (name == n)) [
    | inl yes' ↦ rw yes' (p, ps)
    | inr no' ↦ rw no' (q, All-insert name sum h p ps)
  ]

  All-add_build :
      (h : Dict Text Text) (c name : Text)
      → offered es name ≡ true
      → All (IsBuild es hash_file) h
      → All (IsBuild es hash_file) (add_build h c name (hash_file name)).0
  All-add_build h c name p ps = elim (Option-cases (hash_file name)) [
    | inl e ↦ rw e ps
    | inr (sum, e) ↦
        rw e
          (All-insert name sum h (p, platform_name-name_char name (offered-shaped es name p), e) ps)
  ]

  All-hash_builds :
      (h : Dict Text Text) (c : Text) (names : List Text)
      → All (λ n. offered es n ≡ true) names
      → All (IsBuild es hash_file) h
      → All (IsBuild es hash_file) (hash_builds hash_file h c names).0
  unfolding hash_builds
  All-hash_builds h c [] ns ps = ps
  All-hash_builds h c (name ∷ names) (n, ns) ps =
      All-hash_builds (add_build h c name (hash_file name)).0
        (add_build h c name (hash_file name)).1 names ns (All-add_build h c name n ps)

All-new_distributor :
    (hash_file : Text → Option Text) (sha256 : Text → Text) (dir : Option (List Entry))
    → All (IsBuild (entries_of dir) hash_file) (new_distributor hash_file sha256 dir).hashes
unfolding new_distributor scan
All-new_distributor hash_file sha256 none = tt
All-new_distributor hash_file sha256 (some es) =
    All-hash_builds es hash_file [] [] (build_names es)
      (All-contains (build_names es) (λ k c. sym (contains-build_names es k) ∙ c)) tt

-- A word of the list: a build and its checksum, with a colon between them.
abbrev pub IsWord : List Entry → (Text → Option Text) → Text → Type 0
IsWord es hash_file w =
    (name sum : Text) × (w ≡ name ++ b':' ∷ sum) × IsBuild es hash_file (name, sum)

All-pairs :
    (es : List Entry) (hash_file : Text → Option Text) (h : Dict Text Text)
    → All (IsBuild es hash_file) h
    → All (IsWord es hash_file) (map pair h)
All-pairs es hash_file [] ps = tt
All-pairs es hash_file ((name, sum) ∷ h) (p, ps) =
    ((name, sum, refl, p), All-pairs es hash_file h ps)

All-member : (P : Text → Type 0) (xs : List Text) (k : Text) → All P xs → contains xs k ≡ true → P k
All-member P [] k ps c = absurd (false≢true c)
All-member P (x ∷ xs) k (p, ps) c = elim (Bool-cases (k == x)) [
  | inl yes' ↦ let at : x ≡ k = ground arith in subst P at p
  | inr no' ↦ All-member P xs k ps (rw no' at c)
]

-- Splitting what was joined

split_end : (s : Text) → lacks space s ≡ true → split space s ≡ s ∷ []
unfolding split
split_end [] h = refl
split_end (c ∷ s) h = ground (arith, split_end s)

split_front : (s t : Text) → lacks space s ≡ true → split space (s ++ space ∷ t) ≡ s ∷ split space t
unfolding split
split_front [] t h = refl
split_front (c ∷ s) t h = ground (arith, split_front s t)

split-join :
    (x : Text) (xs : List Text)
    → All (λ s. lacks space s ≡ true) (x ∷ xs)
    → split space (join (codes " ") (x ∷ xs)) ≡ x ∷ xs
split-join x [] (p, ps) = split_end x p
split-join x (y ∷ xs) (p, ps) =
    split_front x (join (codes " ") (y ∷ xs)) p ∙ ap (λ (l : List Text). x ∷ l) (split-join y xs ps)

IsWord-lacks :
    (es : List Entry) (hash_file : Text → Option Text) (w : Text)
    → ((n sum : Text) → hash_file n ≡ some sum → all hex_char sum ≡ true)
    → IsWord es hash_file w
    → lacks space w ≡ true
IsWord-lacks es hash_file w hex (name, sum, e, (o, shaped, h)) =
    ap (lacks space) e
    ∙ lacks-append space name (b':' ∷ sum) (lacks_of_all name_char space name refl shaped)
        (lacks_of_all hex_char space sum refl (hex name sum h))

-- The text is empty, or its words are as they should be.
abbrev pub IsListing : List Entry → (Text → Option Text) → Text → Type 0
IsListing es hash_file s = (s ≡ []) ⊎ All (IsWord es hash_file) (split space s)

joined :
    (es : List Entry) (hash_file : Text → Option Text) (xs : List Text)
    → ((n sum : Text) → hash_file n ≡ some sum → all hex_char sum ≡ true)
    → All (IsWord es hash_file) xs
    → IsListing es hash_file (join (codes " ") xs)
joined es hash_file [] hex ps = inl refl
joined es hash_file (x ∷ xs) hex ps =
    let words = split-join x xs (
      All-contains (x ∷ xs) (λ k c.
        IsWord-lacks es hash_file k hex (All-member (IsWord es hash_file) (x ∷ xs) k ps c))) in
    inr (subst (λ (l : List Text). All (IsWord es hash_file) l) (sym words) ps)

-- Whatever the directory of builds holds, what a script is given as its checksums is empty, or each
-- of its words is the name of a build in the directory, which has only lower case letters, digits
-- and dashes, then a colon, then the checksum of that file, if checksums are in hexadecimal. So no
-- name of a file brings a quote, or one of the two separators, into an installer.
pub hashes_text-safe :
    (hash_file : Text → Option Text) (sha256 : Text → Text) (dir : Option (List Entry))
    → ((n sum : Text) → hash_file n ≡ some sum → all hex_char sum ≡ true)
    → IsListing (entries_of dir) hash_file (hashes_text (new_distributor hash_file sha256 dir))
unfolding hashes_text
hashes_text-safe hash_file sha256 dir hex =
    let es = entries_of dir in
    let pairs = map pair (new_distributor hash_file sha256 dir).hashes in
    let ps =
      All-pairs es hash_file (new_distributor hash_file sha256 dir).hashes
        (All-new_distributor hash_file sha256 dir) in
    joined es hash_file (sort text_leb pairs) hex (
      All-contains (sort text_leb pairs) (λ k c.
        All-member (IsWord es hash_file) pairs k ps (sym (contains-sort text_leb k pairs) ∙ c)))
