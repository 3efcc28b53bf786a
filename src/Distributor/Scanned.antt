-- ===== src/Distributor/Scanned.antt =====
-- Which builds are served, and what of them reaches the installer: cmd/proxy/install.go.
use mathlib.Core.Bool.{false≢true}
use mathlib.Core.Option.{none-ne-some, some-injective}
use multi_ssh.Base.{
  ◌≡◌, refl, sym, ap, ◌∙◌, Bool, true, false, not, ◌&&◌, ◌||◌, List, [], ◌∷◌, map, Option, none,
  some, Text, ◌==◌, text_eq, Dict, lookup, holds, lookup-insert, if◌then◌else◌, any, filter,
  contains, and_true, Bool-cases, inl, inr, arith,
}
use multi_ssh.Base.Strings.{codes}
use multi_ssh.Base.Sort.{text_leb, contains-sort}
use multi_ssh.Distributor.{
  platform_name, Entry, Distributor, is_build, build_names, hash_builds, add_build, scan,
  trim_prefix, serve_binary,
}

-- A build of that name stands in the directory.
abbrev pub offered : List Entry → Text → Bool
offered es n = any (λ e. is_build e && n == e.name) es

contains-names :
    (es : List Entry) (n : Text)
    → contains (map (λ e. e.name) (filter is_build es)) n ≡ offered es n
contains-names [] n = refl
contains-names (e ∷ es) n = elim (Bool-cases (is_build e)) [
  | inl yes' ↦ rw yes' (ap (λ b. (n == e.name) || b) (contains-names es n))
  | inr no' ↦ rw no' (contains-names es n)
]

pub contains-build_names : (es : List Entry) (n : Text) → contains (build_names es) n ≡ offered es n
unfolding build_names
contains-build_names es n =
    contains-sort text_leb n (map (λ e. e.name) (filter is_build es)) ∙ contains-names es n

module _ (hash_file : Text → Option Text) where
  abbrev or_else : Option Text → Option Text → Option Text
  or_else none old = old
  or_else (some s) old = some s

  lookup-add_build :
      (h : Dict Text Text) (c name n : Text) (o : Option Text)
      → lookup n (add_build h c name o).0
        ≡ (if n == name then or_else o (lookup n h) else lookup n h)
  lookup-add_build h c name n none = ground arith
  lookup-add_build h c name n (some sum) = lookup-insert n name sum h

  lookup-hash_builds :
      (h : Dict Text Text) (c n : Text) (names : List Text)
      → lookup n (hash_builds hash_file h c names).0
        ≡ (if contains names n then or_else (hash_file n) (lookup n h) else lookup n h)
  unfolding hash_builds
  lookup-hash_builds h c n [] = refl
  lookup-hash_builds h c n (name ∷ names) =
      lookup-hash_builds (add_build h c name (hash_file name)).0
        (add_build h c name (hash_file name)).1 n names
      ∙ joined (n == name) (contains names n) (λ same. ap hash_file (text_at same))
          (lookup-add_build h c name n (hash_file name))
    where
      text_at : (n == name) ≡ true → n ≡ name
      text_at same = ground arith

      twice : (o old : Option Text) → or_else o (or_else o old) ≡ or_else o old
      twice none old = refl
      twice (some s) old = refl

      joined :
          (same there : Bool)
          → (same ≡ true → hash_file n ≡ hash_file name)
          → lookup n (add_build h c name (hash_file name)).0
            ≡ (if same then or_else (hash_file name) (lookup n h) else lookup n h)
          → (if there
              then or_else (hash_file n) (lookup n (add_build h c name (hash_file name)).0)
              else lookup n (add_build h c name (hash_file name)).0)
            ≡ (if same || there then or_else (hash_file n) (lookup n h) else lookup n h)
      joined true true at e = rw (e, sym (at refl)) (twice (hash_file n) (lookup n h))
      joined true false at e = e ∙ rw (at refl) refl
      joined false true at e = rw e refl
      joined false false at e = e

  -- After a scan of a directory that can be read, the checksum of a platform is that of the file of
  -- that name, exactly if it is a regular file whose name has the shape of a build and it can be
  -- read.
  pub lookup-scan :
      (sha256 : Text → Text) (d : Distributor) (es : List Entry) (n : Text)
      → lookup n (scan hash_file sha256 d (some es)).hashes
        ≡ (if offered es n then hash_file n else none)
  unfolding scan
  lookup-scan sha256 d es n =
      lookup-hash_builds [] [] n (build_names es)
      ∙ rw (contains-build_names es n) (from_nothing (offered es n) (hash_file n))
    where
      from_nothing :
          (b : Bool) (o : Option Text)
          → (if b then or_else o (lookup n []) else lookup n []) ≡ (if b then o else none)
      from_nothing false o = unfold lookup in refl
      from_nothing true none = unfold lookup in refl
      from_nothing true (some s) = refl

pub offered-shaped : (es : List Entry) (n : Text) → offered es n ≡ true → platform_name n ≡ true
offered-shaped (e ∷ es) n h = elim (Bool-cases (n == e.name)) [
  | inr no' ↦ offered-shaped es n (ground arith)
  | inl yes' ↦ elim (Bool-cases (is_build e)) [
    | inr no' ↦ offered-shaped es n (ground arith)
    | inl yes'' ↦
        let at : n ≡ e.name = ground arith in
        ap platform_name at ∙ (and_true (not e.is_dir) (platform_name e.name) yes'').1
  ]
]
offered-shaped [] n h = absurd (false≢true h)

holds-scan :
    (hash_file : Text → Option Text) (sha256 : Text → Text) (d : Distributor) (es : List Entry)
    (n : Text)
    → holds n (scan hash_file sha256 d (some es)).hashes ≡ true
    → offered es n ≡ true
unfolding holds
holds-scan hash_file sha256 d es n h =
    let it = lookup-scan hash_file sha256 d es n in
    elim (Bool-cases (offered es n)) [ inl yes' ↦ yes' | inr no' ↦ ground arith ]

if_some :
    (b : Bool) (want file : Text)
    → (if b then some want else none) ≡ some file
    → (b ≡ true) × (want ≡ file)
if_some true want file h = (refl, some-injective want file h)
if_some false want file h = absurd (none-ne-some file h)

-- Only a build that the directory offers is handed over, by its own name, whatever path a client
-- sends: a file of another name, a directory and a way out of the directory are refused.
pub serve_binary_lem :
    (hash_file : Text → Option Text) (sha256 : Text → Text) (d : Distributor) (es : List Entry)
    (path file : Text)
    → serve_binary (scan hash_file sha256 d (some es)) path ≡ some file
    → (offered es file ≡ true)
      × (platform_name file ≡ true)
      × (file ≡ trim_prefix (codes "/dist/") path)
unfolding serve_binary
serve_binary_lem hash_file sha256 d es path file h =
    let want = trim_prefix (codes "/dist/") path in
    let (held, same) =
      if_some (holds want (scan hash_file sha256 d (some es)).hashes) want file h in
    let there = ap (offered es) (sym same) ∙ holds-scan hash_file sha256 d es want held in
    (there, offered-shaped es file there, sym same)
