-- ===== src/Distributor.antt =====
-- cmd/proxy/install.go: the agent binaries that the proxy serves, and the installer scripts. What a
-- directory and the files in it hold and SHA-256 are arguments; a checksum is in hexadecimal.
pub mod Scanned
pub mod Safe
pub mod Current
use multi_ssh.Base.{
  ℕ, zero, suc, ◌-◌, ◌≡◌, refl, Bool, true, false, not, ◌&&◌, List, [], ◌∷◌, ◌++◌, map, Option,
  none, some, Text, ◌==◌, text_eq, Dict, lookup, insert, holds, ltb, eqb, if◌then◌else◌, length,
  take, all, filter, contains, ℕ_discrete,
}
use multi_ssh.Base.Strings.{codes, cut, cut_prefix, byte_len, trim_space}
use multi_ssh.Base.Sort.{sort, text_leb}
use multi_ssh.Names.{label_start}

abbrev pub dash : ℕ
dash = b'-'

-- `[a-z0-9]+`
abbrev pub is_word : Text → Bool
is_word s = not (s == []) && all label_start s

-- `^[a-z0-9]+-[a-z0-9]+$`: no character before the dash is a dash.
unfoldable pub platform_name : Text → Bool
unfolding cut
platform_name s = (cut dash s).2 && is_word (cut dash s).0 && is_word (cut dash s).1

pub record Entry : Type 0 where
  pub name : Text
  pub is_dir : Bool

pub record Distributor : Type 0 where
  -- by platform
  pub hashes : Dict Text Text
  pub version : Text

abbrev pub is_build : Entry → Bool
is_build e = not e.is_dir && platform_name e.name

-- The names of the builds, sorted.
unfoldable pub build_names : List Entry → List Text
unfolding platform_name sort
build_names es = sort text_leb (map (λ e. e.name) (filter is_build es))

abbrev pub build_line : Text → Text → Text
build_line name sum = name ++ (codes ":" ++ (sum ++ codes "\n"))

-- One file of the loop of `scan`: a file that cannot be read is passed over.
abbrev pub add_build : Dict Text Text → Text → Text → Option Text → Dict Text Text × Text
add_build h combined name none = (h, combined)
add_build h combined name (some sum) = (insert name sum h, combined ++ build_line name sum)

unfoldable pub hash_builds :
    (Text → Option Text) → Dict Text Text → Text → List Text → Dict Text Text × Text
hash_builds hash_file h combined [] = (h, combined)
hash_builds hash_file h combined (name ∷ names) =
    let (h', combined') = add_build h combined name (hash_file name) in
    hash_builds hash_file h' combined' names

abbrev pub versioned : (Text → Text) → Dict Text Text × Text → Distributor
versioned sha256 (h, combined) = record {
  hashes = h;
  version = if eqb (length h) 0 then codes "none" else take 12 (sha256 combined);
}

-- A directory that cannot be read leaves the distributor as it is.
unfoldable pub scan :
    (Text → Option Text) → (Text → Text) → Distributor → Option (List Entry) → Distributor
unfolding hash_builds build_names
scan hash_file sha256 d none = d
scan hash_file sha256 d (some es) = versioned sha256 (hash_builds hash_file [] [] (build_names es))

unfoldable pub new_distributor :
    (Text → Option Text) → (Text → Text) → Option (List Entry) → Distributor
unfolding scan
new_distributor hash_file sha256 dir =
    scan hash_file sha256 (record { hashes = []; version = [] }) dir

-- internal/sshx/protocol.go: `BuildIDOf`.
unfoldable pub build_id_of : Text → Text
build_id_of sum = if ltb (byte_len sum) 12 then sum else take 12 sum

abbrev pub sums : Dict Text Text → List Text
sums [] = []
sums ((name, sum) ∷ h) = sum ∷ sums h

unfoldable pub builds : Distributor → List Text
unfolding build_id_of
builds d = map build_id_of (sums d.hashes)

unfoldable pub serving : Distributor → Bool
serving d = ltb 0 (length d.hashes)

-- `strings.TrimPrefix`
abbrev pub trim_prefix : Text → Text → Text
trim_prefix p s = rest_of (cut_prefix p s)
  where
    rest_of : Option Text → Text
    rest_of none = s
    rest_of (some rest) = rest

-- The file in the directory that is handed over; none is a 404.
unfoldable pub serve_binary : Distributor → Text → Option Text
unfolding cut_prefix
serve_binary d path =
    let want = trim_prefix (codes "/dist/") path in if holds want d.hashes then some want else none

abbrev pub pair : Text × Text → Text
pair (platform, sum) = platform ++ (codes ":" ++ sum)

abbrev pub join : Text → List Text → Text
join sep [] = []
join sep (x ∷ []) = x
join sep (x ∷ y ∷ xs) = x ++ (sep ++ join sep (y ∷ xs))

-- What stands for `__HASHES__` in a script.
unfoldable pub hashes_text : Distributor → Text
unfolding sort
hashes_text d = join (codes " ") (sort text_leb (map pair d.hashes))

-- The first of the names that the text starts with, in the order of the arguments.
unfoldable pub matching : Dict Text Text → Text → Option (Text × Text)
unfolding cut_prefix
matching [] s = none
matching ((old, new) ∷ subs) s = first (cut_prefix old s) (matching subs s)
  where
    first : Option Text → Option (Text × Text) → Option (Text × Text)
    first none rest = rest
    first (some behind) rest = some (old, new)

-- `strings.NewReplacer(...).Replace`, with as many characters to leave out first as `skip` says.
unfoldable pub replace : Dict Text Text → ℕ → Text → Text
unfolding matching
replace subs skip [] = []
replace subs (suc skip) (c ∷ s) = replace subs skip s
replace subs zero (c ∷ s) = let m = matching subs (c ∷ s) in put m ++ replace subs (covered m) s
  where
    put : Option (Text × Text) → Text
    put none = c ∷ []
    put (some (old, new)) = new

    covered : Option (Text × Text) → ℕ
    covered none = 0
    covered (some (old, new)) = length old - 1

-- `ca` is the certificate authority's key as an authorized_keys line.
unfoldable pub render_script : Text → Distributor → Text → Text → List Text → Text
unfolding replace hashes_text trim_space
render_script tmpl d ca base_url proxies =
    replace
      ((codes "__BASE_URL__", base_url)
        ∷ (codes "__PROXIES__", join (codes ",") proxies)
        ∷ (codes "__CA__", trim_space ca)
        ∷ (codes "__VERSION__", d.version)
        ∷ (codes "__HASHES__", hashes_text d)
        ∷ [])
      0 tmpl
