-- ===== src/Examples/Builds.antt =====
-- The builds that the proxy serves, the page and the health reply (cmd/proxy), by example.
use mathlib.Core.Option.{some-injective}
use multi_ssh.Base.{
  ap, sym, ◌≡◌, ◌≤◌, refl, true, false, [], ◌∷◌, List, Option, some, Text, text_eq, ℕ_discrete,
  length, filter, ltb, all, lookup, holds, insert,
}
use multi_ssh.Base.Sort.{sort, text_leb, insert_sorted}
use multi_ssh.Base.Strings.{codes, cut, cut_prefix}
use multi_ssh.Examples.Data.{laptop, laptop_name}
use multi_ssh.Registry.{Registry, listing}
use multi_ssh.Registry.Claims.{entry}
use multi_ssh.Sightings.{Sightings, Sighting, known}
use multi_ssh.Distributor.{
  Entry, Distributor, platform_name, hash_builds, build_names, scan, new_distributor, trim_prefix,
  serve_binary, hashes_text,
}
use multi_ssh.Distributor.Scanned.{offered, serve_binary_lem}
use multi_ssh.Distributor.Safe.{hex_char, IsListing, hashes_text-safe}
use multi_ssh.Health.{serve_health}
use multi_ssh.Health.Counts.{shown_outdated, serve_health_lem}

abbrev found : List Entry
found =
    record { name = codes "linux-amd64"; is_dir = false }
    ∷ record { name = codes "x;reboot"; is_dir = false }
    ∷ []

abbrev hash_file : Text → Option Text
hash_file name = some (codes "0abc")

abbrev sha256 : Text → Text
sha256 t = codes "0123456789abcdef"

hashes_text-safe_example :
    IsListing found hash_file (hashes_text (new_distributor hash_file sha256 (some found)))
hashes_text-safe_example = hashes_text-safe hash_file sha256 (some found) hex
  where
    hex : (n sum : Text) → hash_file n ≡ some sum → all hex_char sum ≡ true
    hex n sum e = ap (all hex_char) (sym (some-injective (codes "0abc") sum e))

abbrev nothing : Distributor
nothing = record { hashes = []; version = [] }

abbrev scanned : Distributor
scanned = scan hash_file sha256 nothing (some found)

asked : serve_binary scanned (codes "/dist/linux-amd64") ≡ some (codes "linux-amd64")
unfolding serve_binary scan hash_builds build_names platform_name cut cut_prefix holds lookup insert
    sort insert_sorted text_leb text_eq ℕ_discrete
asked = refl

serve_binary_lem_example :
    (offered found (codes "linux-amd64") ≡ true)
    × (platform_name (codes "linux-amd64") ≡ true)
    × (codes "linux-amd64" ≡ trim_prefix (codes "/dist/") (codes "/dist/linux-amd64"))
serve_binary_lem_example =
    serve_binary_lem hash_file sha256 nothing found (codes "/dist/linux-amd64")
      (codes "linux-amd64") asked

abbrev reg : Registry
reg =
    (laptop, entry 7 (codes "fp") 1 (codes "0old") [])
    ∷ (laptop_name, entry 7 (codes "fp") 1 (codes "0old") [])
    ∷ []

abbrev seen_before : Sightings
seen_before = (codes "box.aaaaaaaaaaaa", 50) ∷ (laptop_name, 70) ∷ []

serve_health_lem_example :
    let h = serve_health reg seen_before 1 scanned 60 in
    (h.outdated ≡ length (filter (shown_outdated scanned) (listing reg)))
    × (h.stale ≡ length (filter (λ (k : Sighting). ltb k.when 60) (known seen_before)))
    × (h.outdated ≤ h.connected)
    × (h.stale ≤ h.known_targets)
serve_health_lem_example = serve_health_lem reg seen_before 1 scanned 60
