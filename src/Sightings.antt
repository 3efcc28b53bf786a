-- ===== src/Sightings.antt =====
-- cmd/proxy/sightings.go: when each target was last connected. An instant is a number, and `now` is
-- an argument. The file is written after each change and read at the start.
pub mod Order
pub mod File
use multi_ssh.Base.{
  ℕ, ◌+◌, ◌≡◌, refl, Bool, true, false, List, [], ◌∷◌, map, Option, none, some, Text, text_eq, Dict,
  lookup, insert, delete, holds, ltb, leb, if◌then◌else◌, filter, ◌-◌, ◌*◌, ◌/◌, ◌^◌, ℕ_discrete,
}
use multi_ssh.Base.Strings.{codes}
use multi_ssh.Base.Sort.{sort}

pub record Sighting : Type 0 where
  pub name : Text
  pub when : ℕ

abbrev pub Sightings : Type 0
Sightings = Dict Text ℕ

unfoldable pub seen : Sightings → ℕ → Text → Sightings
seen s now name = insert name now s

abbrev pub sighting : Text × ℕ → Sighting
sighting (n, t) = record { name = n; when = t }

abbrev pub not_after : Sighting → Sighting → Bool
not_after a b = leb a.when b.when

-- Every target ever seen, oldest first.
unfoldable pub known : Sightings → List Sighting
known s = sort not_after (map sighting s)

-- Every target whose last sighting predates the cutoff, oldest first.
unfoldable pub stale_since : Sightings → ℕ → List Sighting
stale_since s cutoff = filter (λ k. ltb k.when cutoff) (known s)

-- Whether the target was known.
unfoldable pub forget : Sightings → Text → Sightings × Bool
forget s name = if holds name s then (delete name s, true) else (s, false)

-- How long ago, in the units that `ago` prints; the difference is in nanoseconds.
pub data Ago : Type 0 where
  just_now : Ago
  minutes hours days : ℕ → Ago

abbrev pub minute : ℕ
minute = 60 * 10 ^ 9

-- What `ago` prints of an instant: whole units, rounded down.
unfoldable pub ago : ℕ → ℕ → Ago
ago now t =
    let d = now - t in
    if ltb d minute
    then just_now
    else if ltb d (60 * minute)
    then minutes (d / minute)
    else if ltb d (24 * (60 * minute))
    then hours (d / (60 * minute))
    else days (d / (60 * minute) / 24)
