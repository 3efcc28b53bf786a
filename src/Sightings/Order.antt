-- ===== src/Sightings/Order.antt =====
-- The record of sightings (cmd/proxy/sightings.go): what is stale, and in which order.
use mathlib.Core.List.{Perm}
use multi_ssh.Base.{
  ℕ, suc, ◌-◌, ◌*◌, ◌≤◌, ◌<◌, ◌≡◌, map, none, some, Text, ◌==◌, text_eq, lookup, holds,
  lookup-insert, lookup-delete, ltb, if◌then◌else◌, filter, arith,
}
use multi_ssh.Base.Sort.{IsSorted, sort-IsSorted, filter_sort-perm, filter-IsSorted}
use multi_ssh.Sightings.{
  Sighting, Sightings, seen, sighting, not_after, known, stale_since, forget, Ago, just_now,
  minutes, hours, days, minute, ago,
}

-- The stale targets are exactly those of the record whose last sighting lies before the cutoff,
-- each as often as it stands there, oldest first.
pub stale_since_lem :
    (s : Sightings) (cutoff : ℕ)
    → IsSorted not_after (stale_since s cutoff)
      × Perm (stale_since s cutoff) (filter (λ k. ltb k.when cutoff) (map sighting s))
unfolding stale_since known
stale_since_lem s cutoff =
    let old = λ (k : Sighting). ltb k.when cutoff in
    (
      filter-IsSorted not_after old (λ a b c h k. ground arith) _
          (sort-IsSorted not_after (λ a b h. ground arith) (map sighting s)),
      filter_sort-perm not_after old (map sighting s),
    )

-- After a target is seen, its last sighting is now and no other changes; after it is forgotten, it
-- is unknown and no other changes, and the answer says whether it was known.
pub seen_forget :
    (s : Sightings) (now : ℕ) (name k : Text)
    → (lookup k (seen s now name) ≡ (if k == name then some now else lookup k s))
      × (lookup k (forget s name).0 ≡ (if k == name then none else lookup k s))
      × ((forget s name).1 ≡ holds name s)
unfolding seen forget holds
seen_forget s now name k =
    (lookup-insert k name now s, ground (arith, lookup-delete k name s), ground arith)

-- The number with its unit is the time that has passed, rounded down to the unit, and is in range:
-- 1 to 59 minutes, 1 to 23 hours, or 1 day and more; below a minute nothing is counted.
abbrev pub Reads : ℕ → Ago → Type 0
Reads d just_now = d < minute
Reads d (minutes m) = (1 ≤ m) × (m < 60) × (m * minute ≤ d) × (d < suc m * minute)
Reads d (hours h) = (1 ≤ h) × (h < 24) × (h * (60 * minute) ≤ d) × (d < suc h * (60 * minute))
Reads d (days n) = (1 ≤ n) × (n * (24 * (60 * minute)) ≤ d) × (d < suc n * (24 * (60 * minute)))

-- `ago` gives the time since an instant in the largest unit that fits, rounded down.
pub ago-Reads : (now t : ℕ) → Reads (now - t) (ago now t)
unfolding ago
ago-Reads now t = ground arith
