-- ===== src/Health/Counts.antt =====
-- The counts of `serveHealth` against what the page of cmd/proxy/main.go shows.
use multi_ssh.Base.{
  ℕ, ◌+◌, ◌≤◌, ◌≡◌, refl, Bool, true, false, not, ◌&&◌, List, [], ◌∷◌, Text, ◌==◌, text_eq,
  if◌then◌else◌, length, filter, contains, ltb, ℕ_discrete, Bool-cases, inl, inr, arith,
}
use multi_ssh.Base.Strings.{codes}
use multi_ssh.Registry.{Registry, Target, listing}
use multi_ssh.Sightings.{Sightings, known, stale_since}
use multi_ssh.Distributor.{Distributor, builds, serving}
use multi_ssh.Page.{build_state}
use multi_ssh.Health.{count_outdated, serve_health}

-- A target that the page marks as outdated.
abbrev pub shown_outdated : Distributor → Target → Bool
shown_outdated d t = build_state t.build (builds d) (serving d) == codes "OUTDATED"

marked :
    (current : List Text) (build : Text)
    → (build_state build current true == codes "OUTDATED")
      ≡ (not (build == []) && not (contains current build))
unfolding build_state text_eq ℕ_discrete
marked current build = elim (Bool-cases (build == [])) [
  | inl yes' ↦ rw yes' refl
  | inr no' ↦ elim (Bool-cases (contains current build)) [
    | inl yes'' ↦ rw (no', yes'') refl
    | inr no'' ↦ rw (no', no'') refl
  ]
]

unknown :
    (current : List Text) (build : Text)
    → (build_state build current false == codes "OUTDATED") ≡ false
unfolding build_state text_eq ℕ_discrete
unknown current build = refl

abbrev counted : Distributor → Target → Bool
counted d t = not (t.build == []) && not (contains (builds d) t.build)

count_outdated-from :
    (d : Distributor) (n : ℕ) (ts : List Target)
    → count_outdated (builds d) n ts ≡ n + length (filter (counted d) ts)
unfolding count_outdated
count_outdated-from d n [] = omega arith
count_outdated-from d n (t ∷ ts) = elim (Bool-cases (counted d t)) [
  | inl yes' ↦ rw (yes', count_outdated-from d (n + 1) ts) (omega arith)
  | inr no' ↦ rw (no', count_outdated-from d n ts) refl
]

shown-counted : (d : Distributor) (t : Target) → shown_outdated d t ≡ (serving d && counted d t)
shown-counted d t = elim (Bool-cases (serving d)) [
  | inl yes' ↦ rw yes' (marked (builds d) t.build)
  | inr no' ↦ rw no' (unknown (builds d) t.build)
]

filter_outdated :
    (d : Distributor) (ts : List Target)
    → length (filter (shown_outdated d) ts)
      ≡ (if serving d then length (filter (counted d) ts) else 0)
filter_outdated d [] = elim (Bool-cases (serving d)) [
  | inl yes' ↦ rw yes' refl
  | inr no' ↦ rw no' refl
]
filter_outdated d (t ∷ ts) = ground (arith, shown-counted d t, filter_outdated d ts)

length-filter {ℓ} : {A : Type ℓ} (p : A → Bool) (xs : List A) → length (filter p xs) ≤ length xs
length-filter p [] = omega arith
length-filter p (x ∷ xs) = ground (arith, length-filter p xs)

-- The health reply counts as outdated exactly the targets that the page marks as outdated, and as
-- stale the known targets that were last seen before the cutoff; it counts no more of them than it
-- counts as connected and as known.
pub serve_health_lem :
    (reg : Registry) (seen : Sightings) (revoked : ℕ) (d : Distributor) (cutoff : ℕ)
    → let h = serve_health reg seen revoked d cutoff in
      (h.outdated ≡ length (filter (shown_outdated d) (listing reg)))
      × (h.stale ≡ length (filter (λ k. ltb k.when cutoff) (known seen)))
      × (h.outdated ≤ h.connected)
      × (h.stale ≤ h.known_targets)
unfolding serve_health stale_since
serve_health_lem reg seen revoked d cutoff =
    let same = count_outdated-from d 0 (listing reg) in
    let shown = filter_outdated d (listing reg) in
    let few = length-filter (counted d) (listing reg) in
    (ground arith, refl, ground arith, length-filter (λ k. ltb k.when cutoff) (known seen))
