-- ===== src/Page/Targets.antt =====
-- Which targets the page of cmd/proxy/main.go shows as connected and which as missing.
use multi_ssh.Base.{
  ◌≡◌, refl, ◌∙◌, Bool, not, ◌&&◌, List, [], ◌∷◌, map, Text, text_eq, lookup, keys, holds, contains,
  contains-keys, filter, inl, inr, Bool-cases, arith,
}
use multi_ssh.Base.Sort.{sort, insert_sorted, contains-sort, text_leb}
use multi_ssh.Names.{is_canonical_name}
use multi_ssh.Registry.{Registry, Target, listing, canonical_names}
use multi_ssh.Registry.Listing.{canonicals, map-row}
use multi_ssh.Sightings.{Sighting, Sightings, known, sighting, not_after}
use multi_ssh.Page.{missing}

abbrev pub names_of : List Sighting → List Text
names_of = map (λ k. k.name)

contains-missing :
    (list : List Target) (ks : List Sighting) (n : Text)
    → contains (names_of (missing list ks)) n
      ≡ (contains (names_of ks) n && not (contains (canonicals list) n))
unfolding missing
contains-missing list [] n = ground arith
contains-missing list (k ∷ ks) n = ground (arith, contains-missing list ks n)

contains-filter :
    (p : Text → Bool) (n : Text) (xs : List Text)
    → contains (filter p xs) n ≡ (contains xs n && p n)
contains-filter p n [] = refl
contains-filter p n (x ∷ xs) = ground (arith, contains-filter p n xs)

contains-listing :
    (r : Registry) (n : Text)
    → contains (canonicals (listing r)) n ≡ (holds n r && is_canonical_name n)
unfolding listing canonical_names
contains-listing r n =
    rw
      (
        map-row r (sort text_leb (filter is_canonical_name (keys r))),
        contains-sort text_leb n (filter is_canonical_name (keys r)),
        contains-filter is_canonical_name n (keys r),
        contains-keys n r,
      )
      refl

contains-insert_sorted :
    (n : Text) (a : Sighting) (xs : List Sighting)
    → contains (names_of (insert_sorted not_after a xs)) n ≡ contains (names_of (a ∷ xs)) n
unfolding insert_sorted
contains-insert_sorted n a [] = refl
contains-insert_sorted n a (x ∷ xs) = elim (Bool-cases (not_after a x)) [
  | inl h ↦ rw h refl
  | inr h ↦ rw h (ground (arith, contains-insert_sorted n a xs))
]

contains-sort_names :
    (n : Text) (xs : List Sighting)
    → contains (names_of (sort not_after xs)) n ≡ contains (names_of xs) n
unfolding sort
contains-sort_names n [] = refl
contains-sort_names n (x ∷ xs) =
    ground (arith, contains-insert_sorted n x (sort not_after xs), contains-sort_names n xs)

contains-sightings : (n : Text) (s : Sightings) → contains (names_of (map sighting s)) n ≡ holds n s
unfolding holds lookup
contains-sightings n [] = refl
contains-sightings n ((k, t) ∷ s) = ground (arith, contains-sightings n s)

pub contains-known : (n : Text) (s : Sightings) → contains (names_of (known s)) n ≡ holds n s
unfolding known
contains-known n s = contains-sort_names n (map sighting s) ∙ contains-sightings n s

-- A name stands under NOT CONNECTED exactly if it has been seen and is not a canonical name of the
-- registry.
pub shown_missing :
    (r : Registry) (s : Sightings) (n : Text)
    → contains (names_of (missing (listing r) (known s))) n
      ≡ (holds n s && not (holds n r && is_canonical_name n))
shown_missing r s n =
    rw (contains-missing (listing r) (known s) n, contains-known n s, contains-listing r n) refl
