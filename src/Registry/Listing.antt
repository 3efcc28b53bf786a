-- ===== src/Registry/Listing.antt =====
-- What `listing` and `connections` of cmd/proxy/main.go show of the registry.
use mathlib.Core.List.{Perm}
use multi_ssh.Base.{
  ℕ, ◌≡◌, ◌⊎◌, inl, inr, refl, sym, ap, ◌∙◌, Bool, true, false, List, [], ◌∷◌, map, Option, none,
  some, Text, ◌==◌, text_eq, nat_eq, Dict, lookup, insert, keys, holds, contains, contains-keys,
  lookup-insert, NodupKeys, insert-NodupKeys, if◌then◌else◌, any, filter, All, All-contains,
  All-map, Bool-cases, Option-cases, arith,
}
use multi_ssh.Base.Sort.{
  text_leb, text_leb_total, sort, IsSorted, sort-perm, sort-IsSorted, contains-sort,
}
use multi_ssh.Names.{is_canonical_name}
use multi_ssh.Registry.{
  Registration, Target, Registry, friendly_names, canonical_names, or_empty, row, listing,
  fold_connections, connections,
}

abbrev pub canonicals : List Target → List Text
canonicals = map (λ t. t.canonical)

row-canonical : (f : Dict ℕ Text) (c : Text) (o : Option Registration) → (row f c o).canonical ≡ c
unfolding row
row-canonical f c none = refl
row-canonical f c (some g) = refl

pub map-row :
    (r : Registry) (cs : List Text)
    → canonicals (map (λ c. row (friendly_names [] r) c (lookup c r)) cs) ≡ cs
map-row r [] = refl
map-row r (c ∷ cs) = cc (row-canonical (friendly_names [] r) c (lookup c r), map-row r cs)

-- The rows stand in the order of their canonical names, and these are the canonical names of the
-- registry, each as often as it stands there.
pub listing_names :
    (r : Registry)
    → IsSorted text_leb (canonicals (listing r))
      × Perm (canonicals (listing r)) (filter is_canonical_name (keys r))
unfolding listing canonical_names
listing_names r =
    let names = filter is_canonical_name (keys r) in
    rw (map-row r (sort text_leb names))
      (sort-IsSorted text_leb text_leb_total names, sort-perm text_leb names)

contains-filter :
    (p : Text → Bool) (k : Text) (xs : List Text)
    → contains (filter p xs) k ≡ true
    → contains xs k ≡ true
contains-filter p k [] h = h
contains-filter p k (x ∷ xs) h = ground (arith, contains-filter p k xs)

abbrev Entries : Registry → Registry → Type 0
Entries r = All (λ e. lookup e.0 r ≡ some e.1)

Entries-skip :
    (m r : Registry) (j : Text) (w : Registration)
    → lookup j r ≡ none
    → Entries r m
    → Entries ((j, w) ∷ r) m
unfolding lookup
Entries-skip m r j w fresh h = All-map m (λ e p. ground arith) h

Entries-lookup : (r : Registry) → NodupKeys r → Entries r r
unfolding lookup
Entries-lookup [] u = tt
Entries-lookup ((j, w) ∷ r) u = (ground arith, Entries-skip r r j w u.0 (Entries-lookup r u.1))

-- A friendly name of a connection.
abbrev IsFriendly : Registry → ℕ → Text → Type 0
IsFriendly r conn name =
    (h : Registration) × (lookup name r ≡ some h)
    × (h.conn ≡ conn)
    × (is_canonical_name name ≡ false)

abbrev Sound : Registry → Dict ℕ Text → Type 0
Sound r f = (conn : ℕ) (name : Text) → lookup conn f ≡ some name → IsFriendly r conn name

insert-Sound :
    (r : Registry) (f : Dict ℕ Text) (name : Text) (g : Registration)
    → lookup name r ≡ some g
    → is_canonical_name name ≡ false
    → Sound r f
    → Sound r (insert g.conn name f)
insert-Sound r f name g e n s conn k found = elim (Bool-cases (conn == g.conn)) [
  | inl same ↦
      let at : name ≡ k = ground (arith, lookup-insert conn g.conn name f) in
      (g, ap (λ (t : Text). lookup t r) (sym at) ∙ e, ground arith, rw at at n)
  | inr other ↦ s conn k (ground (arith, lookup-insert conn g.conn name f))
]

friendly_names-Sound :
    (r m : Registry) (f : Dict ℕ Text) → Entries r m → Sound r f → Sound r (friendly_names f m)
unfolding friendly_names
friendly_names-Sound r [] f es s = s
friendly_names-Sound r ((name, g) ∷ m) f es s = elim (Bool-cases (is_canonical_name name)) [
  | inl yes' ↦ rw yes' (friendly_names-Sound r m f es.1 s)
  | inr no' ↦
      rw no'
        (friendly_names-Sound r m (insert g.conn name f) es.1 (insert-Sound r f name g es.0 no' s))
]

-- A row shows what its canonical name is registered with, and as friendly name one that is no
-- canonical name and stands for the same connection, or nothing.
abbrev pub RowOf : Registry → Target → Type 0
RowOf r t =
    (g : Registration) × (lookup t.canonical r ≡ some g)
    × (t.proto ≡ g.proto)
    × (t.fp ≡ g.fp)
    × (t.build ≡ g.build)
    × (t.platform ≡ g.platform)
    × (t.host_fp ≡ g.host_fp)
    × ((t.friendly ≡ []) ⊎ IsFriendly r g.conn t.friendly)

IsFriendly-or_empty :
    (r : Registry) (f : Dict ℕ Text) (conn : ℕ)
    → Sound r f
    → (or_empty (lookup conn f) ≡ []) ⊎ IsFriendly r conn (or_empty (lookup conn f))
IsFriendly-or_empty r f conn s = elim (Option-cases (lookup conn f)) [
  | inl e ↦ inl (rw e)
  | inr (name, e) ↦ inr (rw e (s conn name e))
]

row-RowOf :
    (r : Registry) (f : Dict ℕ Text) (c : Text)
    → Sound r f
    → holds c r ≡ true
    → RowOf r (row f c (lookup c r))
unfolding holds row
row-RowOf r f c s h = elim (Option-cases (lookup c r)) [
  | inl e ↦ ground arith
  | inr (g, e) ↦ rw (e, row) (g, e, refl, refl, refl, refl, refl, IsFriendly-or_empty r f g.conn s)
]

All-rows :
    (r : Registry) (f : Dict ℕ Text) (cs : List Text)
    → Sound r f
    → All (λ c. holds c r ≡ true) cs
    → All (RowOf r) (map (λ c. row f c (lookup c r)) cs)
All-rows r f [] s h = tt
All-rows r f (c ∷ cs) s h = (row-RowOf r f c s h.0, All-rows r f cs s h.1)

-- Each row of the listing is true of the registry, if no name stands twice in it.
pub listing_rows : (r : Registry) → NodupKeys r → All (RowOf r) (listing r)
unfolding listing canonical_names
listing_rows r u = All-rows r (friendly_names [] r) _ sound held
  where
    sound : Sound r (friendly_names [] r)
    sound = friendly_names-Sound r r [] (Entries-lookup r u) (λ conn name e. unfold lookup in cc)

    held : All (λ c. holds c r ≡ true) (sort text_leb (filter is_canonical_name (keys r)))
    held = All-contains _ (λ k c.
        sym (contains-keys k r)
        ∙ contains-filter is_canonical_name k (keys r)
            (sym (contains-sort text_leb k (filter is_canonical_name (keys r))) ∙ c))

fold_connections_lem :
    (fp_of : ℕ → Text) (m : Registry) (out : Dict ℕ Text) (c : ℕ)
    → All (λ e. e.1.fp ≡ fp_of e.1.conn) m
    → lookup c (fold_connections out m)
      ≡ (if any (λ e. c == e.1.conn) m then some (fp_of c) else lookup c out)
unfolding fold_connections
fold_connections_lem fp_of [] out c h = refl
fold_connections_lem fp_of ((name, g) ∷ m) out c (e, h) = ground (
  arith,
  fold_connections_lem fp_of m (insert g.conn g.fp out) c h,
  lookup-insert c g.conn g.fp out,
  ap fp_of,
)

-- A sweep sees each connection once, with its fingerprint, whatever the order of the range: where
-- every entry of a connection carries that connection's fingerprint, `connections` has exactly the
-- connections of the registry, each with its own.
pub lookup-connections :
    (fp_of : ℕ → Text) (r : Registry) (c : ℕ)
    → All (λ e. e.1.fp ≡ fp_of e.1.conn) r
    → lookup c (connections r) ≡ (if any (λ e. c == e.1.conn) r then some (fp_of c) else none)
unfolding connections
lookup-connections fp_of r c h = unfold lookup in fold_connections_lem fp_of r [] c h

fold_connections-NodupKeys :
    (out : Dict ℕ Text) (m : Registry) → NodupKeys out → NodupKeys (fold_connections out m)
unfolding fold_connections
fold_connections-NodupKeys out [] u = u
fold_connections-NodupKeys out ((name, g) ∷ m) u =
    fold_connections-NodupKeys (insert g.conn g.fp out) m (insert-NodupKeys g.conn g.fp out u)

pub connections-NodupKeys : (r : Registry) → NodupKeys (connections r)
unfolding connections
connections-NodupKeys r = fold_connections-NodupKeys [] r tt
