-- ===== src/Base/Maps.antt =====
-- Go maps as association lists, in one of the orders in which a map may be ranged over.
use mathlib.Core.Path.{◌≡◌, refl}
use mathlib.Core.Bool.{Bool, true, false}
use mathlib.Core.Option.{Option, none, some}
use mathlib.Core.List.{List, [], ◌∷◌}
use native.Mathlib.Omega.{arith}
use Prim.Native.Nat.{suc}
use multi_ssh.Base.Lists.{length}
use multi_ssh.Base.Tests.{if◌then◌else◌}
use multi_ssh.Base.Equality.{Eq, ◌==◌, contains}

abbrev pub Dict {ℓ κ} : Type ℓ → Type κ → Type (ℓ ⊔ κ)
Dict K V = List (K × V)

module _ {ℓ κ} {K : Type ℓ} {V : Type κ} ⦃e : Eq K⦄ where
  unfoldable pub lookup : K → Dict K V → Option V
  lookup k [] = none
  lookup k ((j, w) ∷ m) = if k == j then some w else lookup k m

  -- `m[k] = v`
  unfoldable pub insert : K → V → Dict K V → Dict K V
  insert k v [] = (k, v) ∷ []
  insert k v ((j, w) ∷ m) = if k == j then (k, v) ∷ m else (j, w) ∷ insert k v m

  -- `delete(m, k)`
  unfoldable pub delete : K → Dict K V → Dict K V
  delete k [] = []
  delete k ((j, w) ∷ m) = let rest = delete k m in if k == j then rest else (j, w) ∷ rest

  -- `_, held := m[k]`
  unfoldable pub holds : K → Dict K V → Bool
  holds k m = elim (lookup k m) [ some v ↦ true | none ↦ false ]

  -- No key stands twice: what a map is.
  abbrev pub NodupKeys : Dict K V → Type κ
  NodupKeys [] = Unit
  NodupKeys ((k, _) ∷ m) = (lookup k m ≡ none) × NodupKeys m

  pub lookup-insert :
      (j k : K) (v : V) (m : Dict K V)
      → lookup j (insert k v m) ≡ (if j == k then some v else lookup j m)
  unfolding lookup insert
  lookup-insert j k v [] = refl
  lookup-insert j k v (_ ∷ m) = ground (arith, lookup-insert j k v m)

  pub lookup-delete :
      (j k : K) (m : Dict K V) → lookup j (delete k m) ≡ (if j == k then none else lookup j m)
  unfolding delete lookup
  lookup-delete j k [] = ground arith
  lookup-delete j k (_ ∷ m) = ground (arith, lookup-delete j k m)

  pub insert-NodupKeys : (k : K) (v : V) (m : Dict K V) → NodupKeys m → NodupKeys (insert k v m)
  unfolding insert lookup
  insert-NodupKeys k v [] h = (refl, tt)
  insert-NodupKeys k v ((j, _) ∷ m) (fresh, u) =
      ground (arith, insert-NodupKeys k v m u, lookup-insert j k v m)

  pub delete-NodupKeys : (k : K) (m : Dict K V) → NodupKeys m → NodupKeys (delete k m)
  unfolding delete
  delete-NodupKeys k [] h = tt
  delete-NodupKeys k ((j, _) ∷ m) (fresh, u) =
      ground (arith, delete-NodupKeys k m u, lookup-delete j k m)

abbrev pub map_option {ℓ} : {V : Type ℓ} → (V → V) → Option V → Option V
map_option f none = none
map_option f (some v) = some (f v)

module _ {ℓ κ} {K : Type ℓ} {V : Type κ} where
  -- The keys, in the order of the range.
  unfoldable pub keys : Dict K V → List K
  keys [] = []
  keys ((k, _) ∷ m) = k ∷ keys m

  unfoldable pub map_values : (V → V) → Dict K V → Dict K V
  map_values f [] = []
  map_values f ((k, v) ∷ m) = (k, f v) ∷ map_values f m

module _ {ℓ κ} {K : Type ℓ} {V : Type κ} ⦃e : Eq K⦄ where
  pub contains-keys : (k : K) (m : Dict K V) → contains (keys m) k ≡ holds k m
  unfolding keys holds lookup
  contains-keys k [] = refl
  contains-keys k ((j, v) ∷ m) = ground (arith, contains-keys k m)

  pub lookup-map_values :
      (f : V → V) (k : K) (m : Dict K V) → lookup k (map_values f m) ≡ map_option f (lookup k m)
  unfolding map_values lookup
  lookup-map_values f k [] = refl
  lookup-map_values f k ((j, v) ∷ m) = ground (arith, lookup-map_values f k m)

  pub map_values-NodupKeys : (f : V → V) (m : Dict K V) → NodupKeys m → NodupKeys (map_values f m)
  unfolding map_values
  map_values-NodupKeys f [] h = tt
  map_values-NodupKeys f ((k, v) ∷ m) (fresh, u) =
      ground (arith, map_values-NodupKeys f m u, lookup-map_values f k m)

module _ {ℓ κ} {K : Type ℓ} {V : Type κ} ⦃e : Eq K⦄ where
  delete_missing : (k : K) (m : Dict K V) → lookup k m ≡ none → delete k m ≡ m
  unfolding delete lookup
  delete_missing k [] h = refl
  delete_missing k ((j, v) ∷ m) h = ground (arith, delete_missing k m)

  -- A map loses one entry by the deletion of a key that it holds.
  pub length-delete :
      (k : K) (m : Dict K V) → NodupKeys m → holds k m ≡ true → suc (length (delete k m)) ≡ length m
  unfolding delete holds lookup
  length-delete k [] u h = absurd (ground arith)
  length-delete k ((j, v) ∷ m) (fresh, u) h =
      ground (arith, length-delete k m u, delete_missing k m, delete_missing j m fresh)

  pub length-insert :
      (k : K) (v : V) (m : Dict K V) → holds k m ≡ false → length (insert k v m) ≡ suc (length m)
  unfolding insert holds lookup
  length-insert k v [] h = refl
  length-insert k v ((j, w) ∷ m) h = ground (arith, length-insert k v m)
