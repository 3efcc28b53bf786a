-- ===== src/Base/Sort.antt =====
-- Sorting by a Boolean order, as `sort.Strings` and `sort.Slice` do; equal elements keep no
-- particular order there, and keep their order here.
use Prim.Native.Nat.{compare, Ordering}
use mathlib.Core.Path.{◌≡◌, refl, sym, ◌∙◌}
use mathlib.Core.Bool.{Bool, true, false}
use mathlib.Core.List.{List, [], ◌∷◌, Perm}
use mathlib.Core.List.Perm
use native.Mathlib.Omega.{arith}
use multi_ssh.Base.Tests.{if◌then◌else◌, Bool-cases}
use mathlib.Core.Logic.{inl, inr}
use multi_ssh.Base.Lists.{All, All-map, filter}
use multi_ssh.Base.Equality.{Text, text_eq, Eq, contains, All-contains}
use multi_ssh.Base.Maps.{Dict, keys, holds, contains-keys}

-- The order of `sort.Strings`: by bytes, which for valid UTF-8 is by code points.
unfoldable pub text_leb : Text → Text → Bool
text_leb [] t = true
text_leb (c ∷ s) [] = false
text_leb (c ∷ s) (d ∷ t) =
    let rest = text_leb s t in
    elim (compare c d) [ Ordering.lt ↦ true | Ordering.eq ↦ rest | Ordering.gt ↦ false ]

pub text_leb_total : (s t : Text) → text_leb s t ≡ false → text_leb t s ≡ true
unfolding text_leb
text_leb_total [] t h = ground arith
text_leb_total (c ∷ s) [] h = refl
text_leb_total (c ∷ s) (d ∷ t) h = ground (arith, text_leb_total s t)

module _ {ℓ} {A : Type ℓ} (le : A → A → Bool) where
  unfoldable pub insert_sorted : A → List A → List A
  insert_sorted a [] = a ∷ []
  insert_sorted a (x ∷ xs) = if le a x then a ∷ x ∷ xs else x ∷ insert_sorted a xs

  unfoldable pub sort : List A → List A
  unfolding insert_sorted
  sort [] = []
  sort (x ∷ xs) = insert_sorted x (sort xs)

  -- Each element comes before all that follow it.
  abbrev pub IsSorted : List A → Type 0
  IsSorted [] = Unit
  IsSorted (x ∷ []) = Unit
  IsSorted (x ∷ y ∷ xs) = (le x y ≡ true) × IsSorted (y ∷ xs)

  insert_sorted-perm : (a : A) (xs : List A) → Perm (insert_sorted a xs) (a ∷ xs)
  unfolding insert_sorted
  insert_sorted-perm a [] = Perm.refl (a ∷ [])
  insert_sorted-perm a (x ∷ xs) = elim (Bool-cases (le a x)) [
    | inl h ↦ rw h (Perm.refl (a ∷ x ∷ xs))
    | inr h ↦ rw h (Perm.trans (Perm.cons x (insert_sorted-perm a xs)) (Perm.swap a x xs))
  ]

  -- Sorting loses nothing and makes nothing up.
  pub sort-perm : (xs : List A) → Perm (sort xs) xs
  unfolding sort
  sort-perm [] = Perm.refl []
  sort-perm (x ∷ xs) = Perm.trans (insert_sorted-perm x (sort xs)) (Perm.cons x (sort-perm xs))

  insert_sorted-IsSorted :
      ((a b : A) → le a b ≡ false → le b a ≡ true)
      → (a : A) (xs : List A) → IsSorted xs
      → IsSorted (insert_sorted a xs)
  unfolding insert_sorted
  insert_sorted-IsSorted total a [] h = tt
  insert_sorted-IsSorted total a (x ∷ []) h = ground (arith, total a x)
  insert_sorted-IsSorted total a (x ∷ y ∷ xs) h =
      ground (arith, total a x, insert_sorted-IsSorted total a (y ∷ xs) h.1)

  pub sort-IsSorted :
      ((a b : A) → le a b ≡ false → le b a ≡ true) → (xs : List A) → IsSorted (sort xs)
  unfolding sort
  sort-IsSorted total [] = tt
  sort-IsSorted total (x ∷ xs) = insert_sorted-IsSorted total x (sort xs) (sort-IsSorted total xs)

module _ {ℓ} {A : Type ℓ} ⦃e : Eq A⦄ (le : A → A → Bool) where
  contains-insert_sorted :
      (k a : A) (xs : List A) → contains (insert_sorted le a xs) k ≡ contains (a ∷ xs) k
  unfolding insert_sorted
  contains-insert_sorted k a [] = refl
  contains-insert_sorted k a (x ∷ xs) = ground (arith, contains-insert_sorted k a xs)

  pub contains-sort : (k : A) (xs : List A) → contains (sort le xs) k ≡ contains xs k
  unfolding sort
  contains-sort k [] = refl
  contains-sort k (x ∷ xs) =
      ground (arith, contains-insert_sorted k x (sort le xs), contains-sort k xs)

-- The sorted keys of a map are keys of it.
pub sorted_keys_held {ℓ} :
    {V : Type ℓ} (m : Dict Text V) → All (λ n. holds n m ≡ true) (sort text_leb (keys m))
sorted_keys_held m =
    All-contains (sort text_leb (keys m))
      (λ k c. sym (contains-keys k m) ∙ sym (contains-sort text_leb k (keys m)) ∙ c)

module _ {ℓ} {A : Type ℓ} (le : A → A → Bool) (p : A → Bool) where
  filter_insert_sorted-perm :
      (a : A) (xs : List A) → Perm (filter p (insert_sorted le a xs)) (filter p (a ∷ xs))
  unfolding insert_sorted
  filter_insert_sorted-perm a [] = Perm.refl _
  filter_insert_sorted-perm a (x ∷ xs) = elim (Bool-cases (le a x)) [
    | inl h ↦ rw h (Perm.refl _)
    | inr h ↦ rw h (swapped (filter_insert_sorted-perm a xs))
  ]
    where
      swapped :
          Perm (filter p (insert_sorted le a xs)) (filter p (a ∷ xs))
          → Perm (filter p (x ∷ insert_sorted le a xs)) (filter p (a ∷ x ∷ xs))
      swapped ih = elim (Bool-cases (p a)) [
        | inl pa ↦ elim (Bool-cases (p x)) [
          | inl px ↦ rw (pa, px) (Perm.trans (Perm.cons x (rw pa at ih)) (Perm.swap a x _))
          | inr px ↦ rw (pa, px) (rw pa at ih)
        ]
        | inr pa ↦ elim (Bool-cases (p x)) [
          | inl px ↦ rw (pa, px) (Perm.cons x (rw pa at ih))
          | inr px ↦ rw (pa, px) (rw pa at ih)
        ]
      ]

  perm_filter_cons :
      (x : A) (xs ys : List A)
      → Perm (filter p xs) (filter p ys)
      → Perm (filter p (x ∷ xs)) (filter p (x ∷ ys))
  perm_filter_cons x xs ys h = elim (Bool-cases (p x)) [
    | inl px ↦ rw px (Perm.cons x h)
    | inr px ↦ rw px h
  ]

  pub filter_sort-perm : (xs : List A) → Perm (filter p (sort le xs)) (filter p xs)
  unfolding sort
  filter_sort-perm [] = Perm.refl []
  filter_sort-perm (x ∷ xs) =
      Perm.trans (filter_insert_sorted-perm x (sort le xs))
        (perm_filter_cons x (sort le xs) xs (filter_sort-perm xs))

  -- Below all that follow, and these sorted: what a filter keeps.
  sorted_head :
      ((a b c : A) → le a b ≡ true → le b c ≡ true → le a c ≡ true)
      → (x : A) (xs : List A) → IsSorted le (x ∷ xs)
      → All (λ y. le x y ≡ true) xs
  sorted_head trans x [] s = tt
  sorted_head trans x (y ∷ xs) s =
      (s.0, All-map xs (λ z h. trans x y z s.0 h) (sorted_head trans y xs s.1))

  IsSorted-tail : (x : A) (xs : List A) → IsSorted le (x ∷ xs) → IsSorted le xs
  IsSorted-tail x [] s = tt
  IsSorted-tail x (y ∷ xs) s = s.1

  filter_below :
      (x : A) (xs : List A)
      → All (λ y. le x y ≡ true) xs
      → IsSorted le (filter p xs)
      → IsSorted le (x ∷ filter p xs)
  filter_below x [] h s = tt
  filter_below x (y ∷ xs) h s = elim (Bool-cases (p y)) [
    | inl py ↦ rw py (h.0, rw py at s)
    | inr py ↦ rw py (filter_below x xs h.1 (rw py at s))
  ]

  pub filter-IsSorted :
      ((a b c : A) → le a b ≡ true → le b c ≡ true → le a c ≡ true)
      → (xs : List A) → IsSorted le xs
      → IsSorted le (filter p xs)
  filter-IsSorted trans [] s = tt
  filter-IsSorted trans (x ∷ xs) s =
      let rest = filter-IsSorted trans xs (IsSorted-tail x xs s) in
      elim (Bool-cases (p x)) [
        | inl px ↦ rw px (filter_below x xs (sorted_head trans x xs s) rest)
        | inr px ↦ rw px rest
      ]
