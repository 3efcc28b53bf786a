-- ===== src/Base/Equality.antt =====
-- Go's `==` on comparable types, by a decision procedure.
use Prim.Native.Nat.{ℕ}
use mathlib.Core.Path.{◌≡◌, refl}
use mathlib.Core.Logic.{ite}
use mathlib.Core.Bool.{Bool, true, false, ◌||◌}
use mathlib.Core.List.{List, [], ◌∷◌}
use native.Mathlib.Decide.{ℕ_discrete}
use native.Mathlib.Omega.{arith}
use multi_ssh.Base.Lists.{All}

pub record Eq {ℓ} (A : Type ℓ) : Type ℓ where
  pub dec : Discrete A

module _ {ℓ} {A : Type ℓ} ⦃e : Eq A⦄ where
  infix 50 ◌==◌
  abbrev pub ◌==◌ : A → A → Bool
  a == b = ite (e.dec a b) true false

  abbrev pub contains : List A → A → Bool
  contains [] a = false
  contains (x ∷ xs) a = a == x || contains xs a

-- A predicate that holds of whatever a list contains holds of its elements.
pub All-contains {ℓ κ} :
    {A : Type ℓ} ⦃e : Eq A⦄ {P : A → Type κ} (xs : List A)
    → ((k : A) → contains xs k ≡ true → P k)
    → All P xs
All-contains [] h = tt
All-contains (x ∷ xs) h = (h x (ground arith), All-contains xs (λ k c. h k (ground arith)))

-- A text is the list of its code points.
abbrev pub Text : Type 0
Text = List ℕ

text_dec : Discrete Text
text_dec = hlevel ℕ_discrete

instance unfoldable pub text_eq : Eq Text
unfolding text_dec
text_eq = record { dec = text_dec }

instance unfoldable pub nat_eq : Eq ℕ
nat_eq = record { dec = ℕ_discrete }

same_text : (let s : Text = 1 ∷ 2 ∷ [] in s == 1 ∷ 2 ∷ []) ≡ true
unfolding text_eq ℕ_discrete
same_text = refl

other_text : (let s : Text = 1 ∷ 2 ∷ [] in s == 1 ∷ []) ≡ false
unfolding text_eq ℕ_discrete
other_text = refl
