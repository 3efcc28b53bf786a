-- ===== src/Base/Decimal.antt =====
-- `strconv.Itoa` of a number that is not negative, and `strconv.Atoi` with a 64-bit int.
use Prim.Native.Nat.{ℕ, zero, suc, ◌+◌, ◌-◌, ◌*◌, ◌/◌, ◌%◌, ◌^◌, ◌<◌}
use mathlib.Core.Path.{◌≡◌, refl}
use mathlib.Core.Bool.{Bool, true, ◌&&◌}
use mathlib.Core.List.{[], ◌∷◌, ◌++◌}
use mathlib.Core.Option.{Option, none, some}
use mathlib.Core.Logic.{inl, inr}
use native.Mathlib.Omega.{arith}
use multi_ssh.Base.Tests.{ltb, leb, eqb, if◌then◌else◌, Bool-cases}
use multi_ssh.Base.Lists.{all, all-append}
use multi_ssh.Base.Equality.{Text}
use multi_ssh.Base.Strings.{codes}
use multi_ssh.Base.Int.{ℤ, pos, negsuc}

abbrev pub is_digit : ℕ → Bool
is_digit c = leb b'0' c && leb c b'9'

digits : ℕ → ℕ → Text
digits zero n = []
digits (suc f) n =
    let more = digits f (n / 10) in
    if ltb n 10 then (b'0' + n) ∷ [] else more ++ (b'0' + n % 10) ∷ []

-- A number has no more digits than itself and one: that fuel is enough.
unfoldable pub itoa : ℕ → Text
unfolding digits
itoa n = digits (suc n) n

unfoldable pub value : ℕ → Text → Option ℕ
value acc [] = some acc
value acc (c ∷ s) = let rest = value (acc * 10 + (c - b'0')) s in if is_digit c then rest else none

unsigned : Text → Option ℕ
unsigned [] = none
unsigned (c ∷ s) = value 0 (c ∷ s)

abbrev positive : Option ℕ → Option ℤ
positive none = none
positive (some v) = if ltb v (2 ^ 63) then some (pos v) else none

abbrev negative : Option ℕ → Option ℤ
negative none = none
negative (some zero) = some (pos 0)
negative (some (suc v)) = if ltb v (2 ^ 63) then some (negsuc v) else none

-- `none` is the error: no digits, another character, or out of range.
unfoldable pub atoi : Text → Option ℤ
unfolding unsigned value
atoi [] = none
atoi (c ∷ s) =
    if eqb c b'-'
    then negative (unsigned s)
    else if eqb c b'+'
    then positive (unsigned s)
    else positive (unsigned (c ∷ s))

bind_value : Option ℕ → ℕ → Option ℕ
bind_value none d = none
bind_value (some v) d = some (v * 10 + d)

value_snoc :
    (acc d : ℕ) (s : Text) → d < 10 → value acc (s ++ (b'0' + d) ∷ []) ≡ bind_value (value acc s) d
unfolding value bind_value
value_snoc acc d [] h = ground arith
value_snoc acc d (c ∷ s) h = ground (arith, value_snoc (acc * 10 + (c - b'0')) d s h)

value-digits : (f n : ℕ) → n < f → value 0 (digits f n) ≡ some n
unfolding digits bind_value
value-digits zero n h = absurd (omega arith)
value-digits (suc f) n h = elim (Bool-cases (ltb n 10)) [
  | inl small ↦ rw small (unfold value in ground arith)
  | inr big ↦
      rw
        (
          big,
          value_snoc 0 (n % 10) (digits f (n / 10)) (omega arith),
          value-digits f (n / 10) (ground arith),
          bind_value,
        )
        (ground arith)
]

-- A property of all digits holds of every character that is printed.
pub all-itoa :
    (p : ℕ → Bool) (n : ℕ) → ((d : ℕ) → d < 10 → p (b'0' + d) ≡ true) → all p (itoa n) ≡ true
unfolding itoa
all-itoa p n h = all-digits (suc n) n
  where
    all-digits : (f m : ℕ) → all p (digits f m) ≡ true
    all-digits zero m = refl
    all-digits (suc f) m = elim (Bool-cases (ltb m 10)) [
      | inl small ↦ rw small (ground (arith, h m))
      | inr big ↦
          rw (big, all-append p (digits f (m / 10)) ((b'0' + m % 10) ∷ []), all-digits f (m / 10))
            (ground (arith, h (m % 10)))
    ]

digits_front : (f n : ℕ) → (c : ℕ) × (s : Text) × (digits (suc f) n ≡ c ∷ s) × (is_digit c ≡ true)
unfolding digits
digits_front zero n = elim (Bool-cases (ltb n 10)) [
  | inl small ↦ (b'0' + n, [], rw small, ground arith)
  | inr big ↦ (b'0' + n % 10, [], rw big, ground arith)
]
digits_front (suc f) n = elim (Bool-cases (ltb n 10)) [
  | inl small ↦ (b'0' + n, [], rw small, ground arith)
  | inr big ↦
      let (c, s, e, d) = digits_front f (n / 10) in (c, s ++ (b'0' + n % 10) ∷ [], rw big (cc e), d)
]

atoi_digits :
    (c n : ℕ) (s : Text)
    → is_digit c ≡ true
    → value 0 (c ∷ s) ≡ some n
    → n < 2 ^ 63
    → atoi (c ∷ s) ≡ some (pos n)
unfolding atoi
atoi_digits c n s d v h = ground arith

-- A number in the range of an int reads back as it was printed.
pub atoi-itoa : (n : ℕ) → n < 2 ^ 63 → atoi (itoa n) ≡ some (pos n)
unfolding itoa
atoi-itoa n h =
    let (c, s, e, d) = digits_front n n in
    rw e (atoi_digits c n s d (rw e at (value-digits (suc n) n (omega arith))) h)

pub value-itoa : (n : ℕ) → value 0 (itoa n) ≡ some n
unfolding itoa
value-itoa n = value-digits (suc n) n (omega arith)

pub itoa_front : (n : ℕ) → (c : ℕ) × (s : Text) × (itoa n ≡ c ∷ s) × (is_digit c ≡ true)
unfolding itoa
itoa_front n = digits_front n n

minus_twelve : atoi (codes "-12") ≡ some (negsuc 11)
unfolding atoi
minus_twelve = refl

prints : itoa 2048 ≡ codes "2048"
unfolding itoa
prints = refl
