-- ===== src/Base/Strings.antt =====
-- The functions of Go's `strings` and `unicode` that the program calls, on lists of code points.
-- A string that is not valid UTF-8 is outside this view of text.
use Prim.Native.Char.{code}
use Prim.Native.Nat.{ℕ, ◌+◌}
use Prim.Native.String.{String}
use mathlib.Core.Path.{◌≡◌, refl, sym, ◌∙◌}
use mathlib.Core.Logic.{inl, inr}
use mathlib.Core.Bool.{Bool, true, false, ◌&&◌, ◌||◌, false≢true}
use mathlib.Core.List.{[], ◌∷◌, ◌++◌, reverse, reverse-reverse}
use mathlib.Core.Option.{Option, none, some}
use native.Mathlib.Omega.{arith}
use multi_ssh.Base.Lists.{all}
use multi_ssh.Base.Tests.{ltb, leb, eqb, eqb→eq, and_true, Bool-cases, if◌then◌else◌}
use multi_ssh.Base.Equality.{Text}

-- The code points of a literal.
abbrev pub codes : String → Text
codes String.[] = []
codes (String.◌∷◌ c s) = code c ∷ codes s

-- How many bytes a code point takes in UTF-8.
abbrev pub width : ℕ → ℕ
width c = if ltb c 0x80 then 1 else if ltb c 0x800 then 2 else if ltb c 0x10000 then 3 else 4

-- `len(s)`
unfoldable pub byte_len : Text → ℕ
byte_len [] = 0
byte_len (c ∷ s) = width c + byte_len s

-- `strings.CutPrefix`
unfoldable pub cut_prefix : Text → Text → Option Text
cut_prefix [] s = some s
cut_prefix (p ∷ ps) [] = none
cut_prefix (p ∷ ps) (c ∷ s) = let rest = cut_prefix ps s in if eqb p c then rest else none

-- `strings.HasPrefix(s, "#")` for a prefix of one character
abbrev pub starts_with : ℕ → Text → Bool
starts_with c [] = false
starts_with c (x ∷ s) = eqb x c

-- `strings.Cut(s, sep)` for a separator of one character: before, after, found
unfoldable pub cut : ℕ → Text → Text × Text × Bool
cut sep [] = ([], [], false)
cut sep (c ∷ s) =
    if eqb c sep then ([], s, true) else (c ∷ (cut sep s).0, (cut sep s).1, (cut sep s).2)

-- `unicode.IsSpace`
unfoldable pub is_space : ℕ → Bool
is_space c =
    (leb 9 c && leb c 13)
    || eqb c 32
    || eqb c 0x85
    || eqb c 0xa0
    || eqb c 0x1680
    || (leb 0x2000 c && leb c 0x200a)
    || eqb c 0x2028
    || eqb c 0x2029
    || eqb c 0x202f
    || eqb c 0x205f
    || eqb c 0x3000

unfoldable pub trim_left : Text → Text
trim_left [] = []
trim_left (c ∷ s) = let rest = trim_left s in if is_space c then rest else c ∷ s

-- `strings.TrimSpace`
unfoldable pub trim_space : Text → Text
unfolding trim_left is_space
trim_space s = reverse (trim_left (reverse (trim_left s)))

-- The text holds no code point `c`.
abbrev pub lacks : ℕ → Text → Bool
lacks c [] = true
lacks c (x ∷ s) = (if eqb x c then false else true) && lacks c s

-- The first code point is there and is no white space.
abbrev pub starts_solid : Text → Bool
starts_solid [] = false
starts_solid (c ∷ s) = if is_space c then false else true

pub cut_at :
    (sep : ℕ) (s rest : Text) → lacks sep s ≡ true → cut sep (s ++ sep ∷ rest) ≡ (s, rest, true)
unfolding cut
cut_at sep [] rest h = ground arith
cut_at sep (c ∷ s) rest h = ground (arith, cut_at sep s rest)

pub cut_missing : (sep : ℕ) (s : Text) → lacks sep s ≡ true → cut sep s ≡ (s, [], false)
unfolding cut
cut_missing sep [] h = refl
cut_missing sep (c ∷ s) h = ground (arith, cut_missing sep s)

-- What `cut` finds before the separator lacks it, and the parts spell the text.
pub cut-lacks : (sep : ℕ) (s : Text) → lacks sep (cut sep s).0 ≡ true
unfolding cut
cut-lacks sep [] = refl
cut-lacks sep (c ∷ s) = ground (arith, cut-lacks sep s)

pub cut_parts :
    (sep : ℕ) (s : Text) → (cut sep s).2 ≡ true → (cut sep s).0 ++ sep ∷ (cut sep s).1 ≡ s
unfolding cut
cut_parts sep [] h = ground arith
cut_parts sep (c ∷ s) h = ground (arith, cut_parts sep s)

pub trim_left_solid : (s : Text) → starts_solid s ≡ true → trim_left s ≡ s
unfolding trim_left
trim_left_solid [] h = refl
trim_left_solid (c ∷ s) h = ground arith

-- A text that begins and ends with no white space is left as it is.
pub trim_space_solid :
    (s : Text) → starts_solid s ≡ true → starts_solid (reverse s) ≡ true → trim_space s ≡ s
unfolding trim_space
trim_space_solid s h k = rw (trim_left_solid s h, trim_left_solid (reverse s) k) (reverse-reverse s)

pub cut_prefix-append : (p s : Text) → cut_prefix p (p ++ s) ≡ some s
unfolding cut_prefix
cut_prefix-append [] s = refl
cut_prefix-append (c ∷ p) s = ground (arith, cut_prefix-append p s)

trims : trim_space (codes "  a b\r\n") ≡ codes "a b"
unfolding trim_space
trims = refl

-- A text of characters of a class lacks what is not of the class.
pub lacks_of_all :
    (p : ℕ → Bool) (c : ℕ) (s : Text) → p c ≡ false → all p s ≡ true → lacks c s ≡ true
lacks_of_all p c [] n h = refl
lacks_of_all p c (x ∷ s) n h = elim (Bool-cases (eqb x c)) [
  | inl same ↦
      let at : x ≡ c = eqb→eq x c same in
      absurd (false≢true (sym n ∙ rw at at (and_true (p x) (all p s) h).0))
  | inr other ↦ rw other (lacks_of_all p c s n (and_true (p x) (all p s) h).1)
]
