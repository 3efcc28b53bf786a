-- ===== src/Enroll/Slots/Meminfo.antt =====
-- What `enrolSlots` of cmd/proxy/enroll.go makes of a /proc/meminfo as the kernel writes it.
use mathlib.Core.Bool.{false≢true}
use mathlib.Core.Path.{subst}
use multi_ssh.Base.{
  ℕ, zero, suc, ◌+◌, ◌-◌, ◌*◌, ◌/◌, ◌%◌, ◌^◌, ◌≤◌, ◌<◌, ◌≡◌, ◌⊎◌, inl, inr, refl, sym, ap, ◌∙◌,
  Bool, true, false, List, [], ◌∷◌, ◌++◌, Option, none, some, Text, All, arith,
}
use multi_ssh.Base.Decimal.{is_digit, itoa, value, value-itoa, itoa_front, all-itoa}
use multi_ssh.Base.Int.{ℤ, pos, negsuc}
use multi_ssh.Base.Records.{lacks-append}
use multi_ssh.Base.Scanner.{newline}
use multi_ssh.Base.Strings.{
  codes, cut_prefix, cut_prefix-append, trim_left, trim_left_solid, starts_solid, is_space, lacks,
  lacks_of_all,
}
use multi_ssh.Addresses.{split}
use multi_ssh.Enroll.Slots.{
  or_next, after_name, read_digits, read_line, first_line, mem_available, slots_for, amount,
  enrol_slots, half_in_hashes, at_least, at_most,
}

abbrev pub blanks : ℕ → Text
blanks zero = []
blanks (suc n) = 32 ∷ blanks n

-- The line of the memory available, in KiB, with at least one blank before the number.
abbrev pub available_line : ℕ → ℕ → Text
available_line n kb = codes "MemAvailable:" ++ 32 ∷ (blanks n ++ (itoa kb ++ codes " kB"))

-- A line of the file that tells something else.
abbrev pub IsOther : Text → Type 0
IsOther l = (lacks newline l ≡ true) × (cut_prefix (codes "MemAvailable:") l ≡ none)

read_digits_value :
    (acc v : ℕ) (s rest : Text)
    → value acc s ≡ some v
    → read_digits acc (s ++ 32 ∷ rest) ≡ (v, 32 ∷ rest)
unfolding read_digits value
read_digits_value acc v [] rest h = ground arith
read_digits_value acc v (c ∷ s) rest h =
    ground (arith, read_digits_value (acc * 10 + (c - b'0')) v s rest)

trim_blanks : (n : ℕ) (t : Text) → starts_solid t ≡ true → trim_left (blanks n ++ t) ≡ t
unfolding trim_left is_space
trim_blanks zero t h = trim_left_solid t h
trim_blanks (suc n) t h = trim_blanks n t h

lacks-blanks : (n : ℕ) → lacks newline (blanks n) ≡ true
lacks-blanks zero = refl
lacks-blanks (suc n) = lacks-blanks n

read_amount :
    (kb c : ℕ) (s : Text)
    → is_digit c ≡ true
    → value 0 (c ∷ s) ≡ some kb
    → kb < 2 ^ 64
    → amount ((c ∷ s) ++ codes " kB") ≡ some kb
unfolding cut_prefix trim_left is_space amount
read_amount kb c s d v h = rw (read_digits_value 0 kb (c ∷ s) (codes "kB") v, d) (ground arith)

starts_digit : (c : ℕ) (s : Text) → is_digit c ≡ true → starts_solid (c ∷ s) ≡ true
unfolding is_space
starts_digit c s d = ground arith

read_available : (n kb : ℕ) → kb < 2 ^ 64 → read_line (available_line n kb) ≡ some kb
unfolding read_line is_space
read_available n kb h =
    let (c, s, e, d) = itoa_front kb in
    let v = rw e at (value-itoa kb) in
    let front : starts_solid (itoa kb ++ codes " kB") ≡ true =
      ap (λ (t : Text). starts_solid (t ++ codes " kB")) e ∙ starts_digit c (s ++ codes " kB") d in
    ap after_name
      (cut_prefix-append (codes "MemAvailable:") (32 ∷ (blanks n ++ (itoa kb ++ codes " kB"))))
    ∙ ap amount (trim_blanks n (itoa kb ++ codes " kB") front)
    ∙ ap (λ (t : Text). amount (t ++ codes " kB")) e
    ∙ read_amount kb c s d v h

read_other : (l : Text) → IsOther l → read_line l ≡ none
unfolding read_line
read_other l (a, b) = rw b refl

lacks-available_line : (n kb : ℕ) → lacks newline (available_line n kb) ≡ true
lacks-available_line n kb =
    lacks-append newline (codes "MemAvailable:" ++ 32 ∷ []) (blanks n ++ (itoa kb ++ codes " kB"))
      refl
      (lacks-append newline (blanks n) (itoa kb ++ codes " kB") (lacks-blanks n) (
        lacks-append newline (itoa kb) (codes " kB")
          (lacks_of_all is_digit newline (itoa kb) refl
            (all-itoa is_digit kb (λ (d : ℕ) h. ground arith)))
          refl))

split_line : (s t : Text) → lacks newline s ≡ true → split 10 (s ++ newline ∷ t) ≡ s ∷ split 10 t
unfolding split
split_line [] t h = refl
split_line (c ∷ s) t h = ground (arith, split_line s t)

-- Lines in front of a text.
abbrev pub behind : List Text → Text → Text
behind [] t = t
behind (l ∷ ls) t = l ++ newline ∷ behind ls t

-- The line is found behind any other lines.
lines_available :
    (before : List Text) (n kb : ℕ) (rest : Text)
    → All IsOther before
    → kb < 2 ^ 64
    → first_line (split 10 (behind before (available_line n kb ++ newline ∷ rest)))
      ≡ some (kb * 1024 % 2 ^ 64)
unfolding first_line
lines_available [] n kb rest o h =
    ap first_line (split_line (available_line n kb) rest (lacks-available_line n kb))
    ∙ ap (λ (o : Option ℕ). or_next o (first_line (split 10 rest))) (read_available n kb h)
lines_available (l ∷ before) n kb rest (o, os) h =
    let more = behind before (available_line n kb ++ newline ∷ rest) in
    ap first_line (split_line l more o.0)
    ∙ ap (λ (o : Option ℕ). or_next o (first_line (split 10 more))) (read_other l o)
    ∙ lines_available before n kb rest os h

-- The most hashes, four at most and one at least, that take half of what is available together.
abbrev pub FitsHalf : ℕ → ℕ → Type 0
FitsHalf kb n =
    (1 ≤ n)
    × (n ≤ 4)
    × ((n ≡ 1) ⊎ (2 * (n * 65536) ≤ kb))
    × ((n ≡ 4) ⊎ (kb < 2 * ((n + 1) * 65536)))

halved : (kb : ℕ) → half_in_hashes (kb * 1024) ≡ kb / 131072
halved kb = omega arith

clamped : (kb q : ℕ) → q ≡ kb / 131072 → FitsHalf kb (at_least 1 (at_most 4 q))
clamped kb zero h = (omega arith, omega arith, inl refl, inr (omega arith))
clamped kb (suc zero) h = (omega arith, omega arith, inl refl, inr (omega arith))
clamped kb (suc (suc zero)) h = (omega arith, omega arith, inr (omega arith), inr (omega arith))
clamped kb (suc (suc (suc zero))) h =
    (omega arith, omega arith, inr (omega arith), inr (omega arith))
clamped kb (suc (suc (suc (suc n)))) h =
    let four : at_most 4 (suc (suc (suc (suc n)))) ≡ 4 = ground arith in
    rw four (omega arith, omega arith, inr (omega arith), inl refl)

abbrev pub is_explicit : ℤ → Bool
is_explicit (pos (suc n)) = true
is_explicit n = false

slots_available :
    (before : List Text) (n kb : ℕ) (rest : Text)
    → All IsOther before
    → kb < 2 ^ 54
    → FitsHalf kb
        (slots_for (mem_available (some (behind before (available_line n kb ++ newline ∷ rest)))))
unfolding mem_available slots_for
slots_available before n kb rest o h =
    let whole : kb * 1024 % 2 ^ 64 ≡ kb * 1024 = omega arith in
    let found = lines_available before n kb rest o (omega arith) ∙ ap (λ (k : ℕ). some k) whole in
    subst (λ (k : ℕ). FitsHalf kb k) (sym (ap slots_for found))
      (clamped kb (half_in_hashes (kb * 1024)) (halved kb))

-- With a flag that gives no number, and a /proc/meminfo in which the first line that begins with
-- `MemAvailable:` goes on with blanks and a number of KiB below 2 ^ 54, as many passwords are hashed
-- at once as take half of that together at 64 MiB each, but four at most and one at least.
pub enrol_slots_bounds :
    (explicit : ℤ) (before : List Text) (n kb : ℕ) (rest : Text)
    → is_explicit explicit ≡ false
    → All IsOther before
    → kb < 2 ^ 54
    → FitsHalf kb
        (enrol_slots explicit (some (behind before (available_line n kb ++ newline ∷ rest))))
unfolding enrol_slots
enrol_slots_bounds (pos zero) before n kb rest e o h = slots_available before n kb rest o h
enrol_slots_bounds (negsuc m) before n kb rest e o h = slots_available before n kb rest o h
enrol_slots_bounds (pos (suc m)) before n kb rest e o h = absurd (false≢true (sym e))
