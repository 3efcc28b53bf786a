-- ===== src/Enroll/Slots.antt =====
-- How many passwords `POST /enroll` may hash at once: `enrolSlots` and `memAvailable` of
-- cmd/proxy/enroll.go. What /proc/meminfo holds is an argument.
pub mod Meminfo
use mathlib.Core.Bool.{false≢true}
use multi_ssh.Base.{
  sym, ℕ, zero, suc, ◌+◌, ◌-◌, ◌*◌, ◌/◌, ◌%◌, ◌^◌, ◌≤◌, ◌≡◌, ◌⊎◌, inl, inr, refl, Bool, true, false,
  List, [], ◌∷◌, Option, none, some, Text, ltb, if◌then◌else◌, arith,
}
use multi_ssh.Base.Decimal.{is_digit}
use multi_ssh.Base.Int.{ℤ, pos, negsuc}
use multi_ssh.Base.Strings.{codes, cut_prefix, trim_left, is_space}
use multi_ssh.Addresses.{split}

-- KiB of one hash
abbrev pub argon_memory : ℕ
argon_memory = 64 * 1024

abbrev pub argon_parallelism : ℕ
argon_parallelism = 4

-- The digits that a text begins with, as a number, and what is behind them.
unfoldable pub read_digits : ℕ → Text → ℕ × Text
read_digits n [] = (n, [])
read_digits n (c ∷ s) =
    let more = read_digits (n * 10 + (c - b'0')) s in if is_digit c then more else (n, c ∷ s)

-- White space in the format: at least one of it in the text, and as much as there is.
abbrev past_space : Text → Option Text
past_space [] = none
past_space (c ∷ s) = if is_space c then some (trim_left s) else none

abbrev kilobytes : Option Text → Option Text
kilobytes none = none
kilobytes (some s) = cut_prefix (codes "kB") s

abbrev unit : ℕ → Option Text → Option ℕ
unit kb none = none
unit kb (some behind) = if ltb kb (2 ^ 64) then some kb else none

-- `%d kB`, behind the name: at least one digit, and a number of 64 bits.
abbrev pub amount : Text → Option ℕ
unfolding read_digits cut_prefix trim_left
amount [] = none
amount (c ∷ s) =
    let (kb, behind) = read_digits 0 (c ∷ s) in
    let found = unit kb (kilobytes (past_space behind)) in if is_digit c then found else none

abbrev number : Option Text → Option ℕ
number none = none
number (some s) = amount s

abbrev pub after_name : Option Text → Option ℕ
unfolding amount
after_name none = none
after_name (some rest) = number (past_space rest)

-- `fmt.Sscanf(line, "MemAvailable: %d kB", &kb)`
unfoldable pub read_line : Text → Option ℕ
unfolding after_name amount
read_line line = after_name (cut_prefix (codes "MemAvailable:") line)

abbrev pub or_next : Option ℕ → Option ℕ → Option ℕ
or_next none next = next
or_next (some kb) next = some (kb * 1024 % 2 ^ 64)

unfoldable pub first_line : List Text → Option ℕ
unfolding read_line
first_line [] = none
first_line (line ∷ lines) = or_next (read_line line) (first_line lines)

-- In bytes; none where there is no such file or no such line.
unfoldable pub mem_available : Option Text → Option ℕ
unfolding first_line split
mem_available none = none
mem_available (some b) = first_line (split 10 b)

abbrev pub at_most : ℕ → ℕ → ℕ
at_most a b = if ltb b a then b else a

abbrev pub at_least : ℕ → ℕ → ℕ
at_least a b = if ltb a b then b else a

-- Half of the memory, in hashes.
abbrev pub half_in_hashes : ℕ → ℕ
half_in_hashes avail = avail / 2 / (argon_memory * 1024)

unfoldable pub slots_for : Option ℕ → ℕ
slots_for none = argon_parallelism
slots_for (some avail) = at_least 1 (at_most argon_parallelism (half_in_hashes avail))

unfoldable pub enrol_slots : ℤ → Option Text → ℕ
unfolding slots_for mem_available
enrol_slots (pos (suc n)) meminfo = suc n
enrol_slots (pos zero) meminfo = slots_for (mem_available meminfo)
enrol_slots (negsuc n) meminfo = slots_for (mem_available meminfo)

sample_tight : read_line (codes "MemAvailable: 5kB") ≡ none
unfolding read_line cut_prefix trim_left read_digits is_space
sample_tight = refl

sample : enrol_slots (pos 0) (some (codes "MemTotal: 9 kB\nMemAvailable:  300000 kB\n")) ≡ 2
unfolding enrol_slots split read_line cut_prefix trim_left read_digits is_space
sample = refl
