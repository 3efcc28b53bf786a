-- ===== src/Base/Scanner.antt =====
-- `bufio.Scanner` over lines, as the readers of the proxy's files use it.
use Prim.Native.Nat.{ℕ, ◌*◌, ◌<◌}
use mathlib.Core.Path.{◌≡◌, refl, sym}
use mathlib.Core.Bool.{Bool, true, ◌||◌}
use mathlib.Core.List.{List, [], ◌∷◌, ◌++◌, append_assoc}
use mathlib.Core.Option
use mathlib.Core.Option.{Option, none, some}
use native.Mathlib.Omega.{arith}
use multi_ssh.Base.Tests.{ltb, eqb, if◌then◌else◌}
use multi_ssh.Base.Lists.{All}
use multi_ssh.Base.Equality.{Text, ◌==◌, text_eq}
use multi_ssh.Base.Strings.{byte_len, lacks, starts_with, codes}

abbrev pub newline : ℕ
newline = 10

abbrev pub hash_sign : ℕ
hash_sign = b'#'

abbrev pub space : ℕ
space = 32

-- The scanner's buffer: a line of this many bytes or more ends the scan by `ErrTooLong`.
abbrev pub max_token : ℕ
max_token = 64 * 1024

-- `ScanLines` drops one carriage return at a line's end.
unfoldable pub drop_cr : Text → Text
drop_cr [] = []
drop_cr (c ∷ []) = if eqb c 13 then [] else c ∷ []
drop_cr (c ∷ d ∷ s) = c ∷ drop_cr (d ∷ s)

abbrev glue : ℕ → List Text → List Text
glue c [] = (c ∷ []) ∷ []
glue c (l ∷ ls) = (c ∷ l) ∷ ls

-- The raw lines: a last line with no newline counts unless it is empty.
unfoldable pub raw_lines : Text → List Text
raw_lines [] = []
raw_lines (c ∷ s) = let rest = raw_lines s in if eqb c newline then [] ∷ rest else glue c rest

unfoldable pub checked : List Text → Option (List Text)
checked [] = some []
checked (l ∷ ls) =
    let rest = checked ls in
    if ltb (byte_len l) max_token then Option.map (λ r. drop_cr l ∷ r) rest else none

-- The lines of a file, or `none` if the scan ends by an error.
unfoldable pub scan : Text → Option (List Text)
unfolding checked raw_lines drop_cr
scan s = checked (raw_lines s)

-- A line that the readers pass over, after trimming.
abbrev pub skipped : Text → Bool
skipped line = line == [] || starts_with hash_sign line

-- A line that comes back from a file as it was written.
abbrev pub IsLine : Text → Type 0
IsLine l = (lacks newline l ≡ true) × (lacks 13 l ≡ true) × (byte_len l < max_token)

-- The text of a file that holds these lines.
unfoldable pub unlines : List Text → Text
unlines [] = []
unlines (l ∷ ls) = l ++ newline ∷ unlines ls

pub unlines-append : (ls more : List Text) → unlines (ls ++ more) ≡ unlines ls ++ unlines more
unfolding unlines
unlines-append [] more = refl
unlines-append (l ∷ ls) more =
    rw (unlines-append ls more) (sym (append_assoc l (newline ∷ unlines ls) (unlines more)))

drop_cr_lem : (l : Text) → lacks 13 l ≡ true → drop_cr l ≡ l
unfolding drop_cr
drop_cr_lem [] h = refl
drop_cr_lem (c ∷ []) h = ground arith
drop_cr_lem (c ∷ d ∷ s) h = ground (arith, drop_cr_lem (d ∷ s))

raw_lines-append :
    (l rest : Text) → lacks newline l ≡ true → raw_lines (l ++ newline ∷ rest) ≡ l ∷ raw_lines rest
unfolding raw_lines
raw_lines-append [] rest h = refl
raw_lines-append (c ∷ l) rest h = ground (arith, raw_lines-append l rest)

raw_lines-unlines : (ls : List Text) → All IsLine ls → raw_lines (unlines ls) ≡ ls
unfolding unlines
raw_lines-unlines [] h = unfold raw_lines in refl
raw_lines-unlines (l ∷ ls) (h, hs) =
    rw (raw_lines-append l (unlines ls) h.0, raw_lines-unlines ls hs)

checked_lem : (ls : List Text) → All IsLine ls → checked ls ≡ some ls
unfolding checked
checked_lem [] h = refl
checked_lem (l ∷ ls) (h, hs) = rw (checked_lem ls hs, drop_cr_lem l h.1) (ground arith)

-- Lines that were written are the lines that are read.
pub scan-unlines : (ls : List Text) → All IsLine ls → scan (unlines ls) ≡ some ls
unfolding scan
scan-unlines ls h = rw (raw_lines-unlines ls h) (checked_lem ls h)

scans : scan (codes "a b\r\n\n# c") ≡ some (codes "a b" ∷ [] ∷ codes "# c" ∷ [])
unfolding scan byte_len
scans = refl
