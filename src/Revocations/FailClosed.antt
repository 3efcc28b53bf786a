-- ===== src/Revocations/FailClosed.antt =====
-- A revocation file that cannot be trusted is never adopted (cmd/proxy/revoke.go).
use mathlib.Core.Option.{some-injective}
use multi_ssh.Base.{
  ℕ, ◌≡◌, ◌≢◌, ◌⊎◌, inl, inr, refl, sym, ap, true, false, List, [], ◌∷◌, Option, none, some, Text,
  text_eq, holds, lookup-insert, All, arith,
}
use multi_ssh.Base.Strings.{cut, trim_space}
use multi_ssh.Base.Scanner.{scan, skipped, space}
use multi_ssh.Base.Files.{FileRead, content}
use multi_ssh.Registry.{Registry}
use multi_ssh.Revocations.{
  Barred, Revocations, valid_fingerprint, read_entry, ◌>>=◌, read_entries, read_revocations,
  stat_failed, found, error, reload, reload_at, same_stamp, stamp_of, adopt, tick, swept,
}

-- The line is passed over, or its first word is a well-formed fingerprint that the set bars.
abbrev pub IsBarredLine : Barred → Text → Type 0
IsBarredLine m line =
    (skipped (trim_space line) ≡ true)
    ⊎ ((valid_fingerprint (cut space (trim_space line)).0 ≡ true)
        × (holds (cut space (trim_space line)).0 m ≡ true))

read_entry-holds :
    (m m' : Barred) (line fp : Text)
    → read_entry m line ≡ some m'
    → holds fp m ≡ true
    → holds fp m' ≡ true
unfolding read_entry holds
read_entry-holds m m' line fp e h =
    ground (arith, lookup-insert fp (cut space line).0 (trim_space (cut space line).1) m)

bind_some :
    {A B : Type 0} (o : Option A) (f : A → Option B) {b : B}
    → (o >>= f) ≡ some b
    → (a : A) × (o ≡ some a) × (f a ≡ some b)
bind_some none f e = cc
bind_some (some a) f e = (a, refl, e)

read_entries-holds :
    (m b : Barred) (lines : List Text) (fp : Text)
    → read_entries m lines ≡ some b
    → holds fp m ≡ true
    → holds fp b ≡ true
unfolding read_entries
read_entries-holds m b [] fp e h = rw (some-injective b m (sym e)) h
read_entries-holds m b (l ∷ ls) fp e h =
    let (m', good, more) = bind_some (read_entry m (trim_space l)) (λ n. read_entries n ls) e in
    read_entries-holds m' b ls fp more (read_entry-holds m m' (trim_space l) fp good h)

read_entry_barred :
    (m m' : Barred) (line : Text)
    → read_entry m line ≡ some m'
    → (skipped line ≡ true)
      ⊎ ((valid_fingerprint (cut space line).0 ≡ true) × (holds (cut space line).0 m' ≡ true))
unfolding read_entry holds
read_entry_barred m m' line e =
    let fp = (cut space line).0 in
    ground (arith, lookup-insert fp fp (trim_space (cut space line).1) m)

read_entries_barred :
    (m b : Barred) (lines : List Text) → read_entries m lines ≡ some b → All (IsBarredLine b) lines
unfolding read_entries
read_entries_barred m b [] e = tt
read_entries_barred m b (l ∷ ls) e =
    let (m', good, more) = bind_some (read_entry m (trim_space l)) (λ n. read_entries n ls) e in
    (
      elim (read_entry_barred m m' (trim_space l) good) [
        | inl skip ↦ inl skip
        | inr (valid, held) ↦ inr (valid, read_entries-holds m' b ls _ more held)
      ],
      read_entries_barred m' b ls more,
    )

-- If a file is adopted, then every line of it is blank, a comment, or begins with a well-formed
-- fingerprint that is barred from then on: one malformed line and the whole file is refused.
pub read_revocations_barred :
    (t : Text) (b : Barred)
    → read_revocations (content t) ≡ some b
    → (lines : List Text) × (scan t ≡ some lines) × All (IsBarredLine b) lines
unfolding read_revocations
read_revocations_barred t b e =
    let (lines, s, more) = bind_some (scan t) (read_entries []) e in
    (lines, s, read_entries_barred [] b lines more)

same_stamp_lem :
    (size mtime : ℕ) (s : Option (ℕ × ℕ))
    → s ≢ some (size, mtime)
    → same_stamp (some (size, mtime)) s ≡ false
unfolding same_stamp
same_stamp_lem size mtime none h = refl
same_stamp_lem size mtime (some (a, b)) h = ground arith

reload_failed : (r : Revocations) (file : FileRead) → reload r stat_failed file ≡ (r, error)
unfolding reload
reload_failed r file = refl

reload_refused :
    (r : Revocations) (file : FileRead) (size mtime : ℕ)
    → r.stamp ≢ some (size, mtime)
    → read_revocations file ≡ none
    → reload r (found size mtime) file ≡ (r, error)
unfolding reload reload_at adopt stamp_of
reload_refused r file size mtime differ e =
    rw (same_stamp_lem size mtime r.stamp differ, reload_at, e, adopt)

-- A tick that cannot look at the file, or that finds it changed and cannot read it as a whole, keeps
-- every key barred that was barred, and closes no connection.
pub tick_keeps :
    (r : Revocations) (reg : Registry) (file : FileRead) (size mtime : ℕ)
    → r.stamp ≢ some (size, mtime)
    → read_revocations file ≡ none
    → (tick r reg stat_failed file ≡ (r, [])) × (tick r reg (found size mtime) file ≡ (r, []))
unfolding tick swept
tick_keeps r reg file size mtime differ e = (
  ap (swept reg) (reload_failed r file),
  ap (swept reg) (reload_refused r file size mtime differ e),
)
