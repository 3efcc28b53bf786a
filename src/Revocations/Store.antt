-- ===== src/Revocations/Store.antt =====
-- The revocation file of cmd/proxy/revoke.go, written and read back, and the commands on it.
use multi_ssh.Base.{
  ◌≡◌, inl, inr, refl, ap, ◌∙◌, Bool, true, List, [], ◌∷◌, ◌++◌, map, Option, some, Text, text_eq,
  lookup, insert, keys, holds, contains, contains-keys, lookup-insert, if◌then◌else◌, All,
  All-append, ℕ_discrete, Option-cases, arith,
}
use multi_ssh.Base.Strings.{cut, cut_at, trim_space, byte_len}
use multi_ssh.Base.Scanner.{scan-unlines, space, IsLine}
use multi_ssh.Base.Sort.{text_leb, sort, contains-sort, sorted_keys_held}
use multi_ssh.Base.Files.{content}
use multi_ssh.Base.Records.{
  IsEntry, entry_line, trim_space-entry, skipped-entry, trim_space-value, entry-IsLine,
}
use multi_ssh.Revocations.{
  Barred, valid_fingerprint, read_entry, read_entries, read_revocations, or_empty, header,
  write_revocations,
}

-- A well-formed fingerprint in one word, and a note that fits on its line and is not empty.
pub record IsPrinted (fp note : Text) : Type 0 where
  pub valid : valid_fingerprint fp ≡ true
  pub entry : IsEntry fp note

read_entry-entry :
    (m : Barred) (fp note : Text)
    → IsPrinted fp note
    → read_entry m (trim_space (entry_line fp note)) ≡ some (insert fp note m)
unfolding read_entry
read_entry-entry m fp note p =
    let e = p.entry in
    rw (
      trim_space-entry fp note e.key.solid e.value.back,
      cut_at space fp note e.key.one_word,
      skipped-entry fp note e.key.solid e.key.no_comment,
      p.valid,
      trim_space-value note e.value,
    )

-- Every entry can be written so that it reads back.
abbrev pub IsPrintable : Barred → Type 0
IsPrintable m = (fp note : Text) → lookup fp m ≡ some note → IsPrinted fp note

abbrev line_of : Barred → Text → Text
line_of m fp = entry_line fp (or_empty (lookup fp m))

-- The set that the written lines give, on top of what was read before.
abbrev Adds : Barred → Barred → List Text → Option Barred → Type 0
Adds m acc fps o =
    (b : Barred) × (o ≡ some b)
    × ((k : Text) → lookup k b ≡ (if contains fps k then lookup k m else lookup k acc))

read_entries-Adds :
    (m acc : Barred) (fps : List Text)
    → IsPrintable m
    → All (λ n. holds n m ≡ true) fps
    → Adds m acc fps (read_entries acc (map (line_of m) fps))
unfolding read_entries holds
read_entries-Adds m acc [] p h = (acc, refl, λ k. refl)
read_entries-Adds m acc (fp ∷ fps) p h = elim (Option-cases (lookup fp m)) [
  | inl e ↦ ground arith
  | inr (note, e) ↦
      let (b, r, l) = read_entries-Adds m (insert fp note acc) fps p h.1 in
      (
        b,
        rw (e, read_entry-entry acc fp note (p fp note e)) r,
        λ k. l k ∙ ground (arith, e, lookup-insert k fp note acc),
      )
]

header-IsLine : All IsLine header
unfolding byte_len
header-IsLine = (
  (refl, refl, omega arith),
  (
    (refl, refl, omega arith),
    (
      (refl, refl, omega arith),
      ((refl, refl, omega arith), ((refl, refl, omega arith), ((refl, refl, omega arith), tt))),
    ),
  ),
)

header_skipped : (ls : List Text) → read_entries [] (header ++ ls) ≡ read_entries [] ls
unfolding read_entries read_entry trim_space cut text_eq ℕ_discrete
header_skipped ls = refl

lines_IsLine :
    (m : Barred) (fps : List Text)
    → IsPrintable m
    → All (λ n. holds n m ≡ true) fps
    → All IsLine (map (line_of m) fps)
unfolding holds
lines_IsLine m [] p h = tt
lines_IsLine m (n ∷ fps) p h = elim (Option-cases (lookup n m)) [
  | inl e ↦ ground arith
  | inr (note, e) ↦ (rw e (entry-IsLine n note (p n note e).entry), lines_IsLine m fps p h.1)
]

-- The set reads as another: the same keys are barred, with the same notes.
abbrev pub ReadsAs : Option Barred → Barred → Type 0
ReadsAs o m = (b : Barred) × (o ≡ some b) × ((fp : Text) → lookup fp b ≡ lookup fp m)

-- What is written reads back without error as what was written, for printable entries.
pub read-write_revocations :
    (m : Barred) → IsPrintable m → ReadsAs (read_revocations (content (write_revocations m))) m
unfolding read_revocations write_revocations
read-write_revocations m p =
    let fps = sort text_leb (keys m) in
    let lines = map (line_of m) fps in
    let (b, r, l) = read_entries-Adds m [] fps p (sorted_keys_held m) in
    (
      b,
      rw
          (scan-unlines (header ++ lines) (
            All-append IsLine header lines header-IsLine
              (lines_IsLine m fps p (sorted_keys_held m))))
          (header_skipped lines ∙ r),
      λ k.
          l k
          ∙ ap (λ (c : Bool). if c then lookup k m else lookup {V = Text} k [])
              (contains-sort text_leb k (keys m) ∙ contains-keys k m)
          ∙ unfold holds lookup in ground arith,
    )
