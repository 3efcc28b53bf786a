-- ===== src/Sightings/File.antt =====
-- The file of cmd/proxy/sightings.go: `openSightings`, `save` and `reload`. The form of an instant,
-- RFC 3339, is a parameter; it leaves out the parts of a second.
use multi_ssh.Base.{
  ℕ, ◌-◌, ◌%◌, ◌^◌, ◌≡◌, inl, inr, refl, ap, ◌∙◌, Bool, true, false, List, [], ◌∷◌, ◌++◌, map,
  Option, none, some, Text, text_eq, lookup, insert, keys, holds, contains, contains-keys,
  lookup-insert, map_option, if◌then◌else◌, All, ℕ_discrete, Option-cases, arith,
}
use multi_ssh.Base.Files.{FileRead, absent, unreadable, content}
use multi_ssh.Base.Records.{
  IsValue, IsEntry, entry_line, trim_space-entry, skipped-entry, trim_space-value, entry-IsLine,
}
use multi_ssh.Base.Scanner.{scan, skipped, space, unlines, IsLine, scan-unlines}
use multi_ssh.Base.Sort.{text_leb, sort, contains-sort, sorted_keys_held}
use multi_ssh.Base.Strings.{codes, cut, cut_at, trim_space, byte_len}
use multi_ssh.Sightings.{Sightings}

-- The instant in whole seconds.
abbrev pub whole : ℕ → ℕ
whole t = t - t % 10 ^ 9

-- `Format(time.RFC3339)` and `time.Parse(time.RFC3339, …)`, and what is documented of them.
pub record Stamps : Type 0 where
  pub format : ℕ → Text
  pub parse : Text → Option ℕ
  pub parse-format : (t : ℕ) → parse (format t) ≡ some (whole t)
  pub printed : (t : ℕ) → IsValue (format t)

module _ (f : Stamps) where
  abbrev with_stamp : Sightings → Text → Option ℕ → Sightings
  with_stamp s name none = s
  with_stamp s name (some t) = insert name t s

  -- One line of the file, trimmed.
  unfoldable pub read_sighting : Sightings → Text → Sightings
  read_sighting s line =
      let (name, stamp, found) = cut space line in
      if skipped line
      then s
      else if found
      then with_stamp s name (f.parse (trim_space stamp))
      else s

  unfoldable pub read_sightings : Sightings → List Text → Sightings
  read_sightings s [] = s
  read_sightings s (line ∷ lines) = read_sightings (read_sighting s (trim_space line)) lines

  abbrev read_scanned : Option (List Text) → Option Sightings
  read_scanned none = none
  read_scanned (some lines) = some (read_sightings [] lines)

  -- None is an error: an unreadable file, or a line too long to scan.
  unfoldable pub open_sightings : FileRead → Option Sightings
  open_sightings absent = some []
  open_sightings unreadable = none
  open_sightings (content t) = read_scanned (scan t)

  abbrev pub or_zero : Option ℕ → ℕ
  or_zero none = 0
  or_zero (some t) = t

  abbrev pub sighting_line : Sightings → Text → Text
  sighting_line s n = entry_line n (f.format (or_zero (lookup n s)))

  abbrev pub header : List Text
  header = codes "# target\tlast seen (UTC). Advisory: losing this costs history only." ∷ []

  -- What `save` writes.
  unfoldable pub save : Sightings → Text
  unfolding sort
  save s = unlines (header ++ map (sighting_line s) (sort text_leb (keys s)))

  -- `reload`: a file that cannot be read leaves the sightings as they are.
  unfoldable pub reload : Sightings → FileRead → Sightings × Bool
  unfolding open_sightings
  reload s file = reloaded (open_sightings file)
    where
      reloaded : Option Sightings → Sightings × Bool
      reloaded none = (s, false)
      reloaded (some fresh) = (fresh, true)

  read_sighting-entry :
      (s : Sightings) (n : Text) (t : ℕ)
      → IsEntry n (f.format t)
      → read_sighting s (trim_space (entry_line n (f.format t))) ≡ insert n (whole t) s
  unfolding read_sighting
  read_sighting-entry s n t e =
      rw
        (
          trim_space-entry n (f.format t) e.key.solid e.value.back,
          cut_at space n (f.format t) e.key.one_word,
          skipped-entry n (f.format t) e.key.solid e.key.no_comment,
          trim_space-value (f.format t) e.value,
          f.parse-format t,
        )
        refl

  -- Every target has a name that can stand in the file.
  abbrev pub IsPrintable : Sightings → Type 0
  IsPrintable s = (n : Text) (t : ℕ) → lookup n s ≡ some t → IsEntry n (f.format t)

  lookup-read_sightings :
      (s acc : Sightings) (ns : List Text) (k : Text)
      → IsPrintable s
      → All (λ n. holds n s ≡ true) ns
      → lookup k (read_sightings acc (map (sighting_line s) ns))
        ≡ (if contains ns k then map_option whole (lookup k s) else lookup k acc)
  unfolding read_sightings holds
  lookup-read_sightings s acc [] k p h = refl
  lookup-read_sightings s acc (n ∷ ns) k p h = elim (Option-cases (lookup n s)) [
    | inl e ↦ ground arith
    | inr (t, e) ↦
        rw
          (
            e,
            read_sighting-entry acc n t (p n t e),
            lookup-read_sightings s (insert n (whole t) acc) ns k p h.1,
          )
          (ground (arith, e, lookup-insert k n (whole t) acc))
  ]

  lines_IsLine :
      (s : Sightings) (ns : List Text)
      → IsPrintable s
      → All (λ n. holds n s ≡ true) ns
      → All IsLine (map (sighting_line s) ns)
  unfolding holds
  lines_IsLine s [] p h = tt
  lines_IsLine s (n ∷ ns) p h = elim (Option-cases (lookup n s)) [
    | inl e ↦ ground arith
    | inr (t, e) ↦ (rw e (entry-IsLine n (f.format t) (p n t e)), lines_IsLine s ns p h.1)
  ]

  header_IsLine :
      IsLine (codes "# target\tlast seen (UTC). Advisory: losing this costs history only.")
  unfolding byte_len
  header_IsLine = (refl, refl, omega arith)

  header_skipped :
      read_sighting []
        (trim_space (codes "# target\tlast seen (UTC). Advisory: losing this costs history only."))
      ≡ []
  unfolding read_sighting trim_space cut text_eq ℕ_discrete
  header_skipped = refl

  saved_lines :
      (s : Sightings)
      → IsPrintable s
      → open_sightings (content (save s))
        ≡ some (read_sightings [] (map (sighting_line s) (sort text_leb (keys s))))
  unfolding open_sightings save read_sightings
  saved_lines s p =
      let names = sort text_leb (keys s) in
      let lines = header ++ map (sighting_line s) names in
      ap read_scanned
        (scan-unlines lines (header_IsLine, lines_IsLine s names p (sorted_keys_held s)))
      ∙ ap (λ (b : Sightings). some (read_sightings b (map (sighting_line s) names))) header_skipped

  held_or_none :
      (s : Sightings) (k : Text)
      → (if holds k s then map_option whole (lookup k s) else lookup k [])
        ≡ map_option whole (lookup k s)
  unfolding holds
  held_or_none s k = elim (Option-cases (lookup k s)) [
    | inl e ↦ let absent' : holds k s ≡ false = ground arith in rw (absent', e) (nothing k)
    | inr (t, e) ↦ let there : holds k s ≡ true = ground arith in rw (there, e) refl
  ]
    where
      nothing : (k : Text) → lookup {V = ℕ} k [] ≡ none
      nothing k = unfold lookup in refl

  -- What was saved is what the next start or a reload has: the same targets, each with the time of its
  -- last sighting in whole seconds, if each name can stand in a line of the file.
  pub reload-save :
      (s old : Sightings) (k : Text)
      → IsPrintable s
      → ((reload old (content (save s))).1 ≡ true)
        × (lookup k (reload old (content (save s))).0 ≡ map_option whole (lookup k s))
  unfolding reload
  reload-save s old k p =
      let names = sort text_leb (keys s) in
      rw (saved_lines s p) (
        refl,
        lookup-read_sightings s [] names k p (sorted_keys_held s)
            ∙ rw (contains-sort text_leb k (keys s), contains-keys k s) (held_or_none s k),
      )
