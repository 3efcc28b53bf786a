-- ===== src/Ledger/Lines.antt =====
-- The lines of the ledger's file (cmd/proxy/ledger.go), written and read back.
use multi_ssh.Base.{
  ◌≡◌, inl, inr, refl, true, List, [], ◌∷◌, ◌++◌, map, some, Text, text_eq, lookup, insert, holds,
  contains, lookup-insert, if◌then◌else◌, All, ℕ_discrete, Option-cases, arith,
}
use multi_ssh.Base.Strings.{cut, trim_space, cut_at, byte_len}
use multi_ssh.Base.Scanner.{space, IsLine}
use multi_ssh.Base.Records.{
  IsEntry, entry_line, trim_space-entry, skipped-entry, trim_space-value, entry-IsLine,
}
use multi_ssh.Ledger.{Bindings, read_binding, read_bindings, or_empty, header}

pub read_binding-entry :
    (m : Bindings) (k v : Text)
    → IsEntry k v
    → read_binding m (trim_space (entry_line k v)) ≡ insert k v m
unfolding read_binding
read_binding-entry m k v e = rw (
  trim_space-entry k v e.key.solid e.value.back,
  cut_at space k v e.key.one_word,
  skipped-entry k v e.key.solid e.key.no_comment,
  trim_space-value v e.value,
)

pub read_bindings-append :
    (m : Bindings) (ls more : List Text)
    → read_bindings m (ls ++ more) ≡ read_bindings (read_bindings m ls) more
unfolding read_bindings
read_bindings-append m [] more = refl
read_bindings-append m (l ∷ ls) more = read_bindings-append (read_binding m (trim_space l)) ls more

-- Every binding can be written so that it reads back.
abbrev pub IsPrintable : Bindings → Type 0
IsPrintable m = (k v : Text) → lookup k m ≡ some v → IsEntry k v

abbrev pub line_of : Bindings → Text → Text
line_of m n = entry_line n (or_empty (lookup n m))

pub lookup-read_bindings :
    (m acc : Bindings) (ns : List Text) (k : Text)
    → IsPrintable m
    → All (λ n. holds n m ≡ true) ns
    → lookup k (read_bindings acc (map (line_of m) ns))
      ≡ (if contains ns k then lookup k m else lookup k acc)
unfolding read_bindings holds
lookup-read_bindings m acc [] k p h = refl
lookup-read_bindings m acc (n ∷ ns) k p h = elim (Option-cases (lookup n m)) [
  | inl e ↦ ground arith
  | inr (v, e) ↦
      rw
        (
          e,
          read_binding-entry acc n v (p n v e),
          lookup-read_bindings m (insert n v acc) ns k p h.1,
        )
        (ground (arith, e, lookup-insert k n v acc))
]

pub lines_IsLine :
    (m : Bindings) (ns : List Text)
    → IsPrintable m
    → All (λ n. holds n m ≡ true) ns
    → All IsLine (map (line_of m) ns)
unfolding holds
lines_IsLine m [] p h = tt
lines_IsLine m (n ∷ ns) p h = elim (Option-cases (lookup n m)) [
  | inl e ↦ ground arith
  | inr (v, e) ↦ (rw e (entry-IsLine n v (p n v e)), lines_IsLine m ns p h.1)
]

pub header-IsLine : All IsLine header
unfolding byte_len
header-IsLine = ((refl, refl, omega arith), ((refl, refl, omega arith), tt))

pub header_skipped : read_bindings [] header ≡ []
unfolding read_bindings read_binding trim_space cut text_eq ℕ_discrete
header_skipped = refl

pub read_bindings_one :
    (m : Bindings) (line : Text) → read_bindings m (line ∷ []) ≡ read_binding m (trim_space line)
unfolding read_bindings
read_bindings_one m line = refl
