-- ===== src/Ledger/Store.antt =====
-- The ledger's file (cmd/proxy/ledger.go) against the bindings in memory.
use mathlib.Core.Option.{some-injective}
use multi_ssh.Ledger.Lines.{
  read_binding-entry, read_bindings-append, read_bindings_one, IsPrintable, line_of,
  lookup-read_bindings, lines_IsLine, header-IsLine, header_skipped,
}
use multi_ssh.Base.{
  ◌≡◌, ◌↔◌, ◌⊎◌, inl, inr, refl, sym, ap, ◌∙◌, Bool, true, false, List, [], ◌∷◌, ◌++◌, map, Option,
  none, some, Text, ◌==◌, text_eq, lookup, insert, delete, keys, holds, contains-keys,
  lookup-insert, lookup-delete, if◌then◌else◌, All, All-append, Bool-cases, Option-cases, arith,
}
use multi_ssh.Base.Scanner.{scan-unlines, unlines, unlines-append, IsLine}
use multi_ssh.Base.Sort.{text_leb, sort, contains-sort, sorted_keys_held}
use multi_ssh.Base.Files.{read_of, Wrote, wrote}
use multi_ssh.Base.Records.{IsEntry, entry_line, entry-IsLine}
use multi_ssh.Ledger.{
  Bindings, Ledger, read_bindings, read_scanned, open_ledger, append_line, claim_held, claim,
  header, binding_lines, rewrite, forget, reload_with, reload,
}

-- The file that holds these lines; no file holds none.
abbrev FileOf : Option Text → List Text → Type 0
FileOf file ls = (file ≡ some (unlines ls)) ⊎ ((file ≡ none) × (ls ≡ []))

-- The file is whole lines, and reading them gives each name the fingerprint that it has in memory.
abbrev pub IsStored : Ledger → Type 0
IsStored l =
    (ls : List Text) × FileOf l.file ls
    × All IsLine ls
    × ((k : Text) → lookup k (read_bindings [] ls) ≡ lookup k l.m)

append_line-FileOf :
    (file : Option Text) (ls : List Text) (name fp : Text)
    → FileOf file ls
    → FileOf (append_line file name fp wrote) (ls ++ entry_line name fp ∷ [])
unfolding append_line unlines
append_line-FileOf none ls name fp (inl e) = cc
append_line-FileOf none ls name fp (inr (e, n)) = rw n (inl refl)
append_line-FileOf (some t) ls name fp (inl e) =
    inl (cc (unlines-append ls (entry_line name fp ∷ [])))
append_line-FileOf (some t) ls name fp (inr (e, n)) = cc

-- A claim whose line is written keeps file and memory in step.
pub claim-IsStored :
    (l : Ledger) (name fp : Text)
    → IsEntry name fp
    → IsStored l
    → IsStored (claim l name fp wrote).0
unfolding claim
claim-IsStored l name fp e s = elim (Option-cases (lookup name l.m)) [
  | inr (owner, held) ↦ rw (held, claim_held) s
  | inl free ↦
      rw (free, claim_held)
        (
          s.0 ++ entry_line name fp ∷ [],
          append_line-FileOf l.file s.0 name fp s.1,
          All-append IsLine s.0 _ s.2 (entry-IsLine name fp e, tt),
          λ k. looked k,
        )
]
  where
    looked :
        (k : Text)
        → lookup k (read_bindings [] (s.0 ++ entry_line name fp ∷ []))
          ≡ lookup k (insert name fp l.m)
    looked k =
        ap (lookup k) (read_bindings-append [] s.0 (entry_line name fp ∷ []))
        ∙ ap (lookup k) (
            read_bindings_one (read_bindings [] s.0) (entry_line name fp)
            ∙ read_binding-entry (read_bindings [] s.0) name fp e)
        ∙ lookup-insert k name fp (read_bindings [] s.0)
        ∙ ground (arith, s.3 k)
        ∙ sym (lookup-insert k name fp l.m)

-- A rewrite of printable bindings gives a file that holds them.
rewrite-IsStored :
    (m : Bindings) → IsPrintable m → IsStored (record { m = m; file = some (rewrite m) })
unfolding rewrite binding_lines
rewrite-IsStored m p =
    let names = sort text_leb (keys m) in
    (
      header ++ map (line_of m) names,
      inl refl,
      All-append IsLine header _ header-IsLine (lines_IsLine m names p (sorted_keys_held m)),
      λ k.
          ap (lookup k) (read_bindings-append [] header (map (line_of m) names))
          ∙ ap (λ (b : Bindings). lookup k (read_bindings b (map (line_of m) names))) header_skipped
          ∙ lookup-read_bindings m [] names k p (sorted_keys_held m)
          ∙ ap (λ (b : Bool). if b then lookup k m else lookup {V = Text} k [])
              (contains-sort text_leb k (keys m) ∙ contains-keys k m)
          ∙ unfold holds lookup in ground arith,
    )

pub delete-IsPrintable : (m : Bindings) (name : Text) → IsPrintable m → IsPrintable (delete name m)
delete-IsPrintable m name p k v e = p k v (ground (arith, lookup-delete k name m))

lookup_unheld :
    (m : Bindings) (name k : Text)
    → holds name m ≡ false
    → lookup k m ≡ (if k == name then none else lookup k m)
unfolding holds
lookup_unheld m name k free = ground arith

-- Forgetting a held name, with the file written, releases that name and no other, and leaves the
-- file in step; a name that is not held changes nothing.
pub forget-IsStored :
    (l : Ledger) (name : Text)
    → IsPrintable l.m
    → IsStored l
    → IsStored (forget l name wrote).0
      × ((k : Text)
          → lookup k (forget l name wrote).0.m ≡ (if k == name then none else lookup k l.m))
      × ((forget l name wrote).1 ≡ holds name l.m)
unfolding forget
forget-IsStored l name p s = elim (Bool-cases (holds name l.m)) [
  | inl held ↦ rw held (
    rewrite-IsStored (delete name l.m) (delete-IsPrintable l.m name p),
    λ k. lookup-delete k name l.m,
    refl,
  )
  | inr free ↦ rw free (s, λ k. lookup_unheld l.m name k free, refl)
]

open-FileOf :
    (file : Option Text) (ls : List Text)
    → FileOf file ls
    → All IsLine ls
    → open_ledger (read_of file) ≡ some (read_bindings [] ls)
unfolding open_ledger read_scanned
open-FileOf none ls (inl e) h = cc
open-FileOf none ls (inr (e, n)) h = rw n (unfold read_bindings in refl)
open-FileOf (some t) ls (inl e) h =
    rw (some-injective t (unlines ls) e, scan-unlines ls h, read_scanned)
open-FileOf (some t) ls (inr (e, n)) h = cc

-- A reload of a file that is in step succeeds and changes no binding.
pub reload_same :
    (l : Ledger)
    → IsStored l
    → ((reload l (read_of l.file)).1 ≡ true)
      × ((k : Text) → lookup k (reload l (read_of l.file)).0.m ≡ lookup k l.m)
unfolding reload
reload_same l s = rw (open-FileOf l.file s.0 s.1 s.2, reload_with) (refl, s.3)

-- Whom a name belongs to once a fingerprint has claimed it.
abbrev pub owner_after : Option Text → Text → Text
owner_after none fp = fp
owner_after (some owner) fp = owner

-- Who may be served under a name: a claim is granted exactly if the name is free or bound to that
-- fingerprint. Whether or not the file can be written, the name is bound afterwards, to whom it was
-- bound before if there was one and to the claimant otherwise, and no other name changes.
pub claim_lem :
    (l : Ledger) (name fp : Text) (w : Wrote)
    → (((claim l name fp w).1 ≡ true) ↔ ((lookup name l.m ≡ none) ⊎ (lookup name l.m ≡ some fp)))
      × ((k : Text)
          → lookup k (claim l name fp w).0.m
            ≡ (if k == name then some (owner_after (lookup name l.m) fp) else lookup k l.m))
unfolding claim claim_held
claim_lem l name fp w = (ground arith, λ k. ground (arith, lookup-insert k name fp l.m))
