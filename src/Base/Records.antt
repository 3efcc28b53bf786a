-- ===== src/Base/Records.antt =====
-- Lines of the form `key value` in the proxy's files, and when they come back as written.
use Prim.Native.Nat.{ℕ, ◌<◌}
use mathlib.Core.Path.{◌≡◌, ◌∙◌, ap}
use mathlib.Core.Bool.{true, false}
use mathlib.Core.List.{[], ◌∷◌, ◌++◌, reverse, reverse-append, reverse-cons, append_assoc}
use native.Mathlib.Omega.{arith}
use multi_ssh.Base.Equality.{Text, text_eq}
use multi_ssh.Base.Strings.{
  byte_len, lacks, starts_with, starts_solid, trim_space, trim_space_solid,
}
use multi_ssh.Base.Scanner.{newline, space, hash_sign, max_token, skipped, IsLine}

-- A key: not empty, with no white space in front, no space or line end in it, and no comment.
pub record IsKey (k : Text) : Type 0 where
  pub solid : starts_solid k ≡ true
  pub no_comment : starts_with hash_sign k ≡ false
  pub one_word : lacks space k ≡ true
  pub no_newline : lacks newline k ≡ true
  pub no_cr : lacks 13 k ≡ true

-- A value: not empty, with no white space at either end and no line end in it.
pub record IsValue (v : Text) : Type 0 where
  pub front : starts_solid v ≡ true
  pub back : starts_solid (reverse v) ≡ true
  pub no_newline : lacks newline v ≡ true
  pub no_cr : lacks 13 v ≡ true

abbrev pub entry_line : Text → Text → Text
entry_line k v = k ++ space ∷ v

-- Both parts are as they should be, and the line fits the scanner.
pub record IsEntry (k v : Text) : Type 0 where
  pub key : IsKey k
  pub value : IsValue v
  pub short : byte_len (entry_line k v) < max_token

solid-append : (s t : Text) → starts_solid s ≡ true → starts_solid (s ++ t) ≡ true
solid-append [] t h = ground arith
solid-append (c ∷ s) t h = h

pub lacks-append :
    (c : ℕ) (s t : Text) → lacks c s ≡ true → lacks c t ≡ true → lacks c (s ++ t) ≡ true
lacks-append c [] t h k = k
lacks-append c (x ∷ s) t h k = ground (arith, lacks-append c s t)

reverse_line : (k v : Text) → reverse (entry_line k v) ≡ reverse v ++ (space ∷ [] ++ reverse k)
reverse_line k v =
    reverse-append k (space ∷ v)
    ∙ ap (λ (t : Text). t ++ reverse k) (reverse-cons space v)
    ∙ append_assoc (reverse v) (space ∷ []) (reverse k)

pub trim_space-entry :
    (k v : Text)
    → starts_solid k ≡ true
    → starts_solid (reverse v) ≡ true
    → trim_space (entry_line k v) ≡ entry_line k v
trim_space-entry k v h b =
    trim_space_solid (entry_line k v) (solid-append k _ h)
      (rw (reverse_line k v) (solid-append (reverse v) _ b))

pub skipped-entry :
    (k v : Text)
    → starts_solid k ≡ true
    → starts_with hash_sign k ≡ false
    → skipped (entry_line k v) ≡ false
skipped-entry [] v h c = ground arith
skipped-entry (x ∷ k) v h c = ground arith

pub trim_space-value : (v : Text) → IsValue v → trim_space v ≡ v
trim_space-value v h = trim_space_solid v h.front h.back

pub entry-IsLine : (k v : Text) → IsEntry k v → IsLine (entry_line k v)
entry-IsLine k v e = (
  lacks-append newline k (space ∷ v) e.key.no_newline (ground (arith, e.value.no_newline)),
  lacks-append 13 k (space ∷ v) e.key.no_cr (ground (arith, e.value.no_cr)),
  e.short,
)
