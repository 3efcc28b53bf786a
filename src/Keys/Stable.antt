-- ===== src/Keys/Stable.antt =====
-- A machine keeps its key over its runs: `LoadOrCreateHostKey` of internal/sshx/sshx.go.
use mathlib.Core.Option.{none-ne-some, some-injective}
use multi_ssh.Base.{
  ◌≡◌, refl, ap, ◌∙◌, Bool, true, false, Option, none, some, Text, text_eq, lookup, holds,
  Bool-cases, inl, inr, arith,
}
use multi_ssh.Keys.{
  Directory, Outcome, Written, temp_name, write_file_atomic, Formats, created, found,
  load_or_create_host_key,
}
use multi_ssh.Keys.Atomic.{write_file_atomic_lem}

module _ {Signer : Type 0} (f : Formats Signer) where
  loaded_again :
      (d : Directory) (base drawn content : Text) (k : Signer) (o : Outcome)
      → lookup base d ≡ some content
      → (found f d base drawn k o (lookup base d)).0 ≡ f.parse_private content
  unfolding found
  loaded_again d base drawn content k o e = rw e refl

  created_ok :
      (k had : Signer) (w : Written) → (created f k w).0 ≡ some had → (w.ok ≡ true) × (k ≡ had)
  created_ok k had w h = elim (Bool-cases w.ok) [
    | inl yes' ↦ (yes', some-injective k had (rw yes' at h))
    | inr no' ↦ absurd (none-ne-some had (rw no' at h))
  ]

  written_lem :
      (d : Directory) (base drawn content : Text) (o : Outcome)
      → holds (temp_name base drawn) d ≡ false
      → (write_file_atomic d base drawn content o).ok ≡ true
      → lookup base (write_file_atomic d base drawn content o).left ≡ some content
  written_lem d base drawn content o fresh ok =
      ground (arith, write_file_atomic_lem d base drawn content o base fresh)

  found_stable :
      ((k : Signer) → f.parse_private (f.encode_private k) ≡ some k)
      → (d : Directory) (base drawn drawn' : Text) (k k' had : Signer) (o o' : Outcome)
        (opt : Option Text)
      → lookup base d ≡ opt
      → holds (temp_name base drawn) d ≡ false
      → (found f d base drawn k o opt).0 ≡ some had
      → let e = (found f d base drawn k o opt).1 in
        (found f e base drawn' k' o' (lookup base e)).0 ≡ some had
  unfolding found
  found_stable rt d base drawn drawn' k k' had o o' none at fresh h =
      let w = write_file_atomic d base drawn (f.encode_private k) o in
      let (ok, same) = created_ok k had w h in
      loaded_again w.left base drawn' (f.encode_private k) k' o'
        (written_lem d base drawn (f.encode_private k) o fresh ok)
      ∙ rt k
      ∙ ap some same
  found_stable rt d base drawn drawn' k k' had o o' (some content) at fresh h =
      loaded_again d base drawn' content k' o' at ∙ h

  -- Once a run has its key, a later run that can read the file has the same key, whatever it would
  -- draw: the key that was there, or the one that was created and written.
  pub load_or_create_stable :
      ((k : Signer) → f.parse_private (f.encode_private k) ≡ some k)
      → (d : Directory) (base drawn drawn' : Text) (readable : Bool) (k k' had : Signer)
        (o o' : Outcome)
      → holds (temp_name base drawn) d ≡ false
      → (load_or_create_host_key f d base readable drawn k o).0 ≡ some had
      → (load_or_create_host_key f
          (load_or_create_host_key f d base readable drawn k o).1
          base
          true
          drawn'
          k'
          o').0
        ≡ some had
  unfolding load_or_create_host_key
  load_or_create_stable rt d base drawn drawn' false k k' had o o' fresh h =
      absurd (none-ne-some had h)
  load_or_create_stable rt d base drawn drawn' true k k' had o o' fresh h =
      found_stable rt d base drawn drawn' k k' had o o' (lookup base d) refl fresh h
