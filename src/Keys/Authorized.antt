-- ===== src/Keys/Authorized.antt =====
-- Which keys `LoadAuthorizedKeys` of internal/sshx/sshx.go accepts.
use multi_ssh.Base.{
  ◌≡◌, refl, ap, ◌∙◌, Bool, false, ◌||◌, List, [], ◌∷◌, Option, none, some, Text, ◌==◌, text_eq,
  contains, any, Option-cases, inl, inr, arith,
}
use multi_ssh.Base.Scanner.{scan}
use multi_ssh.Base.Strings.{trim_space}
use multi_ssh.Names.{PublicKey}
use multi_ssh.Keys.{Formats, key_of, with_key, read_keys, load_authorized_keys}

abbrev is_key : Option PublicKey → PublicKey → Bool
is_key none k = false
is_key (some pk) k = k == pk

module _ {Signer : Type 0} (f : Formats Signer) where
  -- A line that says the key: no comment, and not one that cannot be read.
  abbrev pub says : PublicKey → Text → Bool
  says k line = is_key (key_of f (trim_space line)) k

  contains-with_key :
      (o : Option PublicKey) (set : List PublicKey) (k : PublicKey)
      → contains (with_key f o set) k ≡ (is_key o k || contains set k)
  contains-with_key none set k = refl
  contains-with_key (some pk) set k = ground arith

  contains-read_keys :
      (lines : List Text) (k : PublicKey) → contains (read_keys f lines) k ≡ any (says k) lines
  unfolding read_keys
  contains-read_keys [] k = refl
  contains-read_keys (line ∷ lines) k =
      contains-with_key (key_of f (trim_space line)) (read_keys f lines) k
      ∙ ap (λ b. is_key (key_of f (trim_space line)) k || b) (contains-read_keys lines k)

  -- A key is accepted by a set that was loaded.
  abbrev pub accepted : Option (List PublicKey) → PublicKey → Bool
  accepted none k = false
  accepted (some set) k = contains set k

  -- Some line of the file says the key.
  abbrev pub stands_in : Option Text → PublicKey → Bool
  stands_in none k = false
  stands_in (some content) k = in_lines (scan content)
    where
      in_lines : Option (List Text) → Bool
      in_lines none = false
      in_lines (some lines) = any (says k) lines

  -- Exactly the keys that a line of the file says are accepted; a comment, a blank line or a line
  -- that cannot be read accepts nothing and takes nothing away, and a file that is missing or has a
  -- line too long for the scanner accepts nothing at all.
  pub load_authorized_keys_iff :
      (file : Option Text) (k : PublicKey)
      → accepted (load_authorized_keys f file) k ≡ stands_in file k
  unfolding load_authorized_keys
  load_authorized_keys_iff none k = refl
  load_authorized_keys_iff (some content) k = elim (Option-cases (scan content)) [
    | inl e ↦ rw e refl
    | inr (lines, e) ↦ rw e (contains-read_keys lines k)
  ]
