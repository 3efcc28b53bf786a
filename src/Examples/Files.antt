-- ===== src/Examples/Files.antt =====
-- The files of internal/sshx/sshx.go, by example.
use multi_ssh.Base.{
  ◌≡◌, refl, true, false, ◌&&◌, [], ◌∷◌, some, Text, ◌==◌, text_eq, ℕ_discrete, lookup, holds,
  if◌then◌else◌, All,
}
use multi_ssh.Base.Strings.{codes}
use multi_ssh.Keys.{
  Formats, Directory, succeeds, write_fails, temp_name, write_file_atomic, load_or_create_host_key,
}
use multi_ssh.Keys.Atomic.{IsWhole, write_file_atomic-IsWhole, write_file_atomic_lem}
use multi_ssh.Keys.Stable.{load_or_create_stable}

-- A key is its own form.
abbrev pub toy_formats : Formats Text
toy_formats = record {
  encode_private = λ k. k;
  parse_private = λ t. some t;
  parse_authorized_key = λ line. some line;
}

abbrev old : Directory
old = (codes "revoked", codes "a\n") ∷ []

write_file_atomic-IsWhole_example :
    All
      (IsWhole old (codes "revoked") (codes "a\nb\n"))
      (write_file_atomic old (codes "revoked") (codes "42") (codes "a\nb\n") (write_fails 3)).passed
write_file_atomic-IsWhole_example =
    write_file_atomic-IsWhole old (codes "revoked") (codes "42") (codes "a\nb\n") (write_fails 3)

free : holds (temp_name (codes "revoked") (codes "42")) old ≡ false
unfolding temp_name holds lookup text_eq ℕ_discrete
free = refl

write_file_atomic_lem_example :
    let w = write_file_atomic old (codes "revoked") (codes "42") (codes "a\nb\n") succeeds in
    lookup (codes "revoked") w.left ≡ (
      if w.ok && codes "revoked" == codes "revoked"
      then some (codes "a\nb\n")
      else lookup (codes "revoked") old)
write_file_atomic_lem_example =
    write_file_atomic_lem old (codes "revoked") (codes "42") (codes "a\nb\n") succeeds
      (codes "revoked") free

unused : holds (temp_name (codes "host_key") (codes "42")) old ≡ false
unfolding temp_name holds lookup text_eq ℕ_discrete
unused = refl

first_run :
    (load_or_create_host_key toy_formats old
      (codes "host_key")
      true
      (codes "42")
      (codes "k1")
      succeeds).0
    ≡ some (codes "k1")
unfolding load_or_create_host_key lookup text_eq ℕ_discrete
first_run = refl

load_or_create_stable_example :
    (load_or_create_host_key toy_formats
      (load_or_create_host_key toy_formats old
        (codes "host_key")
        true
        (codes "42")
        (codes "k1")
        succeeds).1
      (codes "host_key")
      true
      (codes "43")
      (codes "k2")
      succeeds).0
    ≡ some (codes "k1")
load_or_create_stable_example =
    load_or_create_stable toy_formats (λ k. refl) old (codes "host_key") (codes "42") (codes "43")
      true (codes "k1") (codes "k2") (codes "k1") succeeds succeeds unused first_run
