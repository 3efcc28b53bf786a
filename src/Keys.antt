-- ===== src/Keys.antt =====
-- The files of internal/sshx/sshx.go: `WriteFileAtomic`, `LoadOrCreateHostKey` and
-- `LoadAuthorizedKeys`. A directory is a map from the names in it to what the files hold. What the
-- operating system answers is an argument, and so are the formats of `golang.org/x/crypto/ssh`.
pub mod Atomic
pub mod Authorized
pub mod Stable
use multi_ssh.Base.{
  ℕ, zero, suc, ◌≡◌, refl, Bool, true, false, ◌||◌, List, [], ◌∷◌, ◌++◌, map, Option, none, some,
  Text, text_eq, Dict, lookup, insert, delete, take, length, if◌then◌else◌,
}
use multi_ssh.Base.Strings.{codes, trim_space}
use multi_ssh.Base.Scanner.{scan, skipped}
use multi_ssh.Names.{PublicKey}

abbrev pub Directory : Type 0
Directory = Dict Text Text

-- Which call of `WriteFileAtomic` fails, if any; a failing write may have written a part.
pub data Outcome : Type 0 where
  create_fails chmod_fails sync_fails close_fails rename_fails succeeds : Outcome
  write_fails : ℕ → Outcome

-- The name that `os.CreateTemp` makes from the pattern, with what it draws.
unfoldable pub temp_name : Text → Text → Text
temp_name base drawn = codes ".tmp-" ++ (base ++ (codes "-" ++ drawn))

-- The directory while the first `n` characters are written, one more at a time.
abbrev pub writing : Directory → Text → Text → ℕ → List Directory
writing d tmp data' zero = insert tmp [] d ∷ []
writing d tmp data' (suc n) = insert tmp (take (suc n) data') d ∷ writing d tmp data' n

abbrev pub moved : Directory → Text → Text → Option Text → Directory
moved d tmp base none = d
moved d tmp base (some content) = insert base content (delete tmp d)

-- `os.Rename`
abbrev pub rename : Text → Text → Directory → Directory
rename tmp base d = moved d tmp base (lookup tmp d)

-- Whether the write succeeds, the directory that it leaves, and the directories that it passes
-- through, any of which a crash may leave.
pub record Written : Type 0 where
  pub ok : Bool
  pub left : Directory
  pub passed : List Directory

abbrev failed_at : Directory → Text → Text → ℕ → Written
failed_at d tmp data' n = record {
  ok = false;
  left = delete tmp (insert tmp (take n data') d);
  passed = writing d tmp data' n;
}

unfoldable pub write_file_atomic : Directory → Text → Text → Text → Outcome → Written
unfolding temp_name
write_file_atomic d base drawn data' create_fails = record { ok = false; left = d; passed = [] }
write_file_atomic d base drawn data' chmod_fails = failed_at d (temp_name base drawn) data' 0
write_file_atomic d base drawn data' (write_fails n) = failed_at d (temp_name base drawn) data' n
write_file_atomic d base drawn data' sync_fails =
    failed_at d (temp_name base drawn) data' (length data')
write_file_atomic d base drawn data' close_fails =
    failed_at d (temp_name base drawn) data' (length data')
write_file_atomic d base drawn data' rename_fails =
    failed_at d (temp_name base drawn) data' (length data')
write_file_atomic d base drawn data' succeeds =
    let tmp = temp_name base drawn in
    record {
      ok = true;
      left = delete tmp (rename tmp base (insert tmp data' d));
      passed = rename tmp base (insert tmp data' d) ∷ writing d tmp data' (length data');
    }

-- The formats of keys: a private key as PKCS#8 in PEM, and a line of an authorized_keys file.
pub record Formats (Signer : Type 0) : Type 0 where
  pub encode_private : Signer → Text
  pub parse_private : Text → Option Signer
  pub parse_authorized_key : Text → Option PublicKey

module _ {Signer : Type 0} (f : Formats Signer) where
  abbrev created : Signer → Written → Option Signer × Directory
  created k w = (if w.ok then some k else none, w.left)

  abbrev found :
      Directory → Text → Text → Signer → Outcome → Option Text → Option Signer × Directory
  unfolding write_file_atomic
  found d base drawn k o none = created k (write_file_atomic d base drawn (f.encode_private k) o)
  found d base drawn k o (some content) = (f.parse_private content, d)

  -- `readable` says whether a file that is there can be read, `k` is the key that is drawn where
  -- none is there.
  unfoldable pub load_or_create_host_key :
      Directory → Text → Bool → Text → Signer → Outcome → Option Signer × Directory
  unfolding found
  load_or_create_host_key d base readable drawn k o =
      if readable then found d base drawn k o (lookup base d) else (none, d)

  abbrev with_key : Option PublicKey → List PublicKey → List PublicKey
  with_key none set = set
  with_key (some pk) set = pk ∷ set

  abbrev pub key_of : Text → Option PublicKey
  key_of line = if skipped line then none else f.parse_authorized_key line

  unfoldable pub read_keys : List Text → List PublicKey
  unfolding trim_space
  read_keys [] = []
  read_keys (line ∷ lines) = with_key (key_of (trim_space line)) (read_keys lines)

  -- The scanner's error, on a line that is too long, is the function's.
  unfoldable pub load_authorized_keys : Option Text → Option (List PublicKey)
  unfolding read_keys scan
  load_authorized_keys none = none
  load_authorized_keys (some content) = keys_in (scan content)
    where
      keys_in : Option (List Text) → Option (List PublicKey)
      keys_in none = none
      keys_in (some lines) = some (read_keys lines)
