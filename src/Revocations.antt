-- ===== src/Revocations.antt =====
-- cmd/proxy/revoke.go: the barred identity fingerprints, their file, and the sweep that drops
-- connected agents.
pub mod FailClosed
pub mod Store
pub mod Commands
pub mod Sweep
use multi_ssh.Base.{
  ℕ, ◌+◌, ◌≡◌, refl, Bool, true, false, List, [], ◌∷◌, ◌++◌, map, Option, none, some, Text, ◌==◌,
  text_eq, Dict, lookup, insert, delete, keys, holds, eqb, if◌then◌else◌, length, contains,
  ℕ_discrete,
}
use multi_ssh.Base.Strings.{codes, cut, cut_prefix, trim_space, byte_len}
use multi_ssh.Base.Scanner.{scan, skipped, space, unlines}
use multi_ssh.Base.Sort.{text_leb, sort}
use multi_ssh.Base.Files.{FileRead, absent, unreadable, content}
use multi_ssh.Base.Records.{entry_line}
use multi_ssh.Registry.{Registry, connections}

-- Fingerprint to note.
abbrev pub Barred : Type 0
Barred = Dict Text Text

pub record Revocations : Type 0 where
  pub m : Barred
  -- size and modification time of the file that was read, or nothing
  pub stamp : Option (ℕ × ℕ)

long_enough : Option Text → Bool
long_enough none = false
long_enough (some body) = eqb (byte_len body) 43

-- Is this what OpenSSH prints? `false` is the error.
unfoldable pub valid_fingerprint : Text → Bool
unfolding long_enough
valid_fingerprint fp = long_enough (cut_prefix (codes "SHA256:") fp)

-- One line of the file, trimmed; `none` is a malformed entry.
unfoldable pub read_entry : Barred → Text → Option Barred
read_entry m line =
    let (fp, note, found) = cut space line in
    if skipped line
    then some m
    else if valid_fingerprint fp
    then some (insert fp (trim_space note) m)
    else none

infixl 5 ◌>>=◌
abbrev pub ◌>>=◌ : {A B : Type 0} → Option A → (A → Option B) → Option B
none >>= f = none
some a >>= f = f a

unfoldable pub read_entries : Barred → List Text → Option Barred
read_entries m [] = some m
read_entries m (line ∷ lines) = do m' ← read_entry m (trim_space line); read_entries m' lines

unfoldable pub read_revocations : FileRead → Option Barred
read_revocations absent = some []
read_revocations unreadable = none
read_revocations (content t) = do lines ← scan t; read_entries [] lines

-- What `os.Stat` answers.
pub data Stat : Type 0 where
  gone : Stat
  stat_failed : Stat
  found : ℕ → ℕ → Stat

pub data Reloaded : Type 0 where
  unchanged changed error : Reloaded

stamp_of : Stat → Option (ℕ × ℕ)
stamp_of (found size mtime) = some (size, mtime)
stamp_of _ = none

same_stamp : Option (ℕ × ℕ) → Option (ℕ × ℕ) → Bool
same_stamp none none = true
same_stamp none (some t) = false
same_stamp (some s) none = false
same_stamp (some (a, b)) (some (c, d)) = if eqb a c then eqb b d else false

adopt : Revocations → Option (ℕ × ℕ) → Option Barred → Revocations × Reloaded
adopt r stamp none = (r, error)
adopt r stamp (some m) = (record { m = m; stamp = stamp }, changed)

reload_at : Revocations → Option (ℕ × ℕ) → FileRead → Revocations × Reloaded
unfolding same_stamp adopt
reload_at r stamp file =
    if same_stamp stamp r.stamp then (r, unchanged) else adopt r stamp (read_revocations file)

-- Re-reads the file if it has changed; an error keeps the set as it is.
unfoldable pub reload : Revocations → Stat → FileRead → Revocations × Reloaded
unfolding reload_at stamp_of
reload r stat_failed file = (r, error)
reload r stat file = reload_at r (stamp_of stat) file

opened : Revocations × Reloaded → Option Revocations
opened (r, error) = none
opened (r, done) = some r

-- At startup; `none` is fatal.
unfoldable pub open_revocations : Stat → FileRead → Option Revocations
unfolding opened
open_revocations stat file = opened (reload (record { m = []; stamp = none }) stat file)

-- The note recorded with a fingerprint, if it is barred.
unfoldable pub revoked : Revocations → Text → Option Text
revoked r fp = lookup fp r.m

unfoldable pub count : Revocations → ℕ
count r = length r.m

sweep_over : Revocations → Dict ℕ Text → List ℕ
sweep_over r [] = []
sweep_over r ((conn, fp) ∷ cs) =
    let rest = sweep_over r cs in elim (revoked r fp) [ some note ↦ conn ∷ rest | none ↦ rest ]

-- The connections that a sweep closes.
unfoldable pub sweep : Revocations → Registry → List ℕ
unfolding sweep_over
sweep r reg = if eqb (count r) 0 then [] else sweep_over r (connections reg)

swept : Registry → Revocations × Reloaded → Revocations × List ℕ
swept reg (r, error) = (r, [])
swept reg (r, done) = (r, sweep r reg)

-- One tick of `watch`: the set from then on, and the connections that are closed.
unfoldable pub tick : Revocations → Registry → Stat → FileRead → Revocations × List ℕ
unfolding swept
tick r reg stat file = swept reg (reload r stat file)

-- A string from a map: the empty string if the key is missing.
abbrev or_empty : Option Text → Text
or_empty none = []
or_empty (some s) = s

abbrev pub header : List Text
header =
    codes "# multiSSH revoked agent identity keys, one SHA256 fingerprint per line."
    ∷ codes "#"
    ∷ codes "# NOT advisory, unlike friendly_labels and last_seen: losing this file"
    ∷ codes "# un-revokes every entry below. Back it up alongside proxy_ca_key."
    ∷ codes "#"
    ∷ codes "# Edit with -revoke / -unrevoke; a running proxy re-reads it on its own."
    ∷ []

-- What `writeRevocations` writes.
unfoldable pub write_revocations : Barred → Text
write_revocations m =
    unlines (header ++ map (λ fp. entry_line fp (or_empty (lookup fp m))) (sort text_leb (keys m)))

pub data Managed : Type 0 where
  listed : List (Text × Text) → Managed
  not_revoked : Managed
  unrevoked : Managed
  bad_fingerprint : Managed
  already_revoked : Managed
  revoked_now : Managed
  io_error : Managed

-- The outcome, and the new content of the file if it is replaced.
abbrev pub Outcome : Type 0
Outcome = Managed × Option Text

-- `writeRevocations` and the report after it; the flag says whether the atomic write succeeds.
write_then : Bool → Barred → Managed → Outcome
write_then true m done = (done, some (write_revocations m))
write_then false m done = (io_error, none)

-- The branch for -revoke. `today` is the default note.
revoke : Barred → Text → Text → Text → Bool → Outcome
unfolding write_then
revoke m fp note today written =
    if valid_fingerprint fp
    then (if holds fp m
        then (already_revoked, none)
        else write_then written (insert fp (if note == [] then today else note) m) revoked_now)
    else (bad_fingerprint, none)

-- The branch for -unrevoke.
unrevoke : Barred → Text → Bool → Outcome
unfolding write_then
unrevoke m fp written =
    if holds fp m then write_then written (delete fp m) unrevoked else (not_revoked, none)

manage : Bool → Text → Text → Text → Text → Bool → Option Barred → Outcome
unfolding revoke unrevoke
manage list add remove note today written none = (io_error, none)
manage list add remove note today written (some m) =
    if list
    then (listed (map (λ fp. (fp, or_empty (lookup fp m))) (sort text_leb (keys m))), none)
    else if remove == []
    then revoke m add note today written
    else unrevoke m remove written

-- -list-revoked, -unrevoke and -revoke, in this order of precedence.
unfoldable pub manage_revocations : FileRead → Bool → Text → Text → Text → Text → Bool → Outcome
unfolding manage
manage_revocations file list add remove note today written =
    manage list add remove note today written (read_revocations file)

abbrev pub sample_fp : Text
sample_fp = codes "SHA256:abcdefghijklmnopqrstuvwxyz0123456789ABCDEFG"

sample_valid : valid_fingerprint sample_fp ≡ true
unfolding valid_fingerprint cut_prefix byte_len
sample_valid = refl

malformed_file : read_revocations (content (codes "SHA256:short stolen")) ≡ none
unfolding read_revocations read_entries read_entry valid_fingerprint cut_prefix byte_len scan cut
    trim_space text_eq ℕ_discrete
malformed_file = refl
