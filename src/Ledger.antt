-- ===== src/Ledger.antt =====
-- cmd/proxy/ledger.go: which machine owns which friendly name, in memory and in a file. Each
-- operation runs under one lock.
pub mod Lines
pub mod Store
pub mod History
use multi_ssh.Base.{
  ℕ, ◌≡◌, refl, Bool, true, false, List, [], ◌∷◌, ◌++◌, map, Option, none, some, Text, ◌==◌,
  text_eq, Dict, lookup, insert, delete, keys, holds, if◌then◌else◌, ℕ_discrete,
}
use multi_ssh.Base.Strings.{codes, cut, trim_space, byte_len}
use multi_ssh.Base.Scanner.{scan, skipped, space, newline, unlines}
use multi_ssh.Base.Records.{entry_line}
use multi_ssh.Base.Sort.{text_leb, sort}
use multi_ssh.Base.Files.{FileRead, absent, unreadable, content, Wrote, wrote, failed, left_by}

-- Friendly name to fingerprint.
abbrev pub Bindings : Type 0
Bindings = Dict Text Text

pub record Ledger : Type 0 where
  pub m : Bindings
  pub file : Option Text

-- One line of the file, trimmed.
unfoldable pub read_binding : Bindings → Text → Bindings
read_binding m line =
    let (name, fp, found) = cut space line in
    if skipped line then m else if found then insert name (trim_space fp) m else m

unfoldable pub read_bindings : Bindings → List Text → Bindings
read_bindings m [] = m
read_bindings m (line ∷ lines) = read_bindings (read_binding m (trim_space line)) lines

read_scanned : Option (List Text) → Option Bindings
read_scanned none = none
read_scanned (some lines) = some (read_bindings [] lines)

-- `none` is an error: an unreadable file, or a line too long to scan.
unfoldable pub open_ledger : FileRead → Option Bindings
unfolding read_scanned
open_ledger absent = some []
open_ledger unreadable = none
open_ledger (content t) = read_scanned (scan t)

-- The file after `appendLine`; a failure leaves it as given.
unfoldable pub append_line : Option Text → Text → Text → Wrote → Option Text
append_line none name fp w = left_by (entry_line name fp ++ newline ∷ []) w
append_line (some t) name fp w = left_by (t ++ (entry_line name fp ++ newline ∷ [])) w

claim_held : Ledger → Text → Text → Wrote → Option Text → Ledger × Bool
claim_held l name fp w (some owner) = (l, owner == fp)
claim_held l name fp w none =
    (record l { m = insert name fp l.m; file = append_line l.file name fp w }, true)

-- May the name be served for the machine with this fingerprint?
unfoldable pub claim : Ledger → Text → Text → Wrote → Ledger × Bool
unfolding claim_held
claim l name fp w = claim_held l name fp w (lookup name l.m)

-- A string from a map: the empty string if the key is missing.
abbrev pub or_empty : Option Text → Text
or_empty none = []
or_empty (some s) = s

abbrev pub header : List Text
header =
    codes "# friendly name -> agent identity fingerprint."
    ∷ codes "# Advisory: losing this costs a convenient name, never access."
    ∷ []

-- The lines that `rewrite` prints below the header.
unfoldable pub binding_lines : Bindings → List Text
binding_lines m = map (λ n. entry_line n (or_empty (lookup n m))) (sort text_leb (keys m))

unfoldable pub rewrite : Bindings → Text
rewrite m = unlines (header ++ binding_lines m)

succeeded : Wrote → Bool
succeeded wrote = true
succeeded (failed f) = false

-- Whether the name was held and the file could be written.
unfoldable pub forget : Ledger → Text → Wrote → Ledger × Bool
unfolding succeeded
forget l name w =
    if holds name l.m
    then (let m = delete name l.m in (record { m = m; file = left_by (rewrite m) w }, succeeded w))
    else (l, false)

reload_with : Ledger → Option Bindings → Ledger × Bool
reload_with l none = (l, false)
reload_with l (some fresh) = (record l { m = fresh }, true)

-- Re-reads the file; an error keeps the bindings as they are.
unfoldable pub reload : Ledger → FileRead → Ledger × Bool
unfolding reload_with
reload l r = reload_with l (open_ledger r)

reads_two :
    open_ledger (content (codes "# x\n\nlaptop  SHA256:a \nbad\nbox SHA256:b"))
    ≡ some ((codes "laptop", codes "SHA256:a") ∷ (codes "box", codes "SHA256:b") ∷ [])
unfolding open_ledger read_bindings read_binding scan cut trim_space insert text_eq ℕ_discrete
    byte_len
reads_two = refl
