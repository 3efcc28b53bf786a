-- ===== src/Base/Files.antt =====
-- Files as the program reads and writes them. What the operating system answers is an argument.
use mathlib.Core.Option.{Option, none, some}
use multi_ssh.Base.Equality.{Text}

-- What an attempt to read a file meets.
pub data FileRead : Type 0 where
  absent : FileRead
  unreadable : FileRead
  content : Text → FileRead

-- What became of a write: all of it, or an error that leaves the file as given.
pub data Wrote : Type 0 where
  wrote : Wrote
  failed : Option Text → Wrote

-- A file that can be read.
abbrev pub read_of : Option Text → FileRead
read_of none = absent
read_of (some t) = content t

-- The file after a write of the new content.
abbrev pub left_by : Text → Wrote → Option Text
left_by t wrote = some t
left_by t (failed f) = f
