-- ===== src/Revocations/Commands.antt =====
-- The commands -revoke and -unrevoke of cmd/proxy/revoke.go against the file that they leave.
use mathlib.Core.Path.{subst₂}
use multi_ssh.Base.{
  ◌≡◌, ◌≢◌, refl, sym, ◌⊎◌, inl, inr, Bool, true, false, [], none, some, Text, ◌==◌, text_eq,
  insert, delete, holds, lookup-insert, lookup-delete, if◌then◌else◌, Option-cases, Bool-cases,
  arith,
}
use multi_ssh.Base.Files.{FileRead, content}
use multi_ssh.Revocations.{
  Barred, valid_fingerprint, read_revocations, write_revocations, unrevoked, revoked_now, manage,
  manage_revocations,
}
use multi_ssh.Revocations.Store.{IsPrinted, IsPrintable, ReadsAs, read-write_revocations}

-- The note that is recorded: the one given, or the default.
abbrev pub note_or : Text → Text → Text
note_or note today = if note == [] then today else note

pub insert-IsPrintable :
    (m : Barred) (fp note : Text)
    → IsPrintable m
    → IsPrinted fp note
    → IsPrintable (insert fp note m)
insert-IsPrintable m fp note p q k v e = elim (Bool-cases (k == fp)) [
  | inl same ↦
      let at : k ≡ fp = ground arith in
      let is : note ≡ v = ground (arith, lookup-insert k fp note m) in
      subst₂ IsPrinted (sym at) is q
  | inr other ↦ p k v (ground (arith, lookup-insert k fp note m))
]

delete-IsPrintable : (m : Barred) (fp : Text) → IsPrintable m → IsPrintable (delete fp m)
delete-IsPrintable m fp p k v e = p k v (ground (arith, lookup-delete k fp m))

-- After -revoke of a fingerprint that is not barred yet, with the file written, the file reads back
-- as the set with that fingerprint added and nothing else changed: if the fingerprint is valid and
-- has no space or line end in it, if the note that is stored is not empty, has no white space at
-- either end and no line end in it, if the line is not too long to scan, and if all this holds as
-- well of the entries that stood in the file before.
pub revoke_lem :
    (file : FileRead) (m : Barred) (fp note today : Text)
    → read_revocations file ≡ some m
    → IsPrintable m
    → IsPrinted fp (note_or note today)
    → holds fp m ≡ false
    → (t : Text) × (manage_revocations file false fp [] note today true ≡ (revoked_now, some t))
      × ReadsAs (read_revocations (content t)) (insert fp (note_or note today) m)
unfolding manage_revocations
revoke_lem file m fp note today e p q new =
    let m' = insert fp (note_or note today) m in
    (
      write_revocations m',
      rw (e, manage) (ground (arith, q.valid, new)),
      read-write_revocations m' (insert-IsPrintable m fp (note_or note today) p q),
    )

-- After -unrevoke of a barred fingerprint, with the file written, the file reads back as the set
-- without it and nothing else changed.
pub unrevoke_lem :
    (file : FileRead) (m : Barred) (add fp note today : Text)
    → read_revocations file ≡ some m
    → IsPrintable m
    → fp ≢ []
    → holds fp m ≡ true
    → (t : Text) × (manage_revocations file false add fp note today true ≡ (unrevoked, some t))
      × ReadsAs (read_revocations (content t)) (delete fp m)
unfolding manage_revocations
unrevoke_lem file m add fp note today e p given held =
    let m' = delete fp m in
    (
      write_revocations m',
      rw (e, manage) (ground (arith, held, given)),
      read-write_revocations m' (delete-IsPrintable m fp p),
    )

manage_error :
    (list : Bool) (add remove note today : Text) (written : Bool) (t : Text)
    → (manage list add remove note today written none).1 ≡ some t
    → ⊥
unfolding manage
manage_error list add remove note today written t h = cc

-- What a written file holds.
abbrev pub Changes : Barred → Text → Text → Text → Text → Text → Type 0
Changes m add remove note today t =
    ((remove ≢ []) × (holds remove m ≡ true) × (t ≡ write_revocations (delete remove m)))
    ⊎ ((remove ≡ [])
        × (valid_fingerprint add ≡ true)
        × (holds add m ≡ false)
        × (t ≡ write_revocations (insert add (note_or note today) m)))

manage-some :
    (list : Bool) (add remove note today : Text) (written : Bool) (m : Barred) (t : Text)
    → (manage list add remove note today written (some m)).1 ≡ some t
    → (list ≡ false) × (written ≡ true) × Changes m add remove note today t
unfolding manage
manage-some true add remove note today written m t h = cc
manage-some false add remove note today false m t h = absurd (ground arith)
manage-some false add remove note today true m t h = (refl, refl, ground arith)

-- No command writes unless it adds or lifts an entry: with an unreadable or malformed file, a
-- malformed fingerprint, one that is barred already, or a failed write, the file stays as it is.
pub manage_writes :
    (file : FileRead) (list : Bool) (add remove note today : Text) (written : Bool) (t : Text)
    → (manage_revocations file list add remove note today written).1 ≡ some t
    → (m : Barred) × (read_revocations file ≡ some m)
      × (list ≡ false)
      × (written ≡ true)
      × Changes m add remove note today t
unfolding manage_revocations
manage_writes file list add remove note today written t h =
    elim (Option-cases (read_revocations file)) [
      | inl e ↦ absurd (manage_error list add remove note today written t (rw (e, manage) at h))
      | inr (m, e) ↦
          let (l, w, rest) =
            manage-some list add remove note today written m t (rw (e, manage) at h) in
          (m, e, l, w, rest)
    ]
