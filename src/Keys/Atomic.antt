-- ===== src/Keys/Atomic.antt =====
-- What a reader of a file sees while `WriteFileAtomic` of internal/sshx/sshx.go replaces it, and
-- after.
use multi_ssh.Base.{
  ℕ, zero, suc, ◌+◌, ◌≡◌, ◌⊎◌, inl, inr, refl, ap, ◌∙◌, false, ◌&&◌, [], ◌++◌, none, some, Text,
  ◌==◌, text_eq, lookup, insert, delete, holds, lookup-insert, lookup-delete, length, length-append,
  take, if◌then◌else◌, All, Bool-cases, arith,
}
use multi_ssh.Base.Strings.{codes}
use multi_ssh.Keys.{
  Directory, Outcome, create_fails, chmod_fails, sync_fails, close_fails, rename_fails, succeeds,
  write_fails, temp_name, writing, rename, write_file_atomic,
}

length-temp_name :
    (base drawn : Text) → length (temp_name base drawn) ≡ 6 + (length base + length drawn)
unfolding temp_name
length-temp_name base drawn =
    let a = length-append (codes ".tmp-") (base ++ (codes "-" ++ drawn)) in
    let b = length-append base (codes "-" ++ drawn) in
    let c = length-append (codes "-") drawn in omega arith

-- The temporary file has another name than the file.
pub temp_name-other : (base drawn : Text) → (base == temp_name base drawn) ≡ false
temp_name-other base drawn = elim (Bool-cases (base == temp_name base drawn)) [
  | inr no' ↦ no'
  | inl yes' ↦
      let same : base ≡ temp_name base drawn = ground arith in
      let long = length-temp_name base drawn in
      let short : length base ≡ length (temp_name base drawn) = ap length same in
      absurd (omega arith)
]

lookup-temp :
    (d : Directory) (base drawn content : Text)
    → lookup base (insert (temp_name base drawn) content d) ≡ lookup base d
lookup-temp d base drawn content =
    lookup-insert base (temp_name base drawn) content d ∙ rw (temp_name-other base drawn) refl

lookup-written :
    (d : Directory) (tmp content : Text) → lookup tmp (insert tmp content d) ≡ some content
lookup-written d tmp content = ground (arith, lookup-insert tmp tmp content d)

lookup-rename :
    (d : Directory) (base tmp content k : Text)
    → lookup k (rename tmp base (insert tmp content d))
      ≡ (if k == base then some content else if k == tmp then none else lookup k d)
lookup-rename d base tmp content k =
    let e = insert tmp content d in
    rw
      (
        lookup-written d tmp content,
        lookup-insert k base content (delete tmp e),
        lookup-delete k tmp e,
        lookup-insert k tmp content d,
      )
      (elim (Bool-cases (k == tmp)) [ inl yes' ↦ rw yes' refl | inr no' ↦ rw no' refl ])

-- A reader of the file finds all of the old content or all of the new.
abbrev pub IsWhole : Directory → Text → Text → Directory → Type 0
IsWhole d base content e = (lookup base e ≡ lookup base d) ⊎ (lookup base e ≡ some content)

writing-IsWhole :
    (d : Directory) (base drawn content : Text) (n : ℕ)
    → All (IsWhole d base content) (writing d (temp_name base drawn) content n)
writing-IsWhole d base drawn content zero = (inl (lookup-temp d base drawn []), tt)
writing-IsWhole d base drawn content (suc n) =
    (inl (lookup-temp d base drawn (take (suc n) content)), writing-IsWhole d base drawn content n)

renamed-IsWhole :
    (d : Directory) (base drawn content : Text)
    → IsWhole d base content
        (rename (temp_name base drawn) base (insert (temp_name base drawn) content d))
renamed-IsWhole d base drawn content =
    inr (ground (arith, lookup-rename d base (temp_name base drawn) content base))

-- Wherever the proxy is stopped while it writes, a reader finds the whole old file or the whole
-- new one.
pub write_file_atomic-IsWhole :
    (d : Directory) (base drawn content : Text) (o : Outcome)
    → All (IsWhole d base content) (write_file_atomic d base drawn content o).passed
unfolding write_file_atomic
write_file_atomic-IsWhole d base drawn content create_fails = tt
write_file_atomic-IsWhole d base drawn content chmod_fails = writing-IsWhole d base drawn content 0
write_file_atomic-IsWhole d base drawn content (write_fails n) =
    writing-IsWhole d base drawn content n
write_file_atomic-IsWhole d base drawn content sync_fails =
    writing-IsWhole d base drawn content (length content)
write_file_atomic-IsWhole d base drawn content close_fails =
    writing-IsWhole d base drawn content (length content)
write_file_atomic-IsWhole d base drawn content rename_fails =
    writing-IsWhole d base drawn content (length content)
write_file_atomic-IsWhole d base drawn content succeeds =
    (renamed-IsWhole d base drawn content, writing-IsWhole d base drawn content (length content))

dropped :
    (d : Directory) (tmp content k : Text)
    → holds tmp d ≡ false
    → lookup k (delete tmp (insert tmp content d)) ≡ lookup k d
unfolding holds
dropped d tmp content k fresh = elim (Bool-cases (k == tmp)) [
  | inl yes' ↦
      let at : k ≡ tmp = ground arith in
      ground (arith, lookup-delete k tmp (insert tmp content d), ap (λ (t : Text). lookup t d) at)
  | inr no' ↦
      ground (arith, lookup-delete k tmp (insert tmp content d), lookup-insert k tmp content d)
]

left_renamed :
    (d : Directory) (base tmp content k : Text)
    → holds tmp d ≡ false
    → (base == tmp) ≡ false
    → lookup k (delete tmp (rename tmp base (insert tmp content d)))
      ≡ (if k == base then some content else lookup k d)
unfolding holds
left_renamed d base tmp content k fresh other = elim (Bool-cases (k == tmp)) [
  | inl yes' ↦
      let at : k ≡ tmp = ground arith in
      ground (
        arith,
        lookup-delete k tmp (rename tmp base (insert tmp content d)),
        ap (λ (t : Text). lookup t d) at,
      )
  | inr no' ↦ ground (
    arith,
    lookup-delete k tmp (rename tmp base (insert tmp content d)),
    lookup-rename d base tmp content k,
  )
]

-- When it returns, the file holds the new content if it succeeded and is as before if it failed;
-- every other file is as before and the temporary file is gone, if that name was free.
pub write_file_atomic_lem :
    (d : Directory) (base drawn content : Text) (o : Outcome) (k : Text)
    → holds (temp_name base drawn) d ≡ false
    → let w = write_file_atomic d base drawn content o in
      lookup k w.left ≡ (if w.ok && k == base then some content else lookup k d)
unfolding write_file_atomic
write_file_atomic_lem d base drawn content create_fails k h = refl
write_file_atomic_lem d base drawn content chmod_fails k h = dropped d (temp_name base drawn) [] k h
write_file_atomic_lem d base drawn content (write_fails n) k h =
    dropped d (temp_name base drawn) (take n content) k h
write_file_atomic_lem d base drawn content sync_fails k h =
    dropped d (temp_name base drawn) (take (length content) content) k h
write_file_atomic_lem d base drawn content close_fails k h =
    dropped d (temp_name base drawn) (take (length content) content) k h
write_file_atomic_lem d base drawn content rename_fails k h =
    dropped d (temp_name base drawn) (take (length content) content) k h
write_file_atomic_lem d base drawn content succeeds k h =
    left_renamed d base (temp_name base drawn) content k h (temp_name-other base drawn)
