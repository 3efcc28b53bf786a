-- ===== src/Enroll/Passwords.antt =====
-- Which enrolment passwords cmd/proxy/enroll.go accepts, and what the commands leave in their file.
use multi_ssh.Base.{
  ℕ, ◌+◌, ◌≡◌, ◌≢◌, ◌≤◌, ◌⊎◌, inl, inr, refl, ap, ◌∙◌, Bool, true, false, not, ◌&&◌, ◌||◌, List, [],
  ◌∷◌, ◌++◌, Option, none, some, Text, text_eq, ltb, if◌then◌else◌, any, filter, Bool-cases, arith,
}
use multi_ssh.Base.Strings.{byte_len}
use multi_ssh.Names.{Bytes}
use multi_ssh.Enroll.{
  Password, Library, expired, compare_hash, matches, salted, new_password, find_password, Typed,
  removed, created, no_such_password, write_then, named, Confirmed, confirmed, second_unread,
  second_differs, confirm, add_made, create, enter_secret, manage, manage_passwords,
}

abbrev pub good : Library → ℕ → Text → Password → Bool
good lib now candidate p = matches lib p candidate && not (expired p now)

abbrev pub is_some : Option Text → Bool
is_some none = false
is_some (some name) = true

find_password-any :
    (lib : Library) (now : ℕ) (candidate : Text) (ps : List Password) (used : Option Text)
    → is_some (find_password lib now candidate ps used)
      ≡ (is_some used || any (good lib now candidate) ps)
unfolding find_password
find_password-any lib now candidate [] used = ground arith
find_password-any lib now candidate (p ∷ ps) used = ground (
  arith,
  find_password-any lib now candidate ps used,
  find_password-any lib now candidate ps (some p.name),
)

-- A candidate is let in exactly if one of the stored passwords has its hash and has not expired,
-- wherever it stands and whatever comes after it.
pub find_password_lem :
    (lib : Library) (now : ℕ) (candidate : Text) (ps : List Password)
    → is_some (find_password lib now candidate ps none) ≡ any (good lib now candidate) ps
find_password_lem lib now candidate ps = find_password-any lib now candidate ps none

-- A new password matches the secret it was made of.
matches-salted :
    (lib : Library) (salt : Bytes) (now : ℕ) (name secret : Text) (lifetime : ℕ)
    → matches lib (salted lib salt now name secret lifetime) secret ≡ true
unfolding matches compare_hash
matches-salted lib salt now name secret lifetime =
    rw (lib.decode-encode64 salt, lib.decode-encode64 (lib.id_key secret salt)) (ground arith)

-- Not before its lifetime is over does it expire, and never without one.
expired-salted :
    (lib : Library) (salt : Bytes) (now later : ℕ) (name secret : Text) (lifetime : ℕ)
    → (lifetime ≡ 0) ⊎ (later ≤ now + lifetime)
    → expired (salted lib salt now name secret lifetime) later ≡ false
unfolding expired
expired-salted lib salt now later name secret lifetime h = ground arith

any-last :
    (f : Password → Bool) (ps : List Password) (p : Password)
    → f p ≡ true
    → any f (ps ++ p ∷ []) ≡ true
any-last f [] p h = ground arith
any-last f (q ∷ ps) p h = ground (arith, any-last f ps p h)

any-filter-not :
    (f : Password → Bool) (ps : List Password) → any f (filter (λ p. not (f p)) ps) ≡ false
any-filter-not f [] = refl
any-filter-not f (p ∷ ps) = ground (arith, any-filter-not f ps)

-- What a report of success says of the branch taken.
record IsCreated (lib : Library) (pws out : List Password) (add secret : Text) (validity now : ℕ)
    (t : Typed) : Type 0 where
  salt : Bytes
  long : 8 ≤ byte_len secret
  writes : out ≡ pws ++ salted lib salt now add secret validity ∷ []

add_made_writes :
    (lib : Library) (pws out : List Password) (add secret : Text) (validity now : ℕ)
    (salt : Option Bytes) (written : Bool)
    → add_made pws written (new_password lib salt now add secret validity) ≡ (created, some out)
    → (s : Bytes) × (out ≡ pws ++ salted lib s now add secret validity ∷ [])
unfolding add_made new_password
add_made_writes lib pws out add secret validity now none written h = absurd (ground arith)
add_made_writes lib pws out add secret validity now (some s) true h = (s, ground arith)
add_made_writes lib pws out add secret validity now (some s) false h = absurd (ground arith)

create_writes :
    (lib : Library) (pws out : List Password) (add secret : Text) (validity now : ℕ)
    (salt : Option Bytes) (written : Bool) (c : Confirmed)
    → create lib pws add now validity salt written secret c ≡ (created, some out)
    → (s : Bytes) × (out ≡ pws ++ salted lib s now add secret validity ∷ [])
unfolding create
create_writes lib pws out add secret validity now salt written confirmed h =
    add_made_writes lib pws out add secret validity now salt written h
create_writes lib pws out add secret validity now salt written second_unread h =
    absurd (ground arith)
create_writes lib pws out add secret validity now salt written second_differs h =
    absurd (ground arith)

enter_writes :
    (lib : Library) (pws out : List Password) (add secret : Text) (validity now : ℕ) (t : Typed)
    (written : Bool)
    → enter_secret lib pws add now validity t written (some secret) ≡ (created, some out)
    → IsCreated lib pws out add secret validity now t
unfolding enter_secret
enter_writes lib pws out add secret validity now t written h =
    elim (Bool-cases (ltb (byte_len secret) 8)) [
      | inl short ↦ absurd (ground arith)
      | inr long ↦
          let (s, e) =
            create_writes lib pws out add secret validity now t.salt written
              (confirm secret t.again) (rw long at h) in
          record { salt = s; long = ground arith; writes = e }
    ]

-- A password that -add-password reports as created has at least 8 bytes and a name that no other
-- has, and the file written lets its secret in until its validity is over, or for ever without one.
pub created_works :
    (lib : Library) (pws out : List Password) (add secret : Text) (validity now later : ℕ)
    (t : Typed) (written : Bool)
    → manage_passwords lib (some pws) add [] false validity now t written ≡ (created, some out)
    → t.secret ≡ some secret
    → (validity ≡ 0) ⊎ (later ≤ now + validity)
    → (8 ≤ byte_len secret)
      × (any (named add) pws ≡ false)
      × (is_some (find_password lib later secret out none) ≡ true)
unfolding manage_passwords manage text_eq
created_works lib pws out add secret validity now later t written h e valid =
    elim (Bool-cases (any (named add) pws)) [
      | inl taken ↦ absurd (ground arith)
      | inr free ↦
          let made =
            enter_writes lib pws out add secret validity now t written (rw (free, e) at h) in
          let new = salted lib made.salt now add secret validity in
          let lets_in = any-last (good lib later secret) pws new (
            rw
              (
                matches-salted lib made.salt now add secret validity,
                expired-salted lib made.salt now later add secret validity valid,
              )
              refl) in
          (
            made.long,
            free,
            find_password_lem lib later secret out
                ∙ ap (any (good lib later secret)) made.writes
                ∙ lets_in,
          )
    ]

-- -remove-password writes the passwords without those of that name, the others as they were and in
-- their order, or writes nothing where no password has the name.
pub remove_password_lem :
    (lib : Library) (pws : List Password) (add remove : Text) (validity now : ℕ) (t : Typed)
    (written : Bool)
    → remove ≢ []
    → (any (named remove) (filter (λ p. not (named remove p)) pws) ≡ false)
      × (manage_passwords lib (some pws) add remove false validity now t written ≡ (
          if any (named remove) pws
          then write_then written (filter (λ p. not (named remove p)) pws) removed
          else (no_such_password, none)))
unfolding manage_passwords manage
remove_password_lem lib pws add remove validity now t written h =
    (any-filter-not (named remove) pws, ground arith)
