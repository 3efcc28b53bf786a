-- ===== src/Enroll.antt =====
-- cmd/proxy/enroll.go: the enrolment passwords and `POST /enroll`, and `SignCert` of
-- internal/sshx/cert.go. Hashing, base64, the parsing of keys and the signature are those of
-- libraries, a parameter. An instant is the number of nanoseconds since Go's zero time.
pub mod Passwords
pub mod Signing
pub mod Granted
pub mod Accepted
pub mod Slots
use multi_ssh.Base.{
  ℕ, ◌+◌, ◌-◌, ◌*◌, ◌/◌, ◌%◌, ◌^◌, ◌≡◌, refl, Bool, true, false, not, ◌&&◌, List, [], ◌∷◌, ◌++◌,
  map, Option, none, some, Text, ◌==◌, text_eq, ltb, leb, eqb, if◌then◌else◌, any, filter,
  ℕ_discrete,
}
use multi_ssh.Base.Strings.{codes, trim_space, byte_len}
use multi_ssh.Names.{Bytes, PublicKey, Sha256, valid_friendly_name, canonical_name}
use multi_ssh.Limiter.{Limiter, allow}
use multi_ssh.Revocations.{Revocations, revoked}
use multi_ssh.Auth.{CertType, user_cert, Certificate}

-- One enrolment credential; it expires at an instant, or never at 0.
pub record Password : Type 0 where
  pub name : Text
  pub salt : Text
  pub hash : Text
  pub expires : ℕ

-- What goes under the signature of a certificate.
pub record Draft : Type 0 where
  pub cert_type : CertType
  pub key : PublicKey
  pub serial : ℕ
  pub key_id : Text
  pub principals : List Text
  pub valid_after : ℕ
  pub valid_before : ℕ

-- The libraries: base64 without padding, argon2id, `ssh.ParseAuthorizedKey`, the fingerprint, the
-- signature by the authority, and the lowercase letter of a letter.
pub record Library : Type 0 where
  pub decode64 : Text → Option Bytes
  pub encode64 : Bytes → Text
  pub decode-encode64 : (s : Bytes) → decode64 (encode64 s) ≡ some s
  pub id_key : Text → Bytes → Bytes
  pub parse_key : Text → Option PublicKey
  pub fingerprint : PublicKey → Text
  pub sign : Draft → Option Bytes
  pub lower_rune : ℕ → ℕ

unfoldable pub expired : Password → ℕ → Bool
expired p now = not (eqb p.expires 0) && ltb p.expires now

compare_hash : Library → Text → Option Bytes → Option Bytes → Bool
compare_hash lib candidate none want = false
compare_hash lib candidate (some salt) none = false
compare_hash lib candidate (some salt) (some want) = lib.id_key candidate salt == want

unfoldable pub matches : Library → Password → Text → Bool
unfolding compare_hash
matches lib p candidate = compare_hash lib candidate (lib.decode64 p.salt) (lib.decode64 p.hash)

abbrev pub salted : Library → Bytes → ℕ → Text → Text → ℕ → Password
salted lib salt now name secret lifetime = record {
  name = name;
  salt = lib.encode64 salt;
  hash = lib.encode64 (lib.id_key secret salt);
  expires = if ltb 0 lifetime then now + lifetime else 0;
}

-- The salt is what the random source gives, or its error.
unfoldable pub new_password : Library → Option Bytes → ℕ → Text → Text → ℕ → Option Password
new_password lib none now name secret lifetime = none
new_password lib (some salt) now name secret lifetime =
    some (salted lib salt now name secret lifetime)

-- The loop of `handle` over all passwords: the last that is good gives the name.
unfoldable pub find_password : Library → ℕ → Text → List Password → Option Text → Option Text
find_password lib now candidate [] used = used
find_password lib now candidate (p ∷ ps) used =
    find_password lib now candidate ps
      (if matches lib p candidate && not (expired p now) then some p.name else used)

-- `CertTimeInfinity`
abbrev pub infinity : ℕ
infinity = 2 ^ 64 - 1

-- `uint64(t.Unix())`: Go's zero time is 62135596800 seconds before 1970.
abbrev pub unix : ℕ → ℕ
unix t = (t / 10 ^ 9 + (2 ^ 64 - 62135596800)) % 2 ^ 64

-- What `SignCert` signs, with the serial number drawn.
unfoldable pub draft : ℕ → ℕ → PublicKey → CertType → Text → List Text → ℕ → Draft
draft serial now key cert_type key_id principals validity = record {
  cert_type = cert_type;
  key = key;
  serial = serial;
  key_id = key_id;
  principals = principals;
  valid_after = (now / 10 ^ 9 + (2 ^ 64 - 62135597400)) % 2 ^ 64;
  valid_before = if ltb 0 validity then unix (now + validity) else infinity;
}

certified : Draft → Option Bytes → Option Certificate
certified d none = none
certified d (some signature) = some (record {
  cert_type = d.cert_type;
  key = d.key;
  valid_principals = d.principals;
  signed = signature;
})

unfoldable pub sign_cert :
    Library → ℕ → ℕ → PublicKey → CertType → Text → List Text → ℕ → Option Certificate
unfolding certified
sign_cert lib serial now key cert_type key_id principals validity =
    let d = draft serial now key cert_type key_id principals validity in certified d (lib.sign d)

-- The body of the request.
pub record EnrolRequest : Type 0 where
  pub password : Text
  pub name : Text
  pub ident_key : Text
  pub host_key : Text
  pub version : Text
  pub platform : Text

pub record EnrolResponse : Type 0 where
  pub certificate : Certificate
  pub ca : Text
  pub authorized : Text
  pub proxies : List Text
  pub canonical : Text
  pub friendly : Text

-- The answers of the handler, with their statuses 405, 429, 400, 503, 401, 400, 400, 403, 400, 400,
-- 500 and 500.
pub data Refusal : Type 0 where
  post_only too_many_attempts bad_request busy unauthorized bad_identity_key bad_host_key
        key_is_revoked bad_name bad_label signing_failed no_authorized_keys :
      Refusal

-- The steps of the handler: each goes on with a value or answers with an error.
pub data Checked (A : Type 0) : Type 0 where
  refuse : Refusal → Checked A
  ok : A → Checked A

infixl 5 ◌>>=◌
abbrev pub ◌>>=◌ : {A B : Type 0} → Checked A → (A → Checked B) → Checked B
refuse why >>= f = refuse why
ok a >>= f = f a

abbrev pub need : {A : Type 0} → Refusal → Option A → Checked A
need why none = refuse why
need why (some a) = ok a

abbrev pub check : Refusal → Bool → Checked Bool
check why true = ok true
check why false = refuse why

pub record Enroller : Type 0 where
  -- the authority's public key, as a line
  pub ca : Text
  pub passwords : List Password
  pub proxies : List Text
  pub limit : Limiter
  pub validity : ℕ
  pub revoked : Revocations

-- What a request finds: its method and source, its body if it decodes, a free slot for hashing or
-- none, the file of the users' keys, and a serial number.
pub record Visit : Type 0 where
  pub is_post : Bool
  pub who : Text
  pub body : Option EnrolRequest
  pub slot_free : Bool
  pub users_file : Option Text
  pub serial : ℕ

abbrev pub parse_authorized_key : Library → Text → Option PublicKey
parse_authorized_key lib s = lib.parse_key (trim_space s)

-- `strings.ToLower(strings.TrimSpace(…))`
abbrev pub tidy_name : Library → Text → Text
tidy_name lib s = map lib.lower_rune (trim_space s)

abbrev is_none : Option Text → Bool
is_none none = true
is_none (some note) = false

-- From the name to the signature, for an identity that is not barred.
grant :
    Sha256 → Library → Enroller → ℕ → Visit → Text → PublicKey → PublicKey → Checked EnrolResponse
grant sha lib e now v name ident host = do
  named ← check bad_name (valid_friendly_name name)
  canonical ← need bad_label (canonical_name sha name host)
  cert ←
      need signing_failed
        (sign_cert lib v.serial now ident user_cert canonical (canonical ∷ name ∷ []) e.validity)
  authorized ← need no_authorized_keys v.users_file
  ok (record {
    certificate = cert;
    ca = e.ca;
    authorized = authorized;
    proxies = e.proxies;
    canonical = canonical;
    friendly = name;
  })

-- From the password to the signature.
unfoldable pub issue :
    Sha256 → Library → Enroller → ℕ → Visit → EnrolRequest → Checked EnrolResponse
unfolding grant
issue sha lib e now v req = do
  used ← need unauthorized (find_password lib now req.password e.passwords none)
  ident ← need bad_identity_key (parse_authorized_key lib req.ident_key)
  host ← need bad_host_key (parse_authorized_key lib req.host_key)
  unbarred ← check key_is_revoked (is_none (revoked e.revoked (lib.fingerprint ident)))
  grant sha lib e now v (tidy_name lib req.name) ident host

-- What comes after the limiter.
admitted : Sha256 → Library → Enroller → ℕ → Visit → Checked EnrolResponse
admitted sha lib e now v = do
  req ← need bad_request v.body
  slot ← check busy v.slot_free
  issue sha lib e now v req

limited :
    Sha256 → Library → Enroller → ℕ → Visit → Limiter × Bool → Enroller × Checked EnrolResponse
unfolding admitted
limited sha lib e now v (l, false) = (record e { limit = l }, refuse too_many_attempts)
limited sha lib e now v (l, true) = (record e { limit = l }, admitted sha lib e now v)

unfoldable pub handle : Sha256 → Library → Enroller → ℕ → Visit → Enroller × Checked EnrolResponse
unfolding limited
handle sha lib e now v =
    if v.is_post then limited sha lib e now v (allow e.limit now v.who) else (e, refuse post_only)

-- `reload`: a file that cannot be read leaves the passwords as they are.
unfoldable pub reload : Enroller → Option (List Password) → Enroller × Bool
reload e none = (e, false)
reload e (some pws) = (record e { passwords = pws }, true)

-- -list-passwords, -remove-password and -add-password. The file has been read, or could not be; the
-- secret is what the terminal or the environment gives, the second entry is asked of the terminal.
pub record Typed : Type 0 where
  pub secret : Option Text
  -- nothing where the secret came from the environment
  pub again : Option (Option Text)
  -- what the random source gives, or its error
  pub salt : Option Bytes

pub data Managed : Type 0 where
  listed : List (Text × ℕ) → Managed
  no_such_password removed name_taken unread too_short entries_differ created io_error : Managed

abbrev pub Outcome : Type 0
Outcome = Managed × Option (List Password)

abbrev pub write_then : Bool → List Password → Managed → Outcome
write_then true pws done = (done, some pws)
write_then false pws done = (io_error, none)

abbrev pub named : Text → Password → Bool
named name p = p.name == name

pub data Confirmed : Type 0 where
  confirmed second_unread second_differs : Confirmed

confirm : Text → Option (Option Text) → Confirmed
confirm secret none = confirmed
confirm secret (some none) = second_unread
confirm secret (some (some again)) = if again == secret then confirmed else second_differs

add_made : List Password → Bool → Option Password → Outcome
add_made pws written none = (io_error, none)
add_made pws written (some p) = write_then written (pws ++ p ∷ []) created

create : Library → List Password → Text → ℕ → ℕ → Option Bytes → Bool → Text → Confirmed → Outcome
unfolding add_made
create lib pws add now validity salt written secret confirmed =
    add_made pws written (new_password lib salt now add secret validity)
create lib pws add now validity salt written secret second_unread = (unread, none)
create lib pws add now validity salt written secret second_differs = (entries_differ, none)

enter_secret : Library → List Password → Text → ℕ → ℕ → Typed → Bool → Option Text → Outcome
unfolding create confirm
enter_secret lib pws add now validity t written none = (unread, none)
enter_secret lib pws add now validity t written (some secret) =
    if ltb (byte_len secret) 8
    then (too_short, none)
    else create lib pws add now validity t.salt written secret (confirm secret t.again)

manage : Library → Bool → Text → Text → ℕ → ℕ → Typed → Bool → Option (List Password) → Outcome
unfolding enter_secret
manage lib list add remove now validity t written none = (io_error, none)
manage lib list add remove now validity t written (some pws) =
    if list
    then (listed (map (λ p. (p.name, p.expires)) pws), none)
    else if not (remove == [])
    then (if any (named remove) pws
        then write_then written (filter (λ p. not (named remove p)) pws) removed
        else (no_such_password, none))
    else if any (named add) pws
    then (name_taken, none)
    else enter_secret lib pws add now validity t written t.secret

unfoldable pub manage_passwords :
    Library → Option (List Password) → Text → Text → Bool → ℕ → ℕ → Typed → Bool → Outcome
unfolding manage
manage_passwords lib file add remove list validity now t written =
    manage lib list add remove now validity t written file
