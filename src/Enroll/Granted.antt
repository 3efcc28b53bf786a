-- ===== src/Enroll/Granted.antt =====
-- What a machine that `POST /enroll` of cmd/proxy/enroll.go grants has shown, and what it gets.
use mathlib.Core.Path.{subst}
use multi_ssh.Base.{
  ℕ, ◌≡◌, ◌≤◌, ◌⊎◌, inl, inr, refl, sym, ap, ◌∙◌, Bool, true, false, not, List, [], ◌∷◌, ◌++◌,
  Option, none, some, Text, text_eq, any, if◌then◌else◌, and_true, Bool-cases, arith,
}
use multi_ssh.Names.{Bytes, PublicKey, Sha256, valid_friendly_name, canonical_name}
use multi_ssh.Limiter.{Limiter, allow}
use multi_ssh.Revocations.{revoked}
use multi_ssh.Auth.{user_cert, Certificate}
use multi_ssh.Enroll.{
  Password, Library, Refusal, expired, compare_hash, matches, Checked, refuse, ok, ◌>>=◌, need,
  check, Enroller, Visit, EnrolRequest, EnrolResponse, find_password, parse_authorized_key,
  tidy_name, is_none, sign_cert, grant, issue, admitted, limited, handle, bad_request, busy,
  post_only, unauthorized, bad_identity_key, bad_host_key, key_is_revoked, bad_name, bad_label,
  signing_failed, no_authorized_keys,
}
use multi_ssh.Enroll.Passwords.{good, is_some, find_password_lem}
use multi_ssh.Enroll.Signing.{IsSigned, sign_cert-IsSigned}

bind_ok :
    {A B : Type 0} (m : Checked A) (f : A → Checked B) (b : B)
    → m >>= f ≡ ok b
    → (a : A) × (m ≡ ok a) × (f a ≡ ok b)
bind_ok (refuse why) f b h = absurd (ground arith)
bind_ok (ok a) f b h = (a, refl, h)

need_ok : {A : Type 0} (why : Refusal) (o : Option A) (a : A) → need why o ≡ ok a → o ≡ some a
need_ok why none a h = absurd (ground arith)
need_ok why (some x) a h = ground arith

check_ok : (why : Refusal) (t b : Bool) → check why t ≡ ok b → t ≡ true
check_ok why true b h = refl
check_ok why false b h = absurd (ground arith)

is_none_eq : (o : Option Text) → is_none o ≡ true → o ≡ none
is_none_eq none h = refl
is_none_eq (some note) h = absurd (ground arith)

-- The typed password has the hash that is stored with this one's salt, and the time of this one is
-- not over.
pub record Opens (lib : Library) (now : ℕ) (candidate : Text) (p : Password) : Type 0 where
  pub salt : Bytes
  pub salt_is : lib.decode64 p.salt ≡ some salt
  pub hash_is : lib.decode64 p.hash ≡ some (lib.id_key candidate salt)
  pub unexpired : (p.expires ≡ 0) ⊎ (now ≤ p.expires)

compare_opens :
    (lib : Library) (candidate : Text) (salt want : Option Bytes)
    → compare_hash lib candidate salt want ≡ true
    → (s : Bytes) × (salt ≡ some s) × (want ≡ some (lib.id_key candidate s))
unfolding compare_hash
compare_opens lib candidate none want h = absurd (ground arith)
compare_opens lib candidate (some s) none h = absurd (ground arith)
compare_opens lib candidate (some s) (some w) h = (
  s,
  refl,
  ap (λ (b : Bytes). some b) (let same : w ≡ lib.id_key candidate s = ground arith in same),
)

good-Opens :
    (lib : Library) (now : ℕ) (candidate : Text) (p : Password)
    → good lib now candidate p ≡ true
    → Opens lib now candidate p
unfolding matches expired
good-Opens lib now candidate p h =
    let (m, live) = and_true (matches lib p candidate) (not (expired p now)) h in
    let (s, a, b) = compare_opens lib candidate (lib.decode64 p.salt) (lib.decode64 p.hash) m in
    record { salt = s; salt_is = a; hash_is = b; unexpired = ground arith }

good_member :
    (lib : Library) (now : ℕ) (candidate : Text) (ps : List Password)
    → any (good lib now candidate) ps ≡ true
    → (p : Password) × (before behind : List Password) × (ps ≡ before ++ p ∷ behind)
      × Opens lib now candidate p
good_member lib now candidate [] h = absurd (ground arith)
good_member lib now candidate (p ∷ ps) h = elim (Bool-cases (good lib now candidate p)) [
  | inl yes' ↦ (p, [], ps, refl, good-Opens lib now candidate p yes')
  | inr no' ↦
      let (q, before, behind, e, o) = good_member lib now candidate ps (rw no' at h) in
      (q, p ∷ before, behind, ap (λ (l : List Password). p ∷ l) e, o)
]

found :
    (lib : Library) (now : ℕ) (candidate : Text) (ps : List Password) (used : Text)
    → find_password lib now candidate ps none ≡ some used
    → (p : Password) × (before behind : List Password) × (ps ≡ before ++ p ∷ behind)
      × Opens lib now candidate p
found lib now candidate ps used h =
    good_member lib now candidate ps (sym (find_password_lem lib now candidate ps) ∙ ap is_some h)

-- What a machine that is granted has shown, and what it is given.
pub record MayEnrol (sha : Sha256) (lib : Library) (e : Enroller) (now : ℕ) (v : Visit)
    (req : EnrolRequest) (ident host : PublicKey) (resp : EnrolResponse) : Type 0 where
  pub knows :
      (p : Password) × (before behind : List Password) × (e.passwords ≡ before ++ p ∷ behind)
      × Opens lib now req.password p
  pub identity : parse_authorized_key lib req.ident_key ≡ some ident
  pub host_is : parse_authorized_key lib req.host_key ≡ some host
  pub not_revoked : revoked e.revoked (lib.fingerprint ident) ≡ none
  pub friendly_is : resp.friendly ≡ tidy_name lib req.name
  pub named : valid_friendly_name resp.friendly ≡ true
  pub canonical_is : canonical_name sha resp.friendly host ≡ some resp.canonical
  pub signed :
      IsSigned lib now ident user_cert
        (resp.canonical ∷ resp.friendly ∷ [])
        e.validity
        resp.certificate

-- The part of it that `grant` decides.
record IsGrant (sha : Sha256) (lib : Library) (e : Enroller) (now : ℕ) (v : Visit) (name : Text)
    (ident host : PublicKey) (resp : EnrolResponse) : Type 0 where
  named : valid_friendly_name name ≡ true
  friendly_is : resp.friendly ≡ name
  canonical_is : canonical_name sha name host ≡ some resp.canonical
  signed : IsSigned lib now ident user_cert (resp.canonical ∷ name ∷ []) e.validity resp.certificate

or_else : EnrolResponse → Checked EnrolResponse → EnrolResponse
or_else d (refuse why) = d
or_else d (ok r) = r

ok-injective : (r s : EnrolResponse) → ok r ≡ ok s → r ≡ s
unfolding or_else
ok-injective r s h = ap (or_else r) h

IsGrant-end :
    (sha : Sha256) (lib : Library) (e : Enroller) (now : ℕ) (v : Visit) (name : Text)
    (ident host : PublicKey) (canonical authorized : Text) (cert : Certificate)
    (resp : EnrolResponse)
    → valid_friendly_name name ≡ true
    → canonical_name sha name host ≡ some canonical
    → IsSigned lib now ident user_cert (canonical ∷ name ∷ []) e.validity cert
    → record {
      certificate = cert;
      ca = e.ca;
      authorized = authorized;
      proxies = e.proxies;
      canonical = canonical;
      friendly = name;
    }
      ≡ resp
    → IsGrant sha lib e now v name ident host resp
IsGrant-end sha lib e now v name ident host canonical authorized cert resp n c s h = record {
  named = n;
  friendly_is = sym (ap (λ r. r.friendly) h);
  canonical_is = c ∙ ap (λ r. some r.canonical) h;
  signed =
      subst
        (λ r. IsSigned lib now ident user_cert (r.canonical ∷ name ∷ []) e.validity r.certificate) h
        s;
}

grant_shown :
    (sha : Sha256) (lib : Library) (e : Enroller) (now : ℕ) (v : Visit) (name : Text)
    (ident host : PublicKey) (resp : EnrolResponse)
    → grant sha lib e now v name ident host ≡ ok resp
    → IsGrant sha lib e now v name ident host resp
unfolding grant
grant_shown sha lib e now v name ident host resp h =
    let (t, a, h1) = bind_ok (check bad_name (valid_friendly_name name)) _ resp h in
    let (canonical, b, h2) = bind_ok (need bad_label (canonical_name sha name host)) _ resp h1 in
    let (cert, c, h3) =
      bind_ok
        (need signing_failed
          (sign_cert lib v.serial now ident user_cert canonical (canonical ∷ name ∷ []) e.validity))
        _ resp h2 in
    let (authorized, d, h4) = bind_ok (need no_authorized_keys v.users_file) _ resp h3 in
    IsGrant-end sha lib e now v name ident host canonical authorized cert resp
      (check_ok bad_name _ t a) (need_ok bad_label _ canonical b)
      (sign_cert-IsSigned lib v.serial now ident user_cert canonical (canonical ∷ name ∷ [])
        e.validity cert (need_ok signing_failed _ cert c))
      (ok-injective _ resp h4)

shown :
    (sha : Sha256) (lib : Library) (e : Enroller) (now : ℕ) (v : Visit) (req : EnrolRequest)
    (ident host : PublicKey) (used : Text) (resp : EnrolResponse)
    → find_password lib now req.password e.passwords none ≡ some used
    → parse_authorized_key lib req.ident_key ≡ some ident
    → parse_authorized_key lib req.host_key ≡ some host
    → revoked e.revoked (lib.fingerprint ident) ≡ none
    → IsGrant sha lib e now v (tidy_name lib req.name) ident host resp
    → MayEnrol sha lib e now v req ident host resp
shown sha lib e now v req ident host used resp a b c d g = record {
  knows = found lib now req.password e.passwords used a;
  identity = b;
  host_is = c;
  not_revoked = d;
  friendly_is = g.friendly_is;
  named = rw (g.friendly_is) g.named;
  canonical_is = rw (g.friendly_is) g.canonical_is;
  signed = rw (g.friendly_is) g.signed;
}

issue_shown :
    (sha : Sha256) (lib : Library) (e : Enroller) (now : ℕ) (v : Visit) (req : EnrolRequest)
    (resp : EnrolResponse)
    → issue sha lib e now v req ≡ ok resp
    → (ident host : PublicKey) × MayEnrol sha lib e now v req ident host resp
unfolding issue
issue_shown sha lib e now v req resp h =
    let (used, a, h1) =
      bind_ok (need unauthorized (find_password lib now req.password e.passwords none)) _ resp h in
    let (ident, b, h2) =
      bind_ok (need bad_identity_key (parse_authorized_key lib req.ident_key)) _ resp h1 in
    let (host, c, h3) =
      bind_ok (need bad_host_key (parse_authorized_key lib req.host_key)) _ resp h2 in
    let (t, d, h4) =
      bind_ok (check key_is_revoked (is_none (revoked e.revoked (lib.fingerprint ident)))) _ resp
        h3 in
    (
      ident,
      host,
      shown sha lib e now v req ident host used resp (need_ok unauthorized _ used a)
          (need_ok bad_identity_key _ ident b) (need_ok bad_host_key _ host c)
          (is_none_eq _ (check_ok key_is_revoked _ t d))
          (grant_shown sha lib e now v (tidy_name lib req.name) ident host resp h4),
    )

admitted_shown :
    (sha : Sha256) (lib : Library) (e : Enroller) (now : ℕ) (v : Visit) (resp : EnrolResponse)
    → admitted sha lib e now v ≡ ok resp
    → (req : EnrolRequest) × (v.body ≡ some req)
      × (v.slot_free ≡ true)
      × ((ident host : PublicKey) × MayEnrol sha lib e now v req ident host resp)
unfolding admitted
admitted_shown sha lib e now v resp h =
    let (req, a, h1) = bind_ok (need bad_request v.body) _ resp h in
    let (t, b, h2) = bind_ok (check busy v.slot_free) _ resp h1 in
    (req, need_ok bad_request _ req a, check_ok busy _ t b, issue_shown sha lib e now v req resp h2)

limited_shown :
    (sha : Sha256) (lib : Library) (e : Enroller) (now : ℕ) (v : Visit) (l : Limiter × Bool)
    (resp : EnrolResponse)
    → (limited sha lib e now v l).1 ≡ ok resp
    → (l.1 ≡ true) × (admitted sha lib e now v ≡ ok resp)
unfolding limited
limited_shown sha lib e now v (l, false) resp h = absurd (ground arith)
limited_shown sha lib e now v (l, true) resp h = (refl, h)

posted :
    (b : Bool) (e : Enroller) (x : Enroller × Checked EnrolResponse) (resp : EnrolResponse)
    → (if b then x else (e, refuse post_only)).1 ≡ ok resp
    → (b ≡ true) × (x.1 ≡ ok resp)
posted true e x resp h = (refl, h)
posted false e x resp h = absurd (ground arith)

-- A machine is granted a certificate only on a POST that the limiter of its address lets through,
-- with a body that decodes, while a slot for hashing is free; and then what it typed has the hash of
-- a password that is stored and whose time is not over, its identity key is not revoked, its name is
-- a valid friendly name, its canonical name is that of its name and its host key, and what the
-- authority signed is a user certificate for its identity key with exactly these two names, until
-- the configured validity is over, or without end where there is none.
pub handle_grants :
    (sha : Sha256) (lib : Library) (e : Enroller) (now : ℕ) (v : Visit) (resp : EnrolResponse)
    → (handle sha lib e now v).1 ≡ ok resp
    → (v.is_post ≡ true)
      × ((allow e.limit now v.who).1 ≡ true)
      × (v.slot_free ≡ true)
      × ((req : EnrolRequest) × (v.body ≡ some req)
          × ((ident host : PublicKey) × MayEnrol sha lib e now v req ident host resp))
unfolding handle
handle_grants sha lib e now v resp h =
    let (post, h1) =
      posted v.is_post e (limited sha lib e now v (allow e.limit now v.who)) resp h in
    let (through, h2) = limited_shown sha lib e now v (allow e.limit now v.who) resp h1 in
    let (req, body, slot, rest) = admitted_shown sha lib e now v resp h2 in
    (post, through, slot, (req, body, rest))
