-- ===== src/Enroll/Accepted.antt =====
-- The certificates of cmd/proxy/enroll.go at the agent listener of cmd/proxy/main.go.
use mathlib.Core.Option.{some-injective}
use multi_ssh.Base.{ℕ, ◌≡◌, ◌≤◌, refl, sym, ap, ◌∙◌, true, [], ◌∷◌, none, Text, text_eq}
use multi_ssh.Names.{Sha256, valid_friendly_name, valid_canonical_name}
use multi_ssh.Names.Shape.{namespaces_apart, canonical_name_lem}
use multi_ssh.Protocol.{parse_agent_version}
use multi_ssh.Revocations.{Revocations, revoked}
use multi_ssh.Auth.{
  ConnMetadata, user_cert, certificate, Checker, Extensions, accepted, first_friendly,
  agent_callback,
}
use multi_ssh.Auth.Agent.{MayRegister, judge_admits}
use multi_ssh.Enroll.{Library, ok, Enroller, Visit, EnrolResponse, handle}
use multi_ssh.Enroll.Granted.{handle_grants}

pub first_friendly-enrolled :
    (canonical name : Text)
    → valid_canonical_name canonical ≡ true
    → valid_friendly_name name ≡ true
    → first_friendly (canonical ∷ name ∷ []) ≡ name
unfolding first_friendly
first_friendly-enrolled canonical name c n =
    rw ((namespaces_apart canonical).1 c, (namespaces_apart name).0 n, n) refl

-- What the certificate of an enrolled machine says.
record IsEnrolled (resp : EnrolResponse) : Type 0 where
  well_formed : valid_canonical_name resp.canonical ≡ true
  for_user : resp.certificate.cert_type ≡ user_cert
  friendly_first : first_friendly resp.certificate.valid_principals ≡ resp.friendly

enrolled :
    (sha : Sha256) (lib : Library) (e : Enroller) (now : ℕ) (v : Visit) (resp : EnrolResponse)
    → (handle sha lib e now v).1 ≡ ok resp
    → IsEnrolled resp
enrolled sha lib e now v resp h =
    let (post, through, slot, (req, body, (ident, host, may))) =
      handle_grants sha lib e now v resp h in
    let (n, is, shape, base, verifies) = canonical_name_lem sha resp.friendly host may.named in
    let same = some-injective _ _ (sym is ∙ may.canonical_is) in
    let good = sym (ap valid_canonical_name same) ∙ shape in
    record {
      well_formed = good;
      for_user = may.signed.type_is;
      friendly_first =
          ap first_friendly may.signed.names_are
          ∙ first_friendly-enrolled resp.canonical resp.friendly good may.named;
    }

-- A machine that was granted a certificate, and connects with it under its canonical name at a
-- protocol that is recent enough, is accepted if the certificate verifies against the authority and
-- its key has not been revoked since; the certificate is one for a user, and what the callback hands
-- on names the canonical name and, as the friendly name to ask for, the one it enrolled with.
pub enrolled_accepted :
    (sha : Sha256) (lib : Library) (e : Enroller) (now : ℕ) (v : Visit) (resp : EnrolResponse)
    (c : Checker) (r : Revocations) (min_proto : ℕ) (m : ConnMetadata)
    → (handle sha lib e now v).1 ≡ ok resp
    → m.user ≡ resp.canonical
    → min_proto ≤ parse_agent_version m.client_version
    → revoked r (c.fingerprint resp.certificate.key) ≡ none
    → c.authenticate resp.canonical resp.certificate ≡ true
    → (resp.certificate.cert_type ≡ user_cert)
      × (ext : Extensions) × (agent_callback c r min_proto m (certificate resp.certificate)
          ≡ accepted ext)
      × (ext.canonical ≡ resp.canonical)
      × (ext.friendly ≡ resp.friendly)
enrolled_accepted sha lib e now v resp c r min_proto m h user recent free authentic =
    let is = enrolled sha lib e now v resp h in
    let may : MayRegister c r min_proto m resp.certificate = record {
      recent = recent;
      not_revoked = free;
      authentic = ap (λ u. c.authenticate u resp.certificate) user ∙ authentic;
      well_formed = ap valid_canonical_name user ∙ is.well_formed;
    } in
    let (ext, yes', name, first) = judge_admits c r min_proto m resp.certificate may in
    (is.for_user, ext, yes', name ∙ user, first ∙ is.friendly_first)
