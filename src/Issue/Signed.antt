-- ===== src/Issue/Signed.antt =====
-- The certificates that an operator makes by hand (cmd/proxy/main.go), at the agent listener.
use mathlib.Core.Option.{none-ne-some, some-injective}
use multi_ssh.Base.{
  ℕ, ◌≡◌, ◌≤◌, inl, inr, refl, sym, ap, ◌∙◌, Bool, true, false, List, [], ◌∷◌, Option, none, some,
  Text, ◌==◌, text_eq, Bool-cases, arith,
}
use multi_ssh.Names.{
  PublicKey, Sha256, valid_friendly_name, valid_canonical_name, canonical_name,
  verify_canonical_name,
}
use multi_ssh.Names.Shape.{canonical_name_lem}
use multi_ssh.Protocol.{parse_agent_version}
use multi_ssh.Revocations.{Revocations, revoked}
use multi_ssh.Auth.{
  ConnMetadata, user_cert, Certificate, certificate, Checker, Extensions, accepted, first_friendly,
  agent_callback,
}
use multi_ssh.Auth.Agent.{MayRegister, judge_admits}
use multi_ssh.Enroll.{Library, sign_cert}
use multi_ssh.Enroll.Signing.{IsSigned, sign_cert-IsSigned}
use multi_ssh.Enroll.Accepted.{first_friendly-enrolled}
use multi_ssh.Issue.{
  wrote_cert, cert_path, load_public_key, Asked, write_cert, named, with_keys, issue_cert,
}

abbrev pub first_of : List Text → Option Text
first_of [] = none
first_of (x ∷ xs) = some x

-- What a certificate that was written rests on.
pub record IsIssued (sha : Sha256) (lib : Library) (read : Text → Option Text) (now : ℕ) (a : Asked)
    (path : Text) (cert : Certificate) : Type 0 where
  pub ident : PublicKey
  pub host : PublicKey
  pub canonical : Text
  pub ident_read : load_public_key lib read a.id_path ≡ some ident
  pub host_read : load_public_key lib read a.host_path ≡ some host
  pub canonical_is : canonical_name sha a.label host ≡ some canonical
  pub signed : IsSigned lib now ident user_cert (canonical ∷ a.label ∷ []) a.validity cert
  pub beside : path ≡ cert_path a.id_path

written_parts :
    (id_path path : Text) (writable : Bool) (o : Option Certificate) (cert : Certificate)
    → write_cert id_path writable o ≡ wrote_cert path cert
    → (o ≡ some cert) × (path ≡ cert_path id_path)
written_parts id_path path true (some c) cert h = (cc, cc)
written_parts id_path path false (some c) cert h = absurd (ground arith)
written_parts id_path path true none cert h = absurd (ground arith)
written_parts id_path path false none cert h = absurd (ground arith)

named-valid :
    (sha : Sha256) (label : Text) (host : PublicKey) (canonical : Text)
    → canonical_name sha label host ≡ some canonical
    → valid_friendly_name label ≡ true
unfolding canonical_name
named-valid sha label host canonical h = elim (Bool-cases (valid_friendly_name label)) [
  | inl yes' ↦ yes'
  | inr no' ↦ absurd (none-ne-some canonical (rw no' at h))
]

module _ (sha : Sha256) (lib : Library) (read : Text → Option Text) (now : ℕ) (a : Asked) where
  named_parts :
      (ident host : PublicKey) (o : Option Text) (path : Text) (cert : Certificate)
      → load_public_key lib read a.id_path ≡ some ident
      → load_public_key lib read a.host_path ≡ some host
      → canonical_name sha a.label host ≡ o
      → named lib now a ident o ≡ wrote_cert path cert
      → IsIssued sha lib read now a path cert
  named_parts ident host none path cert i k c h = absurd (ground arith)
  named_parts ident host (some canonical) path cert i k c h =
      let (made, beside) =
        written_parts a.id_path path a.writable
          (sign_cert lib a.serial now ident user_cert canonical (canonical ∷ a.label ∷ [])
            a.validity)
          cert h in
      record {
        ident = ident;
        host = host;
        canonical = canonical;
        ident_read = i;
        host_read = k;
        canonical_is = c;
        signed =
            sign_cert-IsSigned lib a.serial now ident user_cert canonical (canonical ∷ a.label ∷ [])
              a.validity cert made;
        beside = beside;
      }

  keys_parts :
      (i k : Option PublicKey) (path : Text) (cert : Certificate)
      → load_public_key lib read a.id_path ≡ i
      → load_public_key lib read a.host_path ≡ k
      → with_keys sha lib now a i k ≡ wrote_cert path cert
      → IsIssued sha lib read now a path cert
  keys_parts none k path cert ei ek h = absurd (ground arith)
  keys_parts (some ident) none path cert ei ek h = absurd (ground arith)
  keys_parts (some ident) (some host) path cert ei ek h =
      named_parts ident host (canonical_name sha a.label host) path cert ei ek refl h

  pub issue_cert-IsIssued :
      (path : Text) (cert : Certificate)
      → issue_cert sha lib read now a ≡ wrote_cert path cert
      → IsIssued sha lib read now a path cert
  unfolding issue_cert
  issue_cert-IsIssued path cert h = elim (Bool-cases (a.label == [])) [
    | inl yes' ↦ absurd (let e = rw yes' at h in ground arith)
    | inr no' ↦ elim (Bool-cases (a.host_path == [])) [
      | inl yes' ↦ absurd (let e = rw (no', yes') at h in ground arith)
      | inr no'' ↦
          keys_parts (load_public_key lib read a.id_path) (load_public_key lib read a.host_path)
            path cert refl refl (rw (no', no'') at h)
    ]
  ]

-- A certificate that `-sign` wrote is a user's, for the identity key of the file; an agent that
-- connects with it under its first name, at a recent protocol, with a key that is not revoked and a
-- signature that verifies, is accepted; that name is the canonical name of the host key of the file,
-- and what the callback hands on names it and, as the friendly name to ask for, the label.
pub issued_accepted :
    (sha : Sha256) (lib : Library) (read : Text → Option Text) (now : ℕ) (a : Asked) (path : Text)
    (cert : Certificate) (c : Checker) (r : Revocations) (min_proto : ℕ) (m : ConnMetadata)
    → issue_cert sha lib read now a ≡ wrote_cert path cert
    → some m.user ≡ first_of cert.valid_principals
    → min_proto ≤ parse_agent_version m.client_version
    → revoked r (c.fingerprint cert.key) ≡ none
    → c.authenticate m.user cert ≡ true
    → (load_public_key lib read a.id_path ≡ some cert.key)
      × (cert.cert_type ≡ user_cert)
      × (host : PublicKey) × (load_public_key lib read a.host_path ≡ some host)
      × (verify_canonical_name sha m.user host ≡ true)
      × (ext : Extensions) × (agent_callback c r min_proto m (certificate cert) ≡ accepted ext)
      × (ext.canonical ≡ m.user)
      × (ext.friendly ≡ a.label)
issued_accepted sha lib read now a path cert c r min_proto m h user recent free authentic =
    let is = issue_cert-IsIssued sha lib read now a path cert h in
    let valid = named-valid sha a.label is.host is.canonical is.canonical_is in
    let (n, name, shape, base, verifies) = canonical_name_lem sha a.label is.host valid in
    let same : n ≡ is.canonical = some-injective n is.canonical (sym name ∙ is.canonical_is) in
    let key = is.signed.key_is in
    let principals = is.signed.names_are in
    let called : m.user ≡ is.canonical =
      some-injective m.user is.canonical (user ∙ ap first_of principals) in
    let good = sym (ap valid_canonical_name same) ∙ shape in
    let may : MayRegister c r min_proto m cert = record {
      recent = recent;
      not_revoked = free;
      authentic = authentic;
      well_formed = ap valid_canonical_name called ∙ good;
    } in
    let (ext, yes', canonical, first) = judge_admits c r min_proto m cert may in
    (
      is.ident_read ∙ ap some (sym key),
      is.signed.type_is,
      is.host,
      is.host_read,
      ap (λ (u : Text). verify_canonical_name sha u is.host) (called ∙ sym same) ∙ verifies,
      ext,
      yes',
      canonical,
      first
          ∙ ap first_friendly principals
          ∙ first_friendly-enrolled is.canonical a.label good valid,
    )
