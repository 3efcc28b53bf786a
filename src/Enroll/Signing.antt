-- ===== src/Enroll/Signing.antt =====
-- What `SignCert` of internal/sshx/cert.go puts into a certificate.
use mathlib.Core.Option.{some-injective}
use multi_ssh.Base.{
  ℕ, ◌+◌, ◌≡◌, refl, sym, ap, List, Option, none, some, Text, ltb, if◌then◌else◌, arith,
}
use multi_ssh.Names.{Bytes, PublicKey}
use multi_ssh.Auth.{CertType, Certificate}
use multi_ssh.Enroll.{Library, Draft, draft, certified, sign_cert, unix, infinity}

-- A certificate of this kind, for this key, with these names, that the authority signed as one that
-- is valid for this long.
pub record IsSigned (lib : Library) (now : ℕ) (key : PublicKey) (cert_type : CertType)
    (principals : List Text) (validity : ℕ) (cert : Certificate) : Type 0 where
  pub under : Draft
  pub signature_is : lib.sign under ≡ some cert.signed
  pub signs_type : under.cert_type ≡ cert_type
  pub signs_key : under.key ≡ key
  pub signs_names : under.principals ≡ principals
  pub ends : under.valid_before ≡ (if ltb 0 validity then unix (now + validity) else infinity)
  pub type_is : cert.cert_type ≡ cert_type
  pub key_is : cert.key ≡ key
  pub names_are : cert.valid_principals ≡ principals

certified_parts :
    (d : Draft) (o : Option Bytes) (cert : Certificate)
    → certified d o ≡ some cert
    → (o ≡ some cert.signed)
      × (cert.cert_type ≡ d.cert_type)
      × (cert.key ≡ d.key)
      × (cert.valid_principals ≡ d.principals)
unfolding certified
certified_parts d none cert h = absurd (ground arith)
certified_parts d (some s) cert h =
    let e = some-injective _ _ h in
    (
      ap (λ (c : Certificate). some c.signed) e,
      sym (ap (λ (c : Certificate). c.cert_type) e),
      sym (ap (λ (c : Certificate). c.key) e),
      sym (ap (λ (c : Certificate). c.valid_principals) e),
    )

pub sign_cert-IsSigned :
    (lib : Library) (serial now : ℕ) (key : PublicKey) (type' : CertType) (id : Text)
    (ps : List Text) (validity : ℕ) (cert : Certificate)
    → sign_cert lib serial now key type' id ps validity ≡ some cert
    → IsSigned lib now key type' ps validity cert
unfolding sign_cert draft
sign_cert-IsSigned lib serial now key type' id ps validity cert h =
    let d = draft serial now key type' id ps validity in
    let (s, t, k, p) = certified_parts d (lib.sign d) cert h in
    record {
      under = d;
      signature_is = s;
      signs_type = refl;
      signs_key = refl;
      signs_names = refl;
      ends = refl;
      type_is = t;
      key_is = k;
      names_are = p;
    }
