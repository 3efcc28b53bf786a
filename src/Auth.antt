-- ===== src/Auth.antt =====
-- Who may connect: the callbacks of the agent listener and of the user listener in `main` of
-- cmd/proxy/main.go. Verifying a certificate against the authority, and fingerprints, are those of
-- x/crypto/ssh, a parameter.
pub mod Agent
use multi_ssh.Base.{
  ℕ, ◌≡◌, refl, Bool, true, false, not, ◌&&◌, List, [], ◌∷◌, ◌++◌, Option, none, some, Text,
  text_eq, Dict, holds, ltb, if◌then◌else◌, contains,
}
use multi_ssh.Base.Decimal.{itoa}
use multi_ssh.Base.Strings.{codes}
use multi_ssh.Names.{Bytes, PublicKey, is_canonical_name, valid_friendly_name, valid_canonical_name}
use multi_ssh.Protocol.{
  parse_agent_version, parse_agent_build, parse_agent_platform, describe_protocol,
}
use multi_ssh.Revocations.{Revocations, revoked}

-- What a connection says of itself.
pub record ConnMetadata : Type 0 where
  pub client_version : Text
  pub user : Text

-- `ssh.UserCert` and `ssh.HostCert`.
pub data CertType : Type 0 where
  user_cert host_cert : CertType

-- A certificate: its kind, the key inside it, its principals, and all else that `Authenticate`
-- reads.
pub record Certificate : Type 0 where
  pub cert_type : CertType
  pub key : PublicKey
  pub valid_principals : List Text
  pub signed : Bytes

pub data Offered : Type 0 where
  plain : PublicKey → Offered
  certificate : Certificate → Offered

-- `CertChecker.Authenticate` for the authority of this proxy, and `FingerprintSHA256`.
pub record Checker : Type 0 where
  pub authenticate : Text → Certificate → Bool
  pub fingerprint : PublicKey → Text

-- The extensions that are handed to `handleAgent`; a missing friendly name reads as empty.
pub record Extensions : Type 0 where
  pub canonical : Text
  pub fp : Text
  pub proto : Text
  pub build : Text
  pub platform : Text
  pub friendly : Text

pub data Refusal : Type 0 where
  below_minimum not_certificate key_revoked rejected not_canonical : Refusal

pub data Verdict : Type 0 where
  refused : Refusal → Verdict
  accepted : Extensions → Verdict

-- The first principal that may be a friendly name.
unfoldable pub first_friendly : List Text → Text
first_friendly [] = []
first_friendly (p ∷ ps) =
    let rest = first_friendly ps in
    if not (is_canonical_name p) && valid_friendly_name p then p else rest

is_some : Option Text → Bool
is_some none = false
is_some (some note) = true

judge : Checker → Revocations → ConnMetadata → Certificate → Verdict
unfolding is_some
judge c r m cert =
    if is_some (revoked r (c.fingerprint cert.key))
    then refused key_revoked
    else if not (c.authenticate m.user cert)
    then refused rejected
    else if not (valid_canonical_name m.user)
    then refused not_canonical
    else accepted (record {
      canonical = m.user;
      fp = c.fingerprint cert.key;
      proto = itoa (parse_agent_version m.client_version);
      build = parse_agent_build m.client_version;
      platform = parse_agent_platform m.client_version;
      friendly = first_friendly cert.valid_principals;
    })

offered : Checker → Revocations → ConnMetadata → Offered → Verdict
unfolding judge
offered c r m (plain key) = refused not_certificate
offered c r m (certificate cert) = judge c r m cert

-- `PublicKeyCallback` of the agent listener.
unfoldable pub agent_callback : Checker → Revocations → ℕ → ConnMetadata → Offered → Verdict
unfolding offered
agent_callback c r min_proto m key =
    if ltb (parse_agent_version m.client_version) min_proto
    then refused below_minimum
    else offered c r m key

-- `BannerCallback` of the agent listener; empty is no banner.
unfoldable pub banner : ℕ → ConnMetadata → Text
banner min_proto m =
    let v = parse_agent_version m.client_version in
    if ltb v min_proto
    then codes "this proxy needs agent protocol "
      ++ (describe_protocol min_proto
          ++ (codes " or newer; you speak "
              ++ (describe_protocol v ++ codes ". Re-run the installer to update.\n")))
    else []

-- `PublicKeyCallback` of the user listener: is the key one of the users' keys?
unfoldable pub user_callback : List PublicKey → PublicKey → Bool
user_callback users key = contains users key
