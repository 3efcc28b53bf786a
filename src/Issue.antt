-- ===== src/Issue.antt =====
-- `-sign` on the proxy: `issueCert` and `issueProxyHostCert` of cmd/proxy/main.go, by which an
-- operator certifies a machine or a standby proxy by hand. What the files hold is a function of
-- their paths; whether the certificate can be written is an argument.
pub mod Signed
use multi_ssh.Base.{
  ℕ, ◌≡◌, refl, Bool, true, false, List, [], ◌∷◌, ◌++◌, reverse, Option, none, some, Text, ◌==◌,
  text_eq, if◌then◌else◌,
}
use multi_ssh.Base.Strings.{codes, cut_prefix}
use multi_ssh.Names.{PublicKey, Sha256, canonical_name}
use multi_ssh.Auth.{user_cert, host_cert, Certificate}
use multi_ssh.Enroll.{Library, sign_cert}

-- How the commands end: where the certificate was written, or the error.
pub data Issued : Type 0 where
  label_required host_key_required no_identity_key no_host_key bad_label signing_failed
        not_written :
      Issued
  wrote_cert : Text → Certificate → Issued

abbrev kept : Text → Option Text → Text
kept s none = s
kept s (some front) = reverse front

-- `strings.TrimSuffix(path, ".pub") + "-cert.pub"`
unfoldable pub cert_path : Text → Text
unfolding cut_prefix
cert_path path = kept path (cut_prefix (codes "bup.") (reverse path)) ++ codes "-cert.pub"

abbrev parsed : Library → Option Text → Option PublicKey
parsed lib none = none
parsed lib (some content) = lib.parse_key content

-- internal/sshx/cert.go: `LoadPublicKey`.
unfoldable pub load_public_key : Library → (Text → Option Text) → Text → Option PublicKey
load_public_key lib read path = parsed lib (read path)

-- What both commands get.
pub record Asked : Type 0 where
  pub id_path : Text
  pub host_path : Text
  pub label : Text
  pub validity : ℕ
  -- the random serial number, and whether the certificate can be written
  pub serial : ℕ
  pub writable : Bool

abbrev pub write_cert : Text → Bool → Option Certificate → Issued
write_cert path writable none = signing_failed
write_cert path true (some cert) = wrote_cert (cert_path path) cert
write_cert path false (some cert) = not_written

abbrev pub named : Library → ℕ → Asked → PublicKey → Option Text → Issued
named lib now a ident none = bad_label
named lib now a ident (some canonical) =
    write_cert a.id_path a.writable
      (sign_cert lib a.serial now ident user_cert canonical (canonical ∷ a.label ∷ []) a.validity)

abbrev pub with_keys : Sha256 → Library → ℕ → Asked → Option PublicKey → Option PublicKey → Issued
with_keys sha lib now a none host = no_identity_key
with_keys sha lib now a (some ident) none = no_host_key
with_keys sha lib now a (some ident) (some host) =
    named lib now a ident (canonical_name sha a.label host)

unfoldable pub issue_cert : Sha256 → Library → (Text → Option Text) → ℕ → Asked → Issued
unfolding load_public_key
issue_cert sha lib read now a =
    if a.label == []
    then label_required
    else if a.host_path == []
    then host_key_required
    else with_keys sha lib now a (load_public_key lib read a.id_path)
        (load_public_key lib read a.host_path)

abbrev standby : Library → ℕ → Asked → Option PublicKey → Issued
standby lib now a none = no_host_key
standby lib now a (some pub_key) =
    write_cert a.host_path a.writable
      (sign_cert lib a.serial now pub_key host_cert (codes "multissh-proxy-standby") [] 0)

unfoldable pub issue_proxy_host_cert : Library → (Text → Option Text) → ℕ → Asked → Issued
unfolding load_public_key
issue_proxy_host_cert lib read now a = standby lib now a (load_public_key lib read a.host_path)
