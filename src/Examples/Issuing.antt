-- ===== src/Examples/Issuing.antt =====
-- A certificate that an operator makes by hand (cmd/proxy/main.go), by example.
use multi_ssh.Base.{
  ◌≤◌, ◌≡◌, refl, true, [], ◌∷◌, Option, some, none, Text, ◌==◌, text_eq, ℕ_discrete, lookup,
  if◌then◌else◌, arith,
}
use multi_ssh.Base.Strings.{codes, cut, cut_prefix}
use multi_ssh.Base.Decimal.{atoi}
use multi_ssh.Examples.Data.{
  toy_sha, toy_checker, toy_library, laptop, laptop_key, laptop_name, laptop_meta, one_revoked,
}
use multi_ssh.Names.{
  PublicKey, b32_encode, name_message, valid_friendly_name, canonical_name, verify_canonical_name,
}
use multi_ssh.Protocol.{parse_agent_version}
use multi_ssh.Revocations.{revoked}
use multi_ssh.Auth.{user_cert, Certificate, certificate, Extensions, accepted, agent_callback}
use multi_ssh.Enroll.{sign_cert, draft}
use multi_ssh.Issue.{Asked, wrote_cert, cert_path, load_public_key, issue_cert}
use multi_ssh.Issue.Signed.{issued_accepted}

-- The two files.
abbrev read : Text → Option Text
read path =
    if path == codes "id.pub"
    then some (codes "identity")
    else if path == codes "host.pub"
    then some laptop_key
    else none

abbrev asked : Asked
asked = record {
  id_path = codes "id.pub";
  host_path = codes "host.pub";
  label = laptop;
  validity = 0;
  serial = 1;
  writable = true;
}

abbrev cert : Certificate
cert = record {
  cert_type = user_cert;
  key = codes "identity";
  valid_principals = laptop_name ∷ laptop ∷ [];
  signed = codes "identity";
}

written : issue_cert toy_sha toy_library read 5 asked ≡ wrote_cert (codes "id-cert.pub") cert
unfolding issue_cert cert_path draft canonical_name name_message b32_encode valid_friendly_name
    sign_cert cut cut_prefix text_eq ℕ_discrete
written = refl

recent : 1 ≤ parse_agent_version laptop_meta.client_version
unfolding parse_agent_version cut cut_prefix atoi
recent = omega arith

free : revoked one_revoked (toy_checker.fingerprint cert.key) ≡ none
unfolding revoked lookup text_eq ℕ_discrete
free = refl

authentic : toy_checker.authenticate laptop_meta.user cert ≡ true
unfolding text_eq ℕ_discrete
authentic = refl

issued_accepted_example :
    (load_public_key toy_library read asked.id_path ≡ some cert.key)
    × (cert.cert_type ≡ user_cert)
    × (host : PublicKey) × (load_public_key toy_library read asked.host_path ≡ some host)
    × (verify_canonical_name toy_sha laptop_meta.user host ≡ true)
    × (ext : Extensions) × (agent_callback toy_checker one_revoked 1 laptop_meta (certificate cert)
        ≡ accepted ext)
    × (ext.canonical ≡ laptop_meta.user)
    × (ext.friendly ≡ asked.label)
issued_accepted_example =
    issued_accepted toy_sha toy_library read 5 asked (codes "id-cert.pub") cert toy_checker
      one_revoked 1 laptop_meta written refl recent free authentic
