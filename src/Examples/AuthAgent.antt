-- ===== src/Examples/AuthAgent.antt =====
-- The callbacks of cmd/proxy/main.go, by example.
use multi_ssh.Auth.{Certificate, certificate, Extensions, accepted, first_friendly, agent_callback}
use multi_ssh.Auth.Agent.{MayRegister, agent_callback_iff, agent_callback_clean}
use multi_ssh.Base.{◌≡◌, ◌⊎◌, ◌↔◌, refl, true, [], text_eq, contains, ℕ_discrete, lookup}
use multi_ssh.Base.Decimal.{itoa, atoi}
use multi_ssh.Base.Strings.{codes, cut, cut_prefix}
use multi_ssh.Examples.Data.{toy_checker, laptop_cert, laptop_meta, laptop_ext, one_revoked}
use multi_ssh.Names.{valid_friendly_name, valid_canonical_name, is_canonical_name}
use multi_ssh.Protocol.{
  hex_char, platform_char, parse_agent_version, parse_agent_build, parse_agent_platform,
}
use multi_ssh.Protocol.Versions.{IsField}
use multi_ssh.Revocations.{revoked}

abbrev handed_on : Extensions
handed_on = record laptop_ext { platform = codes "linux" }

agent_callback_iff_example :
    ((ext : Extensions) × (agent_callback toy_checker one_revoked 1 laptop_meta
          (certificate laptop_cert)
        ≡ accepted ext))
    ↔ ((cert : Certificate) × ((certificate laptop_cert) ≡ certificate cert)
        × MayRegister toy_checker one_revoked 1 laptop_meta cert)
agent_callback_iff_example =
    agent_callback_iff toy_checker one_revoked 1 laptop_meta ((certificate laptop_cert))

laptop_accepted :
    agent_callback toy_checker one_revoked 1 laptop_meta (certificate laptop_cert)
    ≡ accepted handed_on
unfolding agent_callback first_friendly revoked lookup valid_canonical_name valid_friendly_name
    is_canonical_name cut cut_prefix parse_agent_version parse_agent_build parse_agent_platform itoa
    atoi text_eq ℕ_discrete
laptop_accepted = refl

agent_callback_clean_example :
    (valid_canonical_name handed_on.canonical ≡ true)
    × ((handed_on.friendly ≡ [])
        ⊎ ((valid_friendly_name handed_on.friendly ≡ true)
            × (contains laptop_cert.valid_principals handed_on.friendly ≡ true)))
    × IsField hex_char handed_on.build
    × IsField platform_char handed_on.platform
agent_callback_clean_example =
    agent_callback_clean toy_checker one_revoked 1 laptop_meta laptop_cert handed_on laptop_accepted
