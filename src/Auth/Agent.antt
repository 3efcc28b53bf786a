-- ===== src/Auth/Agent.antt =====
-- Which agents the callback of cmd/proxy/main.go accepts, and what it hands on.
use multi_ssh.Base.{
  ℕ, ◌≡◌, ◌≢◌, ◌∙◌, ap, sym, ◌≤◌, ◌⊎◌, ◌↔◌, inl, inr, refl, true, List, [], ◌∷◌, none, Text,
  text_eq, ltb, contains, Bool-cases, arith,
}
use multi_ssh.Base.Decimal.{itoa}
use multi_ssh.Names.{valid_friendly_name, valid_canonical_name}
use multi_ssh.Protocol.{
  hex_char, platform_char, agent_version_prefix, parse_agent_version, parse_agent_build,
  parse_agent_platform,
}
use multi_ssh.Protocol.Versions.{IsField, parse_version_shaped}
use multi_ssh.Revocations.{Revocations, revoked}
use multi_ssh.Auth.{
  ConnMetadata, Certificate, Offered, plain, certificate, Checker, Extensions, below_minimum,
  refused, accepted, first_friendly, judge, offered, agent_callback, banner,
}

-- The principal that is taken as friendly name, if any.
first_friendly_lem :
    (ps : List Text)
    → (first_friendly ps ≡ [])
      ⊎ ((valid_friendly_name (first_friendly ps) ≡ true)
          × (contains ps (first_friendly ps) ≡ true))
unfolding first_friendly
first_friendly_lem [] = inl refl
first_friendly_lem (p ∷ ps) = ground (arith, first_friendly_lem ps)

-- What an agent must show.
pub record MayRegister (c : Checker) (r : Revocations) (min_proto : ℕ) (m : ConnMetadata)
    (cert : Certificate) : Type 0 where
  pub recent : min_proto ≤ parse_agent_version m.client_version
  pub not_revoked : revoked r (c.fingerprint cert.key) ≡ none
  pub authentic : c.authenticate m.user cert ≡ true
  pub well_formed : valid_canonical_name m.user ≡ true

judge_accepts :
    (c : Checker) (r : Revocations) (m : ConnMetadata) (cert : Certificate) (ext : Extensions)
    → judge c r m cert ≡ accepted ext
    → (revoked r (c.fingerprint cert.key) ≡ none)
      × (c.authenticate m.user cert ≡ true)
      × (valid_canonical_name m.user ≡ true)
      × (ext.canonical ≡ m.user)
      × (ext.fp ≡ c.fingerprint cert.key)
      × (ext.proto ≡ itoa (parse_agent_version m.client_version))
      × (ext.build ≡ parse_agent_build m.client_version)
      × (ext.platform ≡ parse_agent_platform m.client_version)
      × (ext.friendly ≡ first_friendly cert.valid_principals)
unfolding judge
judge_accepts c r m cert ext h = ground arith

pub judge_admits :
    (c : Checker) (r : Revocations) (min_proto : ℕ) (m : ConnMetadata) (cert : Certificate)
    → MayRegister c r min_proto m cert
    → (ext : Extensions) × (agent_callback c r min_proto m (certificate cert) ≡ accepted ext)
      × (ext.canonical ≡ m.user)
      × (ext.friendly ≡ first_friendly cert.valid_principals)
unfolding agent_callback offered judge
judge_admits c r min_proto m cert h = (
  record {
    canonical = m.user;
    fp = c.fingerprint cert.key;
    proto = itoa (parse_agent_version m.client_version);
    build = parse_agent_build m.client_version;
    platform = parse_agent_platform m.client_version;
    friendly = first_friendly cert.valid_principals;
  },
  ground (arith, h.recent, h.not_revoked, h.authentic, h.well_formed),
  refl,
  refl,
)

callback_accepts :
    (c : Checker) (r : Revocations) (min_proto : ℕ) (m : ConnMetadata) (key : Offered)
    (ext : Extensions)
    → agent_callback c r min_proto m key ≡ accepted ext
    → (min_proto ≤ parse_agent_version m.client_version)
      × ((cert : Certificate) × (key ≡ certificate cert) × (judge c r m cert ≡ accepted ext))
unfolding agent_callback offered
callback_accepts c r min_proto m (plain key) ext h = absurd (ground arith)
callback_accepts c r min_proto m (certificate cert) ext h =
    elim (Bool-cases (ltb (parse_agent_version m.client_version) min_proto)) [
      | inl old ↦ absurd (refused-ne-accepted (rw old at h))
      | inr recent ↦ (ground arith, (cert, refl, rw recent at h))
    ]
  where
    refused-ne-accepted : refused below_minimum ≡ accepted ext → ⊥
    refused-ne-accepted e = cc

-- An agent is accepted exactly if it offers a certificate, speaks a protocol that is recent enough,
-- its identity key is not revoked, the certificate verifies against the authority for the name it
-- connects under, and that name is a well-formed canonical name.
pub agent_callback_iff :
    (c : Checker) (r : Revocations) (min_proto : ℕ) (m : ConnMetadata) (key : Offered)
    → ((ext : Extensions) × (agent_callback c r min_proto m key ≡ accepted ext))
      ↔ ((cert : Certificate) × (key ≡ certificate cert) × MayRegister c r min_proto m cert)
agent_callback_iff c r min_proto m key = (must, may)
  where
    must :
        ((ext : Extensions) × (agent_callback c r min_proto m key ≡ accepted ext))
        → (cert : Certificate) × (key ≡ certificate cert) × MayRegister c r min_proto m cert
    must (ext, h) =
        let (recent, rest) = callback_accepts c r min_proto m key ext h in
        let a = judge_accepts c r m rest.0 ext rest.2 in
        (
          rest.0,
          rest.1,
          record { recent = recent; not_revoked = a.0; authentic = a.1; well_formed = a.2 },
        )

    may :
        ((cert : Certificate) × (key ≡ certificate cert) × MayRegister c r min_proto m cert)
        → (ext : Extensions) × (agent_callback c r min_proto m key ≡ accepted ext)
    may (cert, e, h) =
        let (ext, yes', name, first) = judge_admits c r min_proto m cert h in (ext, rw e yes')

certificate-injective : (a b : Certificate) → certificate a ≡ certificate b → a ≡ b
certificate-injective a b e = cc

-- What is handed on of an accepted agent is fit for the log and the files: the name it is registered
-- under is a well-formed canonical name, the friendly name is none or a valid one that is among the
-- principals of its certificate, and build and platform have the shape of a real agent's.
pub agent_callback_clean :
    (c : Checker) (r : Revocations) (min_proto : ℕ) (m : ConnMetadata) (cert : Certificate)
    (ext : Extensions)
    → agent_callback c r min_proto m (certificate cert) ≡ accepted ext
    → (valid_canonical_name ext.canonical ≡ true)
      × ((ext.friendly ≡ [])
          ⊎ ((valid_friendly_name ext.friendly ≡ true)
              × (contains cert.valid_principals ext.friendly ≡ true)))
      × IsField hex_char ext.build
      × IsField platform_char ext.platform
unfolding parse_agent_build parse_agent_platform
agent_callback_clean c r min_proto m cert ext h =
    let (recent, other, e, j) = callback_accepts' in
    let a = judge_accepts c r m cert ext j in
    let s = parse_version_shaped m.client_version agent_version_prefix in
    (rw a.3 a.2, rw a.8 (first_friendly_lem cert.valid_principals), rw a.6 s.0, rw a.7 s.1)
  where
    callback_accepts' :
        (min_proto ≤ parse_agent_version m.client_version)
        × (o : Certificate) × (certificate cert ≡ certificate o)
        × (judge c r m cert ≡ accepted ext)
    callback_accepts' =
        let (recent, rest) = callback_accepts c r min_proto m (certificate cert) ext h in
        (recent, rest.0, rest.1, rw (certificate-injective cert rest.0 rest.1) rest.2)

pub accepted-fp :
    (c : Checker) (r : Revocations) (min_proto : ℕ) (m : ConnMetadata) (cert : Certificate)
    (ext : Extensions)
    → agent_callback c r min_proto m (certificate cert) ≡ accepted ext
    → ext.fp ≡ c.fingerprint cert.key
accepted-fp c r min_proto m cert ext h =
    let (recent, (o, same, j)) = callback_accepts c r min_proto m (certificate cert) ext h in
    (judge_accepts c r m o ext j).4
    ∙ ap (λ (x : Certificate). c.fingerprint x.key) (sym (certificate-injective cert o same))

offered-ne-below :
    (c : Checker) (r : Revocations) (m : ConnMetadata) (key : Offered)
    → offered c r m key ≢ refused below_minimum
unfolding offered judge
offered-ne-below c r m (plain key) h = ground arith
offered-ne-below c r m (certificate cert) h = ground arith

cons-ne-nil : (x : ℕ) (s : Text) → x ∷ s ≢ []
cons-ne-nil x s e = cc

-- An agent sees a banner exactly if it will be refused for its protocol version.
pub banner_iff :
    (c : Checker) (r : Revocations) (min_proto : ℕ) (m : ConnMetadata) (key : Offered)
    → (banner min_proto m ≢ []) ↔ (agent_callback c r min_proto m key ≡ refused below_minimum)
unfolding banner agent_callback
banner_iff c r min_proto m key =
    elim (Bool-cases (ltb (parse_agent_version m.client_version) min_proto)) [
      | inl old ↦ rw old (λ h. refl, λ h. cons-ne-nil _ _)
      | inr recent ↦ rw recent (λ h. absurd (h refl), λ h. absurd (offered-ne-below c r m key h))
    ]
