-- ===== src/Protocol/Versions.antt =====
-- What each side of internal/sshx/protocol.go reads of what the other announces.
use multi_ssh.Base.{
  ℕ, ◌≡◌, ◌≢◌, ◌⊎◌, ◌<◌, ◌^◌, inl, inr, refl, Bool, true, false, [], ◌∷◌, ◌++◌, Option, none, some,
  Text, ◌==◌, text_eq, if◌then◌else◌, Bool-cases, Option-cases, arith,
}
use multi_ssh.Base.Int.{ℤ, pos, negsuc}
use multi_ssh.Base.Decimal.{itoa, atoi}
use multi_ssh.Base.Strings.{codes, cut, cut_prefix, cut_at, cut_missing, lacks, lacks_of_all}
use multi_ssh.Base.Records.{lacks-append}
use multi_ssh.Names.{Bytes}
use multi_ssh.Protocol.{
  legacy_protocol, hex_char, platform_char, matches, shaped, underscore, agent_version_prefix,
  agent_version, parse_rest, parse_fields, parse_version, Wire, TunnelRequest, parse_tunnel_request,
  or_legacy,
}

-- A field that is left out, or has the shape that a real agent sends.
abbrev pub IsField : (ℕ → Bool) → Text → Type 0
IsField p s = (s ≡ []) ⊎ (matches p s ≡ true)

field-lacks : (p : ℕ → Bool) (c : ℕ) (s : Text) → p c ≡ false → IsField p s → lacks c s ≡ true
field-lacks p c s n (inl e) = rw e
field-lacks p c s n (inr h) = lacks_of_all p c s n (ground arith)

shaped_field : (p : ℕ → Bool) (s : Text) → IsField p s → shaped p s ≡ s
shaped_field p s (inl e) = rw e (ground arith)
shaped_field p s (inr h) = rw h

-- The rest of what an agent announces, behind its prefix.
announced : Text → Text → Text
announced build platform =
    if build == []
    then codes "1"
    else if platform == []
    then codes "1_" ++ build
    else codes "1_" ++ (build ++ underscore ∷ platform)

cut_prefix-agent_version :
    (build platform : Text)
    → cut_prefix agent_version_prefix (agent_version build platform)
      ≡ some (announced build platform)
unfolding agent_version announced cut_prefix itoa
cut_prefix-agent_version build platform = elim (Bool-cases (build == [])) [
  | inl b ↦ rw b
  | inr b ↦ elim (Bool-cases (platform == [])) [ inl p ↦ rw (b, p) | inr p ↦ rw (b, p) ]
]

parse_known :
    (rest : Text)
    → lacks 32 rest ≡ true
    → parse_fields (some (codes "1_" ++ rest)) ≡ record {
      proto = 1;
      build = shaped hex_char (cut underscore rest).0;
      platform = shaped platform_char (cut underscore rest).1;
    }
unfolding parse_fields parse_rest atoi cut
parse_known rest h = rw (cut_missing 32 rest h)

lacks_fields :
    (build platform : Text)
    → IsField hex_char build
    → IsField platform_char platform
    → lacks 32 (build ++ underscore ∷ platform) ≡ true
lacks_fields build platform hb hp =
    lacks-append 32 build _ (field-lacks hex_char 32 build refl hb)
      (ground (arith, field-lacks platform_char 32 platform refl hp))

parse_announced :
    (build platform : Text)
    → IsField hex_char build
    → IsField platform_char platform
    → parse_fields (some (announced build platform))
      ≡ record { proto = 1; build = build; platform = if build == [] then [] else platform }
unfolding announced
parse_announced build platform hb hp = elim (Bool-cases (build == [])) [
  | inl b ↦
      let e : build ≡ [] = ground arith in
      rw (b, e) (unfold parse_fields parse_rest atoi cut in refl)
  | inr b ↦ elim (Bool-cases (platform == [])) [
    | inl p ↦
        let e : platform ≡ [] = ground arith in
        rw (
          b,
          p,
          parse_known build (field-lacks hex_char 32 build refl hb),
          cut_missing underscore build (field-lacks hex_char underscore build refl hb),
          shaped_field hex_char build hb,
          e,
        )
    | inr p ↦ rw (
      b,
      p,
      parse_known (build ++ underscore ∷ platform) (lacks_fields build platform hb hp),
      cut_at underscore build platform (field-lacks hex_char underscore build refl hb),
      shaped_field hex_char build hb,
      shaped_field platform_char platform hp,
    )
  ]
]

-- What an agent announces reads back: its protocol version, its build, and its platform if it has a
-- build to put before it.
pub parse-agent_version :
    (build platform : Text)
    → IsField hex_char build
    → IsField platform_char platform
    → parse_version (agent_version build platform) agent_version_prefix
      ≡ record { proto = 1; build = build; platform = if build == [] then [] else platform }
unfolding parse_version
parse-agent_version build platform hb hp =
    rw (cut_prefix-agent_version build platform) (parse_announced build platform hb hp)

shaped-IsField : (p : ℕ → Bool) (s : Text) → IsField p (shaped p s)
shaped-IsField p s = elim (Bool-cases (matches p s)) [ inl h ↦ inr (rw h h) | inr h ↦ inl (rw h) ]

parse_rest_shaped :
    (n : Option ℤ) (rest : Text)
    → IsField hex_char (parse_rest n rest).build
      × IsField platform_char (parse_rest n rest).platform
unfolding parse_rest
parse_rest_shaped none rest = (inl refl, inl refl)
parse_rest_shaped (some (negsuc n)) rest = (inl refl, inl refl)
parse_rest_shaped (some (pos n)) rest = (
  shaped-IsField hex_char (cut underscore rest).0,
  shaped-IsField platform_char (cut underscore rest).1,
)

-- Whatever a peer sends as its identification, what is read of it can reach a terminal: the build
-- is empty or 1 to 32 hexadecimal digits, and the platform empty or 1 to 32 of `[a-z0-9]`.
pub parse_version_shaped :
    (id prefix : Text)
    → IsField hex_char (parse_version id prefix).build
      × IsField platform_char (parse_version id prefix).platform
unfolding parse_version
parse_version_shaped id prefix = elim (Option-cases (cut_prefix prefix id)) [
  | inl e ↦ rw (e, parse_fields) (inl refl, inl refl)
  | inr (rest, e) ↦
      let fields = (cut 32 rest).0 in
      rw (e, parse_fields)
        (let f = parse_rest_shaped (atoi (cut underscore fields).0) (cut underscore fields).1 in f)
]

module _ (w : Wire) where
  tunnel_cases :
      (payload : Bytes) (t : TunnelRequest)
      → payload ≢ []
      → w.unmarshal_tunnel payload ≡ some t
      → parse_tunnel_request w payload ≡ t
  unfolding parse_tunnel_request
  tunnel_cases [] t h e = absurd (h refl)
  tunnel_cases (b ∷ payload) t h e = rw (e, or_legacy)

  unreadable_lem :
      (bad : Bytes)
      → w.unmarshal_tunnel bad ≡ none
      → (parse_tunnel_request w bad).version ≡ legacy_protocol
  unfolding parse_tunnel_request
  unreadable_lem [] e = refl
  unreadable_lem (b ∷ bad) e = rw (e, or_legacy)

  -- A tunnel payload of any version reads back with its version and its extra fields intact, and a
  -- payload that is empty or unreadable reads as legacy.
  pub parse_tunnel_request_lem :
      (t : TunnelRequest) (bad : Bytes)
      → t.version < 2 ^ 32
      → w.unmarshal_tunnel bad ≡ none
      → (parse_tunnel_request w (w.marshal_tunnel t) ≡ t)
        × ((parse_tunnel_request w []).version ≡ legacy_protocol)
        × ((parse_tunnel_request w bad).version ≡ legacy_protocol)
  unfolding parse_tunnel_request
  parse_tunnel_request_lem t bad h e = (
    tunnel_cases (w.marshal_tunnel t) t (w.marshal_tunnel_ne_nil t)
        (w.unmarshal-marshal_tunnel t h),
    refl,
    unreadable_lem bad e,
  )
