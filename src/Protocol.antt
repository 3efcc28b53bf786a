-- ===== src/Protocol.antt =====
-- internal/sshx/protocol.go: the version that each side announces, and the payloads of a tunnel and
-- of a host key report.
pub mod Versions
use multi_ssh.Base.{
  ℕ, ◌≡◌, ◌≢◌, ◌<◌, ◌^◌, refl, Bool, true, false, ◌&&◌, ◌||◌, List, [], ◌∷◌, ◌++◌, Option, none,
  some, Text, ◌==◌, text_eq, leb, eqb, ltb, if◌then◌else◌, length, take, all, ℕ_discrete,
}
use multi_ssh.Base.Int.{ℤ, pos, negsuc}
use multi_ssh.Base.Decimal.{itoa, atoi}
use multi_ssh.Base.Strings.{codes, cut, cut_prefix, byte_len}
use multi_ssh.Names.{Bytes, PublicKey}

abbrev pub protocol_version : ℕ
protocol_version = 1

abbrev pub legacy_protocol : ℕ
legacy_protocol = 0

abbrev pub agent_version_prefix : Text
agent_version_prefix = codes "SSH-2.0-multissh_agent_"

abbrev pub proxy_version_prefix : Text
proxy_version_prefix = codes "SSH-2.0-multissh_proxy_"

abbrev pub build_id_len : ℕ
build_id_len = 12

abbrev pub underscore : ℕ
underscore = b'_'

-- `[0-9a-f]` and `[a-z0-9]`
abbrev pub hex_char : ℕ → Bool
hex_char c = (leb b'0' c && leb c b'9') || (leb b'a' c && leb c b'f')

abbrev pub platform_char : ℕ → Bool
platform_char c = (leb b'a' c && leb c b'z') || (leb b'0' c && leb c b'9')

-- `^[…]{1,32}$` for a class of characters
abbrev pub matches : (ℕ → Bool) → Text → Bool
matches p s = all p s && leb 1 (length s) && leb (length s) 32

pub record Version : Type 0 where
  pub proto : ℕ
  pub build : Text
  pub platform : Text

abbrev pub legacy : Version
legacy = record { proto = legacy_protocol; build = []; platform = [] }

unfoldable pub agent_version : Text → Text → Text
agent_version build platform =
    let v = agent_version_prefix ++ itoa protocol_version in
    if build == []
    then v
    else if platform == []
    then v ++ underscore ∷ build
    else (v ++ underscore ∷ build) ++ underscore ∷ platform

unfoldable pub proxy_version : Text
proxy_version = proxy_version_prefix ++ itoa protocol_version

-- A field that reaches the operator's terminal: dropped unless it has the expected shape.
abbrev pub shaped : (ℕ → Bool) → Text → Text
shaped p s = if matches p s then s else []

-- With the protocol number read: `n < 0` and an error of `Atoi` are both legacy.
parse_rest : Option ℤ → Text → Version
parse_rest none rest = legacy
parse_rest (some (negsuc n)) rest = legacy
parse_rest (some (pos n)) rest = record {
  proto = n;
  build = shaped hex_char (cut underscore rest).0;
  platform = shaped platform_char (cut underscore rest).1;
}

-- Behind the prefix, up to a comment: `<protocol>[_<build>[_<platform>]]`.
parse_fields : Option Text → Version
unfolding parse_rest
parse_fields none = legacy
parse_fields (some rest) =
    let fields = (cut 32 rest).0 in
    parse_rest (atoi (cut underscore fields).0) (cut underscore fields).1

unfoldable pub parse_version : Text → Text → Version
unfolding parse_fields
parse_version id prefix = parse_fields (cut_prefix prefix id)

unfoldable pub parse_agent_version : Text → ℕ
unfolding parse_version
parse_agent_version id = (parse_version id agent_version_prefix).proto

unfoldable pub parse_agent_build : Text → Text
unfolding parse_version
parse_agent_build id = (parse_version id agent_version_prefix).build

unfoldable pub parse_agent_platform : Text → Text
unfolding parse_version
parse_agent_platform id = (parse_version id agent_version_prefix).platform

unfoldable pub parse_proxy_version : Text → ℕ
unfolding parse_version
parse_proxy_version id = (parse_version id proxy_version_prefix).proto

-- A full hex digest, shortened.
unfoldable pub build_id_of : Text → Text
build_id_of hex = if ltb (byte_len hex) build_id_len then hex else take build_id_len hex

unfoldable pub describe_protocol : ℕ → Text
describe_protocol v = if eqb v legacy_protocol then codes "pre-1" else b'v' ∷ itoa v

pub record TunnelRequest : Type 0 where
  pub version : ℕ
  pub extra : Bytes

-- `ssh.Marshal` and `ssh.Unmarshal` of x/crypto on the two payloads, and `ssh.ParsePublicKey` with
-- `Marshal` of a key: what is marshalled is not empty and unmarshals to what it was.
pub record Wire : Type 0 where
  pub marshal_tunnel : TunnelRequest → Bytes
  pub unmarshal_tunnel : Bytes → Option TunnelRequest
  pub unmarshal-marshal_tunnel :
      (t : TunnelRequest) → t.version < 2 ^ 32 → unmarshal_tunnel (marshal_tunnel t) ≡ some t
  pub marshal_tunnel_ne_nil : (t : TunnelRequest) → marshal_tunnel t ≢ []
  pub marshal_report : Bytes → Bytes → Bytes
  pub unmarshal_report : Bytes → Option (Bytes × Bytes)
  pub unmarshal-marshal_report :
      (key extra : Bytes) → unmarshal_report (marshal_report key extra) ≡ some (key, extra)
  pub marshal_report_ne_nil : (key extra : Bytes) → marshal_report key extra ≢ []
  pub parse_public_key : Bytes → Option PublicKey

unfoldable pub marshal_tunnel_request : Wire → Bytes
marshal_tunnel_request w = w.marshal_tunnel (record { version = protocol_version; extra = [] })

abbrev legacy_tunnel : TunnelRequest
legacy_tunnel = record { version = legacy_protocol; extra = [] }

or_legacy : Option TunnelRequest → TunnelRequest
or_legacy none = legacy_tunnel
or_legacy (some t) = t

unfoldable pub parse_tunnel_request : Wire → Bytes → TunnelRequest
unfolding or_legacy
parse_tunnel_request w [] = legacy_tunnel
parse_tunnel_request w (b ∷ payload) = or_legacy (w.unmarshal_tunnel (b ∷ payload))

unfoldable pub marshal_host_key_report : Wire → PublicKey → Bytes
marshal_host_key_report w key = w.marshal_report key []

report_key : Wire → Option (Bytes × Bytes) → Option PublicKey
report_key w none = none
report_key w (some (key, extra)) = w.parse_public_key key

unfoldable pub parse_host_key_report : Wire → Bytes → Option PublicKey
unfolding report_key
parse_host_key_report w [] = none
parse_host_key_report w (b ∷ payload) = report_key w (w.unmarshal_report (b ∷ payload))

parses_comment :
    parse_version (codes "SSH-2.0-multissh_agent_3_0abc_linux_x extra") agent_version_prefix
    ≡ record { proto = 3; build = codes "0abc"; platform = [] }
unfolding parse_version cut_prefix cut atoi
parses_comment = refl
