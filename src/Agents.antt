-- ===== src/Agents.antt =====
-- What the handler of an agent, `handleAgent` of cmd/proxy/main.go, computes between its accesses to
-- the registry, the ledger and the sightings, which are those of `Handlers`.
use multi_ssh.Base.{ℕ, Bool, true, false, Option, none, some, Text, if◌then◌else◌}
use multi_ssh.Base.Decimal.{atoi}
use multi_ssh.Base.Int.{ℤ, pos}
use multi_ssh.Names.{Bytes, PublicKey, Sha256, verify_canonical_name}
use multi_ssh.Registry.{Registry, Added, add}
use multi_ssh.Auth.{Checker, Extensions}

-- `proto, _ := strconv.Atoi(…)`; the extension was printed from a number that is not negative.
unfoldable pub proto_of : Option ℤ → ℕ
proto_of (some (pos n)) = n
proto_of _ = 0

abbrev pub register : Registry → Text → ℕ → Extensions → Added
register r name conn ext = add r name conn ext.fp (proto_of (atoi ext.proto)) ext.build ext.platform

-- A host key report that parses is believed if the key belongs to the canonical name.
unfoldable pub checked_key : Sha256 → Checker → Text → Option PublicKey → Option Text
checked_key sha c canonical none = none
checked_key sha c canonical (some key) =
    if verify_canonical_name sha canonical key then some (c.fingerprint key) else none

-- The global requests of an agent.
pub data Request : Type 0 where
  host_key : Bytes → Request
  keepalive : Request
  other : Text → Request

-- What `Reply` is called with, where a reply is wanted.
unfoldable pub reply : Request → Bool
reply (host_key payload) = true
reply keepalive = true
reply (other kind) = false
