-- ===== src/Addresses.antt =====
-- Which address a connection or a request is counted under (cmd/proxy/main.go: `sourceHost`,
-- `hostOnly`, `parseTrustedProxies`, `ipInAny`, `realClientHost`). What `net` makes of the text of
-- an address or of a network is a parameter, `Ips`; the text itself is cut here.
pub mod Hosts
pub mod Trusted
pub mod Attributed
use multi_ssh.Base.{
  ℕ, ◌≡◌, refl, Bool, true, false, not, ◌&&◌, List, [], ◌∷◌, ◌++◌, Option, none, some, Text, ◌==◌,
  text_eq, eqb, any, if◌then◌else◌, ℕ_discrete,
}
use multi_ssh.Base.Strings.{codes, cut, lacks, trim_space}

abbrev pub colon : ℕ
colon = b':'

abbrev pub comma : ℕ
comma = b','

abbrev pub opening : ℕ
opening = b'['

abbrev pub closing : ℕ
closing = b']'

-- No bracket.
abbrev pub plain : Text → Bool
plain s = lacks opening s && lacks closing s

-- `net.SplitHostPort`, the part behind a bracket: a colon has to follow, and the port has none.
unfoldable pub bracketed : Text → Text → Option (Text × Text)
bracketed host [] = none
bracketed host (c ∷ port) =
    if eqb c colon && lacks colon port && lacks opening host && plain port
    then some (host, port)
    else none

unfoldable pub unbracketed : Text → Text → Bool → Option (Text × Text)
unbracketed host port found =
    if found && lacks colon port && plain host && plain port then some (host, port) else none

-- `net.SplitHostPort`; none is its error.
unfoldable pub split_host_port : Text → Option (Text × Text)
unfolding cut bracketed unbracketed
split_host_port [] = none
split_host_port (c ∷ s) =
    let (inner, behind, closed) = cut closing s in
    let (host, port, found) = cut colon (c ∷ s) in
    if eqb c opening
    then if closed then bracketed inner behind else none
    else unbracketed host port found

abbrev host_of : Text → Option (Text × Text) → Text
host_of addr none = addr
host_of addr (some (host, port)) = host

-- Also `sourceHost`, which takes the address of a connection and does the same to its text.
unfoldable pub host_only : Text → Text
unfolding split_host_port
host_only addr = host_of addr (split_host_port addr)

-- `strings.Split` at a single character.
unfoldable pub split : ℕ → Text → List Text
split sep [] = [] ∷ []
split sep (c ∷ s) = glue (eqb c sep) c (split sep s)
  where
    glue : Bool → ℕ → List Text → List Text
    glue true c parts = [] ∷ parts
    glue false c [] = (c ∷ []) ∷ []
    glue false c (p ∷ parts) = (c ∷ p) ∷ parts

abbrev pub last : List Text → Text
last [] = []
last (x ∷ []) = x
last (x ∷ y ∷ xs) = last (y ∷ xs)

abbrev pub or_peer : Text → Text → Text
or_peer peer hop = if hop == [] then peer else hop

-- What `net` reads in a text, and which addresses a network holds.
pub record Ips (Ip Net : Type 0) : Type 0 where
  pub parse_ip : Text → Option Ip
  pub parse_cidr : Text → Option Net
  -- `ip.To4() != nil`
  pub to4 : Ip → Bool
  -- the network of this address and a mask of so many bits, all set: `CIDRMask(bits, bits)`
  pub ip_net : Ip → ℕ → Net
  -- `IPNet.Contains`, `IP.Equal`
  pub inside : Net → Ip → Bool
  pub equal : Ip → Ip → Bool
  -- under a mask that is as long as the address, and full, there is that address alone
  pub inside-ip_net_4 :
      (ip other : Ip) → to4 ip ≡ true → inside (ip_net ip 32) other ≡ equal ip other
  pub inside-ip_net_16 :
      (ip other : Ip) → to4 ip ≡ false → inside (ip_net ip 128) other ≡ equal ip other

module _ {Ip Net : Type 0} (ips : Ips Ip Net) where
  -- A part of the list as a network: a CIDR, else an address.
  abbrev pub as_single : Option Ip → Option Net
  as_single none = none
  as_single (some ip) = some (ips.ip_net ip (if ips.to4 ip then 32 else 128))

  abbrev pub as_net : Option Net → Option Ip → Option Net
  as_net (some n) ip = some n
  as_net none ip = as_single ip

  abbrev pub net_of : Text → Option Net
  net_of part = as_net (ips.parse_cidr part) (ips.parse_ip part)

  abbrev pub with_net : Option Net → Option (List Net) → Option (List Net)
  with_net none rest = none
  with_net (some n) none = none
  with_net (some n) (some out) = some (n ∷ out)

  -- The loop over the parts; none is the error, for the first part that is neither.
  unfoldable pub parse_parts : List Text → Option (List Net)
  unfolding trim_space
  parse_parts [] = some []
  parse_parts (part ∷ parts) =
      let rest = parse_parts parts in
      if trim_space part == [] then rest else with_net (net_of (trim_space part)) rest

  unfoldable pub parse_trusted_proxies : Text → Option (List Net)
  unfolding parse_parts split
  parse_trusted_proxies s = parse_parts (split comma s)

  abbrev in_any : Option Ip → List Net → Bool
  in_any none nets = false
  in_any (some ip) nets = any (λ n. ips.inside n ip) nets

  unfoldable pub ip_in_any : Text → List Net → Bool
  ip_in_any host nets = in_any (ips.parse_ip host) nets

  -- `remote` is the peer of the request, `xff` the value of its X-Forwarded-For header, empty where
  -- it has none.
  unfoldable pub real_client_host : Text → Text → List Net → Text
  unfolding host_only ip_in_any split trim_space
  real_client_host remote xff trusted =
      let peer = host_only remote in
      if not (ip_in_any peer trusted)
      then peer
      else if xff == []
      then peer
      else or_peer peer (trim_space (last (split comma xff)))
