-- ===== src/Addresses/Trusted.antt =====
-- Whose X-Forwarded-For header is believed, for `parseTrustedProxies` and `ipInAny` of
-- cmd/proxy/main.go.
use mathlib.Core.Option.{none-ne-some, some-injective}
use multi_ssh.Base.{
  ◌≡◌, refl, sym, Bool, true, false, not, ◌&&◌, ◌||◌, List, [], ◌∷◌, Option, none, some, Text, ◌==◌,
  text_eq, if◌then◌else◌, any, all, Bool-cases, Option-cases, inl, inr,
}
use multi_ssh.Base.Strings.{trim_space}
use multi_ssh.Addresses.{
  Ips, comma, split, net_of, as_single, as_net, with_net, parse_parts, parse_trusted_proxies,
  ip_in_any,
}

module _ {Ip Net : Type 0} (ips : Ips Ip Net) where
  abbrev holds_ip : Option Net → Option Ip → Bool
  holds_ip (some n) (some ip) = ips.inside n ip
  holds_ip n ip = false

  -- Is the third, a host, in the network, or else the address?
  abbrev names : Option Net → Option Ip → Option Ip → Bool
  names (some n) ip (some host) = ips.inside n host
  names none (some ip) (some host) = ips.equal ip host
  names n ip host = false

  -- A part of the flag names a network with the host in it, or the host's address.
  abbrev pub names_host : Text → Text → Bool
  names_host host part =
      not (trim_space part == [])
      && names (ips.parse_cidr (trim_space part)) (ips.parse_ip (trim_space part))
          (ips.parse_ip host)

  abbrev is_read : {A : Type 0} → Option A → Bool
  is_read none = false
  is_read (some n) = true

  -- A part of the flag is blank, a network or an address.
  abbrev pub fits : Text → Bool
  fits part =
      trim_space part == []
      || is_read (ips.parse_cidr (trim_space part))
      || is_read (ips.parse_ip (trim_space part))

  holds_ip-as_single :
      (ip : Ip) (host : Option Ip)
      → holds_ip (as_single ips (some ip)) host ≡ names none (some ip) host
  holds_ip-as_single ip none = refl
  holds_ip-as_single ip (some host) = elim (Bool-cases (ips.to4 ip)) [
    | inl four ↦ rw four (ips.inside-ip_net_4 ip host four)
    | inr six ↦ rw six (ips.inside-ip_net_16 ip host six)
  ]

  holds_ip-as_net :
      (n : Option Net) (ip host : Option Ip)
      → (holds_ip (as_net ips n ip) host ≡ names n ip host)
        × (is_read (as_net ips n ip) ≡ (is_read n || is_read ip))
  holds_ip-as_net (some n) ip none = (refl, refl)
  holds_ip-as_net (some n) ip (some host) = (refl, refl)
  holds_ip-as_net none none host = (refl, refl)
  holds_ip-as_net none (some ip) host = (holds_ip-as_single ip host, refl)

  -- What the networks say of a host, where there are some.
  abbrev pub believed : Text → Option (List Net) → Option Bool
  believed host none = none
  believed host (some nets) = some (ip_in_any ips host nets)

  ip_in_any-nil : (host : Text) → some (ip_in_any ips host []) ≡ some false
  unfolding ip_in_any
  ip_in_any-nil host = elim (Option-cases (ips.parse_ip host)) [
    | inl e ↦ rw e refl
    | inr (ip, e) ↦ rw e refl
  ]

  ip_in_any-cons :
      (host : Text) (n : Net) (nets : List Net)
      → ip_in_any ips host (n ∷ nets)
        ≡ (holds_ip (some n) (ips.parse_ip host) || ip_in_any ips host nets)
  unfolding ip_in_any
  ip_in_any-cons host n nets = elim (Option-cases (ips.parse_ip host)) [
    | inl e ↦ rw e refl
    | inr (ip, e) ↦ rw e refl
  ]

  believed-with_net :
      (host : Text) (o : Option Net) (rest : Option (List Net)) (fit named : Bool)
      → believed host rest ≡ (if fit then some named else none)
      → believed host (with_net ips o rest)
        ≡ (if is_read o && fit then some (holds_ip o (ips.parse_ip host) || named) else none)
  believed-with_net host none rest fit named e = refl
  believed-with_net host (some n) none fit named e = elim (Bool-cases fit) [
    | inl yes' ↦ absurd (none-ne-some named (rw yes' at e))
    | inr no' ↦ rw no' refl
  ]
  believed-with_net host (some n) (some nets) fit named e = elim (Bool-cases fit) [
    | inl yes' ↦
        rw
          (
            yes',
            ip_in_any-cons host n nets,
            some-injective (ip_in_any ips host nets) named (rw yes' at e),
          )
          refl
    | inr no' ↦ absurd (none-ne-some (ip_in_any ips host nets) (sym (rw no' at e)))
  ]

  parts_lem :
      (host : Text) (parts : List Text)
      → believed host (parse_parts ips parts)
        ≡ (if all fits parts then some (any (names_host host) parts) else none)
  unfolding parse_parts
  parts_lem host [] = ip_in_any-nil host
  parts_lem host (part ∷ parts) = elim (Bool-cases (trim_space part == [])) [
    | inl yes' ↦ rw yes' (parts_lem host parts)
    | inr no' ↦
        let (named, fit) =
          holds_ip-as_net (ips.parse_cidr (trim_space part)) (ips.parse_ip (trim_space part))
            (ips.parse_ip host) in
        rw (no', sym named, sym fit)
          (believed-with_net host (net_of ips (trim_space part)) (parse_parts ips parts)
            (all fits parts) (any (names_host host) parts) (parts_lem host parts))
  ]

  -- The flag is refused exactly if a part of it is neither blank nor a network nor an address;
  -- otherwise the header is believed from exactly the hosts whose address is one of the parts or
  -- lies in a network of them.
  pub parse_trusted_proxies_lem :
      (host s : Text)
      → believed host (parse_trusted_proxies ips s)
        ≡ (if all fits (split comma s) then some (any (names_host host) (split comma s)) else none)
  unfolding parse_trusted_proxies
  parse_trusted_proxies_lem host s = parts_lem host (split comma s)
