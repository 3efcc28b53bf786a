-- ===== src/Examples/Network.antt =====
-- Addresses and the loops that wait (cmd/proxy/main.go, cmd/agent/main.go), by example.
use multi_ssh.Base.{
  ◌≡◌, refl, true, [], ◌∷◌, List, some, none, Text, ◌==◌, text_eq, ◌*◌, ◌^◌, if◌then◌else◌, any,
  all, ◌++◌, not, ◌&&◌,
}
use multi_ssh.Base.Strings.{codes, is_space, trim_space, lacks}
use multi_ssh.Addresses.{
  Ips, colon, comma, split, ip_in_any, parse_trusted_proxies, real_client_host,
}
use multi_ssh.Addresses.Hosts.{join_host_port}
use multi_ssh.Addresses.Attributed.{append_hop, after_last, real_client_host_lem}
use multi_ssh.Addresses.Trusted.{believed, fits, names_host, parse_trusted_proxies_lem}
use multi_ssh.Backoff.{
  Accept, connection, closed, failed, Ended, min_backoff, accept_loop, maintain,
}
use multi_ssh.Backoff.Accepting.{has_returned, taken, connections_of, accept_loop_returns}
use multi_ssh.Backoff.Redialling.{Waits, maintain_lem}

-- An address is its text, and a network is an address.
abbrev toy_ips : Ips Text Text
toy_ips = record {
  parse_ip = λ s. some s;
  parse_cidr = λ s. none;
  to4 = λ ip. lacks colon ip;
  ip_net = λ ip bits. ip;
  inside = λ net ip. net == ip;
  equal = λ ip other. ip == other;
  inside-ip_net_4 = λ ip other h. refl;
  inside-ip_net_16 = λ ip other h. refl;
}

abbrev proxy_host : Text
proxy_host = codes "::1"

abbrev client : Text
client = codes "203.0.113.9"

abbrev forged : Text
forged = codes "10.0.0.1, 10.0.0.2, "

real_client_host_lem_example :
    (real_client_host toy_ips (join_host_port proxy_host (codes "4711")) forged (proxy_host ∷ [])
      ≡ (if ip_in_any toy_ips proxy_host (proxy_host ∷ [])
            && not (trim_space (after_last forged) == [])
          then trim_space (after_last forged)
          else proxy_host))
    × (real_client_host toy_ips
          (join_host_port proxy_host (codes "4711"))
          (append_hop forged client)
          (proxy_host ∷ [])
        ≡ (if ip_in_any toy_ips proxy_host (proxy_host ∷ []) then client else proxy_host))
unfolding is_space
real_client_host_lem_example =
    real_client_host_lem toy_ips (proxy_host ∷ []) proxy_host (codes "4711") forged forged client
      refl (refl, refl) (refl, refl, refl)

abbrev flag : Text
flag = codes "127.0.0.1, ::1"

parse_trusted_proxies_lem_example :
    believed toy_ips proxy_host (parse_trusted_proxies toy_ips flag) ≡ (
      if all (fits toy_ips) (split comma flag)
      then some (any (names_host toy_ips proxy_host) (split comma flag))
      else none)
parse_trusted_proxies_lem_example = parse_trusted_proxies_lem toy_ips proxy_host flag

abbrev met : List Accept
met = connection 1 ∷ failed ∷ failed ∷ connection 2 ∷ []

accept_loop_returns_example :
    (has_returned (accept_loop 5 (met ++ closed ∷ connection 3 ∷ [])) ≡ true)
    × (taken (accept_loop 5 (met ++ closed ∷ connection 3 ∷ [])) ≡ connections_of met)
accept_loop_returns_example = accept_loop_returns 5 met (connection 3 ∷ []) refl

abbrev ended : List Ended
ended =
    record { lasted = 3; draw = 9 }
    ∷ record { lasted = 90 * 10 ^ 9; draw = 8 }
    ∷ record { lasted = 0; draw = 7 }
    ∷ []

maintain_lem_example : Waits 0 ended (maintain min_backoff ended)
maintain_lem_example = maintain_lem ended
