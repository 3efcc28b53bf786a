-- ===== src/Handlers/Reach.antt =====
-- What holds in every state that the handlers of cmd/proxy/main.go reach together.
use mathlib.Core.Option.{none-ne-some}
use multi_ssh.Base.{
  ℕ, ◌≡◌, inl, inr, refl, ap, false, [], Option, none, some, Text, text_eq, nat_eq, lookup, holds,
  Option-cases, arith,
}
use multi_ssh.Base.Files.{Wrote}
use multi_ssh.Names.{Bytes, Sha256}
use multi_ssh.Protocol.{Wire, parse_host_key_report}
use multi_ssh.Auth.{Checker, Extensions}
use multi_ssh.Ledger.{Ledger}
use multi_ssh.Sightings.{Sightings}
use multi_ssh.Registry.{new_registry, set_host_fp}
use multi_ssh.Agents.{checked_key}
use multi_ssh.Handlers.{
  arriving, Handler, Proxy, arrive, advance, set_reported, report_found, report,
}
use multi_ssh.Registry.Claims.{lookup-set_host_fp}
use multi_ssh.Handlers.Sound.{IsSound, advance-IsSound, arrive-IsSound, report-IsSound}
use multi_ssh.Handlers.Owned.{AllOwned}
use multi_ssh.Handlers.Served.{is_arriving, AllServed}

-- The proxy as it starts.
unfoldable pub fresh_proxy : Ledger → Sightings → Proxy
fresh_proxy book sightings = record {
  registry = new_registry;
  book = book;
  sightings = sightings;
  handlers = [];
}

-- What the handlers can do together, a shared access at a time and in any order.
pub data Reachable (sha : Sha256) (wire : Wire) (c : Checker) : Proxy → Type 0 where
  starts :
      (book : Ledger) (sightings : Sightings) → Reachable sha wire c (fresh_proxy book sightings)
  arrives :
      (s : Proxy) (conn : ℕ) (ext : Extensions)
      → holds conn s.handlers ≡ false
      → Reachable sha wire c s
      → Reachable sha wire c (arrive s conn ext)
  advances :
      (s : Proxy) (conn now : ℕ) (w : Wrote)
      → Reachable sha wire c s
      → Reachable sha wire c (advance s conn now w)
  reports :
      (s : Proxy) (conn : ℕ) (payload : Bytes)
      → Reachable sha wire c s
      → Reachable sha wire c (report sha wire c s conn payload)

fresh_proxy-IsSound :
    (sha : Sha256) (c : Checker) (book : Ledger) (sightings : Sightings)
    → IsSound sha c (fresh_proxy book sightings)
unfolding fresh_proxy new_registry lookup
fresh_proxy-IsSound sha c book sightings = record {
  owned = λ k g found. absurd (none-ne-some g found);
  served = λ conn h k active has. absurd (none-ne-some h active.0);
  bare = λ conn h live first. absurd (none-ne-some h live);
}

pub reachable-IsSound :
    (sha : Sha256) (wire : Wire) (c : Checker) (s : Proxy)
    → Reachable sha wire c s
    → IsSound sha c s
reachable-IsSound sha wire c s (starts book sightings) = fresh_proxy-IsSound sha c book sightings
reachable-IsSound sha wire c s (arrives t conn ext new r) =
    arrive-IsSound sha c t conn ext new (reachable-IsSound sha wire c t r)
reachable-IsSound sha wire c s (advances t conn now w r) =
    advance-IsSound sha c t conn now w (reachable-IsSound sha wire c t r)
reachable-IsSound sha wire c s (reports t conn payload r) =
    report-IsSound sha c wire t conn payload (reachable-IsSound sha wire c t r)

-- In every state that the handlers and the goroutines that answer requests reach, in any interleaving
-- of their shared accesses, each entry of the registry belongs to a handler in progress that holds the
-- name, it carries that agent's fingerprint, and its host key is empty or the fingerprint of a key
-- that gives that agent's canonical name.
pub reachable-AllOwned :
    (sha : Sha256) (wire : Wire) (c : Checker) (s : Proxy)
    → Reachable sha wire c s
    → AllOwned sha c s.registry s.handlers
reachable-AllOwned sha wire c s r = (reachable-IsSound sha wire c s r).owned

-- In every such state, each name that a handler holds leads to its connection, as long as the handler
-- has not begun to leave and no other connection has taken a name of it.
pub reachable-AllServed :
    (sha : Sha256) (wire : Wire) (c : Checker) (s : Proxy)
    → Reachable sha wire c s
    → AllServed s.registry s.handlers
reachable-AllServed sha wire c s r = (reachable-IsSound sha wire c s r).served

unowned_kept :
    (sha : Sha256) (c : Checker) (s : Proxy) (conn : ℕ) (h : Handler) (fp : Text)
    → IsSound sha c s
    → lookup conn s.handlers ≡ some h
    → h.phase ≡ arriving
    → (k : Text) → lookup k (set_host_fp s.registry conn fp) ≡ lookup k s.registry
unowned_kept sha c s conn h fp i at first k = elim (Option-cases (lookup k s.registry)) [
  | inl e ↦ ground (arith, lookup-set_host_fp s.registry k conn fp)
  | inr (g, e) ↦
      let (o, live, has, rest, key) = i.owned k g e in
      let bare = i.bare conn h at (ap is_arriving first) in
      ground (arith, lookup-set_host_fp s.registry k conn fp, bare, live, has)
]

reported_kept :
    (sha : Sha256) (c : Checker) (s : Proxy) (conn : ℕ) (h : Handler) (o : Option Text)
    → IsSound sha c s
    → lookup conn s.handlers ≡ some h
    → h.phase ≡ arriving
    → (k : Text) → lookup k (set_reported s.registry conn o) ≡ lookup k s.registry
unfolding set_reported
reported_kept sha c s conn h none i at first k = refl
reported_kept sha c s conn h (some fp) i at first k = unowned_kept sha c s conn h fp i at first k

-- A host key report that is handled before its handler has claimed the canonical name is lost: the
-- registry stays as it is, whatever the report says.
pub early_report_lost :
    (sha : Sha256) (wire : Wire) (c : Checker) (s : Proxy) (conn : ℕ) (h : Handler)
    (payload : Bytes)
    → Reachable sha wire c s
    → lookup conn s.handlers ≡ some h
    → h.phase ≡ arriving
    → (k : Text) → lookup k (report sha wire c s conn payload).registry ≡ lookup k s.registry
unfolding report
early_report_lost sha wire c s conn h payload r at first k =
    let key = checked_key sha c h.ext.canonical (parse_host_key_report wire payload) in
    rw (at, report_found)
      (reported_kept sha c s conn h key (reachable-IsSound sha wire c s r) at first k)
