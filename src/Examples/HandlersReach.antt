-- ===== src/Examples/HandlersReach.antt =====
-- The handlers of agents of cmd/proxy/main.go, an access at a time, by example.
use multi_ssh.Base.{
  ◌≡◌, refl, [], ◌∷◌, some, none, lookup, holds, insert, contains, false, text_eq, nat_eq,
  ℕ_discrete,
}
use multi_ssh.Base.Files.{wrote}
use multi_ssh.Examples.Data.{toy_sha, toy_wire, toy_checker, laptop_name, laptop_ext}
use multi_ssh.Handlers.{new_handler, Proxy, Handler, arrive, advance, report}
use multi_ssh.Handlers.Owned.{AllOwned}
use multi_ssh.Handlers.Served.{AllServed}
use multi_ssh.Handlers.Reach.{
  Reachable, fresh_proxy, starts, arrives, advances, reachable-AllOwned, reachable-AllServed,
  early_report_lost,
}
use mathlib.Core.Bool.{false≢true}
use multi_ssh.Base.Decimal.{atoi, itoa}
use multi_ssh.Base.Strings.{codes, cut, cut_prefix}
use multi_ssh.Names.{valid_canonical_name, valid_friendly_name, is_canonical_name}
use multi_ssh.Protocol.{parse_agent_version, parse_agent_build, parse_agent_platform}
use multi_ssh.Revocations.{revoked}
use multi_ssh.Auth.{Checker, Extensions, agent_callback, first_friendly}
use multi_ssh.Examples.Data.{laptop_meta, laptop_cert}
use multi_ssh.Handlers.Plain.{Comes}
use multi_ssh.Handlers.Steps.{AllCome}
use multi_ssh.Handlers.Shown.{page-ArePlain}
use multi_ssh.Page.{Setting, page}
use multi_ssh.Page.Clean.{ArePlain}

abbrev fresh : Proxy
fresh = fresh_proxy (record { m = []; file = none }) []

abbrev opened : Proxy
opened = arrive fresh 7 laptop_ext

-- Both names are registered.
abbrev registered : Proxy
registered = advance (advance (advance (advance opened 7 5 wrote) 7 5 wrote) 7 5 wrote) 7 5 wrote

opened-Reachable : Reachable toy_sha toy_wire toy_checker opened
unfolding fresh_proxy holds lookup
opened-Reachable = arrives fresh 7 laptop_ext refl (starts (record { m = []; file = none }) [])

registered-Reachable : Reachable toy_sha toy_wire toy_checker registered
registered-Reachable =
    advances _ 7 5 wrote
      (advances _ 7 5 wrote (advances _ 7 5 wrote (advances opened 7 5 wrote opened-Reachable)))

reachable-AllOwned_example : AllOwned toy_sha toy_checker registered.registry registered.handlers
reachable-AllOwned_example =
    reachable-AllOwned toy_sha toy_wire toy_checker registered registered-Reachable

reachable-AllServed_example : AllServed registered.registry registered.handlers
reachable-AllServed_example =
    reachable-AllServed toy_sha toy_wire toy_checker registered registered-Reachable

abbrev arrived : Handler
arrived = new_handler laptop_ext

arrived_there : lookup 7 opened.handlers ≡ some arrived
unfolding arrive fresh_proxy lookup insert nat_eq ℕ_discrete
arrived_there = refl

early_report_lost_example :
    lookup laptop_name
      (report toy_sha toy_wire toy_checker opened 7 (1 ∷ 7 ∷ 1 ∷ 8 ∷ 0 ∷ [])).registry
    ≡ lookup laptop_name opened.registry
early_report_lost_example =
    early_report_lost toy_sha toy_wire toy_checker opened 7 arrived (1 ∷ 7 ∷ 1 ∷ 8 ∷ 0 ∷ [])
      opened-Reachable arrived_there refl laptop_name

-- A checker whose fingerprints are plain whatever the key is.
abbrev plain_checker : Checker
plain_checker = record {
  authenticate = λ user cert. contains cert.valid_principals user;
  fingerprint = λ key. codes "SHA256:abc";
}

abbrev shown_ext : Extensions
shown_ext = record laptop_ext { fp = codes "SHA256:abc"; platform = codes "linux" }

comes : Comes plain_checker shown_ext
unfolding agent_callback revoked valid_canonical_name valid_friendly_name is_canonical_name
    first_friendly parse_agent_version parse_agent_build parse_agent_platform lookup text_eq
    ℕ_discrete cut cut_prefix atoi itoa
comes = (record { m = []; stamp = none }, 0, laptop_meta, laptop_cert, refl)

abbrev shown : Proxy
shown = advance (arrive fresh 7 shown_ext) 7 5 wrote

shown-Reachable : Reachable toy_sha toy_wire plain_checker shown
unfolding fresh_proxy holds lookup
shown-Reachable =
    advances _ 7 5 wrote
      (arrives fresh 7 shown_ext refl (starts (record { m = []; file = none }) []))

abbrev setting : Setting
setting = record {
  current = [];
  know = false;
  now = 100;
  stale_before = 60;
  stale_after = codes "24h0m0s";
}

all_come : AllCome plain_checker toy_sha toy_wire shown shown-Reachable
unfolding shown-Reachable holds lookup
all_come = (comes, λ k held. absurd (false≢true held))

page-ArePlain_example : ArePlain (page setting shown.registry shown.sightings)
page-ArePlain_example =
    page-ArePlain plain_checker toy_sha toy_wire shown shown-Reachable setting (λ key. refl)
      all_come refl
