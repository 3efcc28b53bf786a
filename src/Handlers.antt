-- ===== src/Handlers.antt =====
-- `handleAgent` of cmd/proxy/main.go, one shared access at a time: each connection has a handler of
-- its own, which stands somewhere in the function, and the handlers and the goroutines that answer
-- requests take turns in any order.
pub mod Owned
pub mod Served
pub mod Sound
pub mod Reach
pub mod Plain
pub mod Held
pub mod Steps
pub mod Shown
use multi_ssh.Base.{
  ℕ, Bool, true, false, List, [], ◌∷◌, ◌++◌, Option, none, some, Text, ◌==◌, text_eq, nat_eq, Dict,
  lookup, insert, delete, if◌then◌else◌,
}
use multi_ssh.Base.Files.{Wrote}
use multi_ssh.Names.{Bytes, PublicKey, Sha256}
use multi_ssh.Protocol.{Wire, parse_host_key_report}
use multi_ssh.Registry.{Registry, Added, held_by, added, remove, set_host_fp}
use multi_ssh.Ledger.{Ledger}
use multi_ssh.Ledger
use multi_ssh.Sightings.{Sightings, seen}
use multi_ssh.Auth.{Checker, Extensions}
use multi_ssh.Agents.{register, checked_key}

-- Where a handler stands: before the claim of the canonical name; before the friendly name is looked
-- at; with that name granted by the ledger; before the first sighting; in `conn.Wait()`; and in the
-- loop that removes its names.
pub data Phase : Type 0 where
  arriving named granted ready waiting leaving : Phase

pub record Handler : Type 0 where
  pub ext : Extensions
  pub phase : Phase
  -- the names added and not removed yet
  pub names : List Text
  -- another connection took one of its names, so its `Close` has been called or is about to be
  pub closing : Bool

abbrev pub Handlers : Type 0
Handlers = Dict ℕ Handler

pub record Proxy : Type 0 where
  pub registry : Registry
  pub book : Ledger
  pub sightings : Sightings
  pub handlers : Handlers

-- The stale connection that `add` closes.
close_found : Handlers → ℕ → Option Handler → Handlers
close_found hs conn none = hs
close_found hs conn (some h) = insert conn (record h { closing = true }) hs

pub close_conn : Handlers → Option ℕ → Handlers
unfolding close_found
close_conn hs none = hs
close_conn hs (some conn) = close_found hs conn (lookup conn hs)

abbrev with_handler : Proxy → ℕ → Handler → Proxy
with_handler s conn h = record s { handlers = insert conn h s.handlers }

abbrev pub new_handler : Extensions → Handler
new_handler ext = record { ext = ext; phase = arriving; names = []; closing = false }

-- The call of `handleAgent` for an accepted connection.
unfoldable pub arrive : Proxy → ℕ → Extensions → Proxy
arrive s conn ext = with_handler s conn (new_handler ext)

-- A name that was granted joins the handler's names, and the connection that held it is closed.
pub take_name : Proxy → ℕ → Handler → Phase → Text → Registry → Option ℕ → Proxy
unfolding close_conn
take_name s conn h phase name r closed = record s {
  registry = r;
  handlers =
      insert conn (record h { phase = phase; names = h.names ++ name ∷ [] })
        (close_conn s.handlers closed);
}

-- `reg.add(canonical, …)`: an error ends the handler.
add_canonical : Proxy → ℕ → Handler → Added → Proxy
unfolding take_name
add_canonical s conn h (held_by fp) = record s { handlers = delete conn s.handlers }
add_canonical s conn h (added r closed) = take_name s conn h named h.ext.canonical r closed

claim_friendly : Proxy → ℕ → Handler → Ledger × Bool → Proxy
claim_friendly s conn h (book, ok) = record s {
  book = book;
  handlers = insert conn (record h { phase = if ok then granted else ready }) s.handlers;
}

-- `reg.add(friendly, …)`: an error is logged.
add_friendly : Proxy → ℕ → Handler → Added → Proxy
unfolding take_name
add_friendly s conn h (held_by fp) = with_handler s conn (record h { phase = ready })
add_friendly s conn h (added r closed) = take_name s conn h ready h.ext.friendly r closed

drop_name : Proxy → ℕ → Handler → List Text → Proxy
drop_name s conn h [] = record s { handlers = delete conn s.handlers }
drop_name s conn h (n ∷ ns) = record s {
  registry = remove s.registry n conn;
  handlers = insert conn (record h { names = ns }) s.handlers;
}

-- The next shared access of the handler, by where it stands.
next : Proxy → ℕ → ℕ → Wrote → Handler → Phase → Proxy
unfolding add_canonical claim_friendly add_friendly drop_name
next s conn now w h arriving =
    add_canonical s conn h (register s.registry h.ext.canonical conn h.ext)
next s conn now w h named =
    if h.ext.friendly == []
    then with_handler s conn (record h { phase = ready })
    else claim_friendly s conn h (Ledger.claim s.book h.ext.friendly h.ext.fp w)
next s conn now w h granted = add_friendly s conn h (register s.registry h.ext.friendly conn h.ext)
next s conn now w h ready = record s {
  sightings = seen s.sightings now h.ext.canonical;
  handlers = insert conn (record h { phase = waiting }) s.handlers;
}
next s conn now w h waiting = record s {
  sightings = seen s.sightings now h.ext.canonical;
  handlers = insert conn (record h { phase = leaving }) s.handlers;
}
next s conn now w h leaving = drop_name s conn h h.names

advance_found : Proxy → ℕ → ℕ → Wrote → Option Handler → Proxy
unfolding next
advance_found s conn now w none = s
advance_found s conn now w (some h) = next s conn now w h h.phase

-- One step of a connection's handler; a connection with none has nothing to do. In `conn.Wait()` the
-- step is the end of the connection, whatever ended it.
unfoldable pub advance : Proxy → ℕ → ℕ → Wrote → Proxy
unfolding advance_found
advance s conn now w = advance_found s conn now w (lookup conn s.handlers)

pub set_reported : Registry → ℕ → Option Text → Registry
set_reported r conn none = r
set_reported r conn (some fp) = set_host_fp r conn fp

report_found : Sha256 → Checker → Proxy → ℕ → Option PublicKey → Option Handler → Proxy
unfolding set_reported
report_found sha c s conn key none = s
report_found sha c s conn key (some h) = record s {
  registry = set_reported s.registry conn (checked_key sha c h.ext.canonical key);
}

-- A host key report, by the goroutine that answers requests: it runs beside the handler from the
-- start, and knows the canonical name of its connection.
unfoldable pub report : Sha256 → Wire → Checker → Proxy → ℕ → Bytes → Proxy
unfolding report_found
report sha wire c s conn payload =
    report_found sha c s conn (parse_host_key_report wire payload) (lookup conn s.handlers)
