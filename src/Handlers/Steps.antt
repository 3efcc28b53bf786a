-- ===== src/Handlers/Steps.antt =====
-- Plain text in the registry and the sightings, over the steps of the handlers of cmd/proxy/main.go.
use mathlib.Core.Path.{subst}
use mathlib.Core.Option.{none-ne-some, some-injective}
use multi_ssh.Base.{
  ℕ, ◌≡◌, inl, inr, refl, sym, Bool, List, [], ◌∷◌, ◌++◌, Option, none, some, Text, ◌==◌, text_eq,
  nat_eq, lookup, insert, delete, holds, lookup-insert, NodupKeys, delete-NodupKeys,
  map_values-NodupKeys, if◌then◌else◌, Bool-cases, Option-cases, arith,
}
use multi_ssh.Base.Decimal.{atoi}
use multi_ssh.Base.Files.{Wrote}
use multi_ssh.Names.{Bytes, PublicKey, Sha256, verify_canonical_name}
use multi_ssh.Protocol.{Wire, parse_host_key_report}
use multi_ssh.Auth.{Checker}
use multi_ssh.Ledger.{Ledger}
use multi_ssh.Ledger
use multi_ssh.Sightings.{seen}
use multi_ssh.Registry.{
  Registry, Added, held_by, added, after, remove, new_registry, set_host_fp, with_host_fp,
}
use multi_ssh.Registry.Claims.{add-NodupKeys}
use multi_ssh.Agents.{register, proto_of, checked_key}
use multi_ssh.Handlers.{
  Phase, arriving, named, granted, ready, waiting, leaving, Handler, Proxy, close_conn, new_handler,
  arrive, take_name, add_canonical, claim_friendly, add_friendly, drop_name, next, advance_found,
  advance, set_reported, report_found, report,
}
use multi_ssh.Handlers.Reach.{Reachable, fresh_proxy, starts, arrives, advances, reports}
use multi_ssh.Handlers.Plain.{IsPlainExt, Comes, Comes-IsPlainExt}
use multi_ssh.Page.Clean.{IsPlain}
use multi_ssh.Handlers.Held.{
  PlainSightings, IsPlainProxy, PlainHandlers-insert, PlainHandlers-delete,
  PlainHandlers-close_conn, PlainRegistry-add, PlainRegistry-remove, PlainRegistry-set_host_fp,
}

-- Each agent of a run came through the callback, and the sightings at its start were plain.
abbrev pub AllCome :
    (c : Checker) (sha : Sha256) (wire : Wire) (s : Proxy) → Reachable sha wire c s → Type 0
AllCome c sha wire s (starts book sightings) = PlainSightings sightings
AllCome c sha wire s (arrives t conn ext new r) = Comes c ext × AllCome c sha wire t r
AllCome c sha wire s (advances t conn now w r) = AllCome c sha wire t r
AllCome c sha wire s (reports t conn payload r) = AllCome c sha wire t r

module _ (c : Checker) (plain_fp : (key : PublicKey) → IsPlain (c.fingerprint key)) where
  moves :
      (s : Proxy) (conn : ℕ) (h new : Handler)
      → new.ext ≡ h.ext
      → lookup conn s.handlers ≡ some h
      → IsPlainProxy s
      → IsPlainProxy (record s { handlers = insert conn new s.handlers })
  moves s conn h new same at i = record {
    names = i.names;
    entries = i.entries;
    arrivals =
        PlainHandlers-insert s.handlers conn new
          (subst IsPlainExt (sym same) (i.arrivals conn h at)) i.arrivals;
    times = i.times;
  }

  ends :
      (s : Proxy) (conn : ℕ)
      → IsPlainProxy s
      → IsPlainProxy (record s { handlers = delete conn s.handlers })
  ends s conn i = record {
    names = i.names;
    entries = i.entries;
    arrivals = PlainHandlers-delete s.handlers conn i.arrivals;
    times = i.times;
  }

  takes :
      (s : Proxy) (conn : ℕ) (h : Handler) (phase : Phase) (name : Text) (r : Registry)
      (closed : Option ℕ)
      → register s.registry name conn h.ext ≡ added r closed
      → IsPlain name
      → lookup conn s.handlers ≡ some h
      → IsPlainProxy s
      → IsPlainProxy (take_name s conn h phase name r closed)
  unfolding take_name
  takes s conn h phase name r closed e p at i =
      let proto = proto_of (atoi h.ext.proto) in
      record {
        names =
            subst (λ (a : Added). NodupKeys (after s.registry a)) e
              (add-NodupKeys s.registry name conn h.ext.fp proto h.ext.build h.ext.platform
                i.names);
        entries =
            PlainRegistry-add s.registry r name conn proto h.ext closed e p (i.arrivals conn h at)
              i.entries;
        arrivals =
            PlainHandlers-insert (close_conn s.handlers closed) conn
              (record h { phase = phase; names = h.names ++ name ∷ [] }) (i.arrivals conn h at)
              (PlainHandlers-close_conn s.handlers closed i.arrivals);
        times = i.times;
      }

  saw :
      (s : Proxy) (now conn : ℕ) (h new : Handler)
      → new.ext ≡ h.ext
      → lookup conn s.handlers ≡ some h
      → IsPlainProxy s
      → IsPlainProxy (record s {
        sightings = seen s.sightings now h.ext.canonical;
        handlers = insert conn new s.handlers;
      })
  unfolding seen holds
  saw s now conn h new same at i = record {
    names = i.names;
    entries = i.entries;
    arrivals =
        PlainHandlers-insert s.handlers conn new
          (subst IsPlainExt (sym same) (i.arrivals conn h at)) i.arrivals;
    times = λ k held. elim (Bool-cases (k == h.ext.canonical)) [
      | inl here ↦
          let named : k ≡ h.ext.canonical = ground arith in
          subst IsPlain (sym named) (i.arrivals conn h at).canonical
      | inr away ↦ i.times k (ground (arith, lookup-insert k h.ext.canonical now s.sightings))
    ];
  }

  add_canonical-IsPlainProxy :
      (s : Proxy) (conn : ℕ) (h : Handler) (a : Added)
      → register s.registry h.ext.canonical conn h.ext ≡ a
      → lookup conn s.handlers ≡ some h
      → IsPlainProxy s
      → IsPlainProxy (add_canonical s conn h a)
  unfolding add_canonical
  add_canonical-IsPlainProxy s conn h (held_by fp) e at i = ends s conn i
  add_canonical-IsPlainProxy s conn h (added r closed) e at i =
      takes s conn h named h.ext.canonical r closed e (i.arrivals conn h at).canonical at i

  add_friendly-IsPlainProxy :
      (s : Proxy) (conn : ℕ) (h : Handler) (a : Added)
      → register s.registry h.ext.friendly conn h.ext ≡ a
      → lookup conn s.handlers ≡ some h
      → IsPlainProxy s
      → IsPlainProxy (add_friendly s conn h a)
  unfolding add_friendly
  add_friendly-IsPlainProxy s conn h (held_by fp) e at i =
      moves s conn h (record h { phase = ready }) refl at i
  add_friendly-IsPlainProxy s conn h (added r closed) e at i =
      takes s conn h ready h.ext.friendly r closed e (i.arrivals conn h at).friendly at i

  claim_friendly-IsPlainProxy :
      (s : Proxy) (conn : ℕ) (h : Handler) (a : Ledger × Bool)
      → lookup conn s.handlers ≡ some h
      → IsPlainProxy s
      → IsPlainProxy (claim_friendly s conn h a)
  unfolding claim_friendly
  claim_friendly-IsPlainProxy s conn h (book, ok) at i =
      let j = moves s conn h (record h { phase = if ok then granted else ready }) refl at i in
      record { names = j.names; entries = j.entries; arrivals = j.arrivals; times = j.times }

  remove-NodupKeys :
      (r : Registry) (name : Text) (conn : ℕ) → NodupKeys r → NodupKeys (remove r name conn)
  unfolding remove
  remove-NodupKeys r name conn u = ground (arith, delete-NodupKeys name r u)

  drop_name-IsPlainProxy :
      (s : Proxy) (conn : ℕ) (h : Handler) (ns : List Text)
      → lookup conn s.handlers ≡ some h
      → IsPlainProxy s
      → IsPlainProxy (drop_name s conn h ns)
  unfolding drop_name
  drop_name-IsPlainProxy s conn h [] at i = ends s conn i
  drop_name-IsPlainProxy s conn h (n ∷ ns) at i =
      let j = moves s conn h (record h { names = ns }) refl at i in
      record {
        names = remove-NodupKeys s.registry n conn i.names;
        entries = PlainRegistry-remove s.registry n conn i.entries;
        arrivals = j.arrivals;
        times = i.times;
      }

  next-IsPlainProxy :
      (s : Proxy) (conn now : ℕ) (w : Wrote) (h : Handler) (p : Phase)
      → lookup conn s.handlers ≡ some h
      → IsPlainProxy s
      → IsPlainProxy (next s conn now w h p)
  unfolding next
  next-IsPlainProxy s conn now w h arriving at i =
      add_canonical-IsPlainProxy s conn h (register s.registry h.ext.canonical conn h.ext) refl at i
  next-IsPlainProxy s conn now w h named at i = elim (Bool-cases (h.ext.friendly == [])) [
    | inl none' ↦ rw none' (moves s conn h (record h { phase = ready }) refl at i)
    | inr some' ↦
        rw some' (
          claim_friendly-IsPlainProxy s conn h (Ledger.claim s.book h.ext.friendly h.ext.fp w) at i)
  ]
  next-IsPlainProxy s conn now w h granted at i =
      add_friendly-IsPlainProxy s conn h (register s.registry h.ext.friendly conn h.ext) refl at i
  next-IsPlainProxy s conn now w h ready at i =
      saw s now conn h (record h { phase = waiting }) refl at i
  next-IsPlainProxy s conn now w h waiting at i =
      saw s now conn h (record h { phase = leaving }) refl at i
  next-IsPlainProxy s conn now w h leaving at i = drop_name-IsPlainProxy s conn h h.names at i

  advance-IsPlainProxy :
      (s : Proxy) (conn now : ℕ) (w : Wrote) → IsPlainProxy s → IsPlainProxy (advance s conn now w)
  unfolding advance
  advance-IsPlainProxy s conn now w i = elim (Option-cases (lookup conn s.handlers)) [
    | inl e ↦ rw (e, advance_found) i
    | inr (h, e) ↦ rw (e, advance_found) (next-IsPlainProxy s conn now w h h.phase e i)
  ]

  checked-IsPlain :
      (sha : Sha256) (canonical : Text) (key : Option PublicKey) (fp : Text)
      → checked_key sha c canonical key ≡ some fp
      → IsPlain fp
  unfolding checked_key
  checked-IsPlain sha canonical none fp e = absurd (none-ne-some fp e)
  checked-IsPlain sha canonical (some key) fp e =
      elim (Bool-cases (verify_canonical_name sha canonical key)) [
        | inl yes' ↦
            subst IsPlain (some-injective (c.fingerprint key) fp (rw yes' at e)) (plain_fp key)
        | inr no' ↦ absurd (none-ne-some fp (rw no' at e))
      ]

  set_reported-IsPlainProxy :
      (s : Proxy) (conn : ℕ) (o : Option Text)
      → ((fp : Text) → o ≡ some fp → IsPlain fp)
      → IsPlainProxy s
      → IsPlainProxy (record s { registry = set_reported s.registry conn o })
  unfolding set_reported set_host_fp
  set_reported-IsPlainProxy s conn none p i = record {
    names = i.names;
    entries = i.entries;
    arrivals = i.arrivals;
    times = i.times;
  }
  set_reported-IsPlainProxy s conn (some fp) p i = record {
    names = map_values-NodupKeys (with_host_fp conn fp) s.registry i.names;
    entries = PlainRegistry-set_host_fp s.registry conn fp (p fp refl) i.entries;
    arrivals = i.arrivals;
    times = i.times;
  }

  report-IsPlainProxy :
      (sha : Sha256) (wire : Wire) (s : Proxy) (conn : ℕ) (payload : Bytes)
      → IsPlainProxy s
      → IsPlainProxy (report sha wire c s conn payload)
  unfolding report
  report-IsPlainProxy sha wire s conn payload i = elim (Option-cases (lookup conn s.handlers)) [
    | inl e ↦ rw (e, report_found) i
    | inr (h, e) ↦
        let key = parse_host_key_report wire payload in
        rw (e, report_found)
          (set_reported-IsPlainProxy s conn (checked_key sha c h.ext.canonical key)
            (checked-IsPlain sha h.ext.canonical key) i)
  ]

  -- In every state that the handlers reach, if each agent came through the callback, what the proxy
  -- holds of them is plain text, and no name stands twice in the registry.
  pub reachable-IsPlainProxy :
      (sha : Sha256) (wire : Wire) (s : Proxy) (reached : Reachable sha wire c s)
      → AllCome c sha wire s reached
      → IsPlainProxy s
  unfolding fresh_proxy new_registry arrive lookup
  reachable-IsPlainProxy sha wire s (starts book sightings) p = record {
    names = tt;
    entries = λ k g found. absurd (none-ne-some g found);
    arrivals = λ conn h live. absurd (none-ne-some h live);
    times = p;
  }
  reachable-IsPlainProxy sha wire s (arrives t conn ext new r) (comes, all) =
      let i = reachable-IsPlainProxy sha wire t r all in
      record {
        names = i.names;
        entries = i.entries;
        arrivals =
            PlainHandlers-insert t.handlers conn (new_handler ext)
              (Comes-IsPlainExt c ext plain_fp comes) i.arrivals;
        times = i.times;
      }
  reachable-IsPlainProxy sha wire s (advances t conn now w r) all =
      advance-IsPlainProxy t conn now w (reachable-IsPlainProxy sha wire t r all)
  reachable-IsPlainProxy sha wire s (reports t conn payload r) all =
      report-IsPlainProxy sha wire t conn payload (reachable-IsPlainProxy sha wire t r all)
