-- ===== src/Handlers/Held.antt =====
-- Plain text in the registry, the sightings and the handlers of cmd/proxy/main.go, and what of it each
-- change of them keeps.
use mathlib.Core.Path.{subst}
use mathlib.Core.Option.{some-injective}
use multi_ssh.Base.{
  ℕ, ◌≡◌, inl, inr, refl, sym, ◌∙◌, true, Option, none, some, Text, ◌==◌, text_eq, nat_eq, eqb,
  lookup, insert, delete, holds, lookup-insert, lookup-delete, NodupKeys, Bool-cases, Option-cases,
  arith,
}
use multi_ssh.Auth.{Extensions}
use multi_ssh.Sightings.{Sightings}
use multi_ssh.Registry.{Registration, Registry, added, add, remove, set_host_fp, with_host_fp}
use multi_ssh.Registry.Claims.{entry, add-eq-added, lookup-remove, lookup-set_host_fp}
use multi_ssh.Handlers.{Handler, Handlers, Proxy, close_found, close_conn}
use multi_ssh.Handlers.Plain.{IsPlainExt}
use multi_ssh.Page.Clean.{IsPlain}

pub record IsPlainEntry (k : Text) (g : Registration) : Type 0 where
  pub key : IsPlain k
  pub fp : IsPlain g.fp
  pub platform : IsPlain g.platform
  pub host_fp : IsPlain g.host_fp

abbrev pub PlainRegistry : Registry → Type 0
PlainRegistry r = (k : Text) (g : Registration) → lookup k r ≡ some g → IsPlainEntry k g

abbrev pub PlainHandlers : Handlers → Type 0
PlainHandlers hs = (conn : ℕ) (h : Handler) → lookup conn hs ≡ some h → IsPlainExt h.ext

abbrev pub PlainSightings : Sightings → Type 0
PlainSightings s = (k : Text) → holds k s ≡ true → IsPlain k

pub record IsPlainProxy (s : Proxy) : Type 0 where
  pub names : NodupKeys s.registry
  pub entries : PlainRegistry s.registry
  pub arrivals : PlainHandlers s.handlers
  pub times : PlainSightings s.sightings

-- Handlers.

pub PlainHandlers-insert :
    (hs : Handlers) (conn : ℕ) (new : Handler)
    → IsPlainExt new.ext
    → PlainHandlers hs
    → PlainHandlers (insert conn new hs)
PlainHandlers-insert hs conn new p all other o live = elim (Bool-cases (other == conn)) [
  | inl here ↦
      let it : new ≡ o = ground (arith, lookup-insert other conn new hs) in
      subst (λ (x : Handler). IsPlainExt x.ext) it p
  | inr away ↦ all other o (ground (arith, lookup-insert other conn new hs))
]

pub PlainHandlers-delete :
    (hs : Handlers) (conn : ℕ) → PlainHandlers hs → PlainHandlers (delete conn hs)
PlainHandlers-delete hs conn all other o live =
    all other o (ground (arith, lookup-delete other conn hs))

pub PlainHandlers-close_conn :
    (hs : Handlers) (o : Option ℕ) → PlainHandlers hs → PlainHandlers (close_conn hs o)
unfolding close_conn close_found
PlainHandlers-close_conn hs none all = all
PlainHandlers-close_conn hs (some conn) all = elim (Option-cases (lookup conn hs)) [
  | inl e ↦ rw (e, close_found) all
  | inr (h, e) ↦
      rw (e, close_found)
        (PlainHandlers-insert hs conn (record h { closing = true }) (all conn h e) all)
]

-- The registry.

entry-IsPlainEntry :
    (k : Text) (conn proto : ℕ) (ext : Extensions)
    → IsPlain k
    → IsPlainExt ext
    → IsPlainEntry k (entry conn ext.fp proto ext.build ext.platform)
entry-IsPlainEntry k conn proto ext p e = record {
  key = p;
  fp = e.fp;
  platform = e.platform;
  host_fp = refl;
}

pub PlainRegistry-add :
    (r s : Registry) (name : Text) (conn proto : ℕ) (ext : Extensions) (closed : Option ℕ)
    → add r name conn ext.fp proto ext.build ext.platform ≡ added s closed
    → IsPlain name
    → IsPlainExt ext
    → PlainRegistry r
    → PlainRegistry s
PlainRegistry-add r s name conn proto ext closed e p pe all k g found =
    let new = entry conn ext.fp proto ext.build ext.platform in
    let at = (add-eq-added r s name conn ext.fp proto ext.build ext.platform closed e).1 k in
    elim (Bool-cases (k == name)) [
      | inl here ↦
          let it : new ≡ g = some-injective new g (sym (rw here at at) ∙ found) in
          let named : k ≡ name = ground arith in
          subst (IsPlainEntry k) it
            (entry-IsPlainEntry k conn proto ext (subst IsPlain (sym named) p) pe)
      | inr away ↦ all k g (sym (rw away at at) ∙ found)
    ]

pub PlainRegistry-remove :
    (r : Registry) (name : Text) (conn : ℕ) → PlainRegistry r → PlainRegistry (remove r name conn)
PlainRegistry-remove r name conn all k g found =
    all k g (ground (arith, lookup-remove r name k conn))

with_host_fp-IsPlainEntry :
    (k : Text) (conn : ℕ) (fp : Text) (g : Registration)
    → IsPlain fp
    → IsPlainEntry k g
    → IsPlainEntry k (with_host_fp conn fp g)
with_host_fp-IsPlainEntry k conn fp g p i = elim (Bool-cases (eqb g.conn conn)) [
  | inl here ↦ rw here (record { key = i.key; fp = i.fp; platform = i.platform; host_fp = p })
  | inr away ↦ rw away i
]

pub PlainRegistry-set_host_fp :
    (r : Registry) (conn : ℕ) (fp : Text)
    → IsPlain fp
    → PlainRegistry r
    → PlainRegistry (set_host_fp r conn fp)
PlainRegistry-set_host_fp r conn fp p all k g found = elim (Option-cases (lookup k r)) [
  | inl e ↦ absurd (ground (arith, lookup-set_host_fp r k conn fp))
  | inr (o, e) ↦
      let it : with_host_fp conn fp o ≡ g = ground (arith, lookup-set_host_fp r k conn fp) in
      subst (IsPlainEntry k) it (with_host_fp-IsPlainEntry k conn fp o p (all k o e))
]
