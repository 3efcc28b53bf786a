-- ===== src/Handlers/Served.antt =====
-- Which names a handler is served under at each step (cmd/proxy/main.go).
use multi_ssh.Base.{
  ℕ, ◌≡◌, ◌≢◌, inl, inr, sym, ap, ◌∙◌, Bool, true, false, List, [], ◌∷◌, ◌++◌, Option, none, some,
  Text, ◌==◌, text_eq, nat_eq, lookup, insert, delete, lookup-insert, lookup-delete, contains,
  Bool-cases, Option-cases, arith,
}
use multi_ssh.Base.Decimal.{atoi}
use multi_ssh.Registry.{Registration, Registry, added, remove, set_host_fp, with_host_fp}
use multi_ssh.Registry.Claims.{entry, displaced, add-eq-added, lookup-remove, lookup-set_host_fp}
use multi_ssh.Agents.{proto_of, register}
use multi_ssh.Handlers.{Phase, arriving, leaving, Handler, Handlers, close_found, close_conn}

abbrev pub is_leaving : Phase → Bool
is_leaving leaving = true
is_leaving p = false

abbrev pub is_arriving : Phase → Bool
is_arriving arriving = true
is_arriving p = false

-- The name leads to this connection.
abbrev pub LeadsTo : Registry → Text → ℕ → Type 0
LeadsTo r name conn = (g : Registration) × (lookup name r ≡ some g) × (g.conn ≡ conn)

-- A handler that is not leaving, and whose connection is not being closed.
abbrev pub IsActive : Handlers → ℕ → Handler → Type 0
IsActive hs conn h = (lookup conn hs ≡ some h) × (is_leaving h.phase ≡ false) × (h.closing ≡ false)

-- Each name of an active handler leads to its connection.
abbrev pub AllServed : Registry → Handlers → Type 0
AllServed r hs =
    (conn : ℕ) (h : Handler) (name : Text)
    → IsActive hs conn h
    → contains h.names name ≡ true
    → LeadsTo r name conn

-- A handler that is not closed by a claim was there, and is not the one that the claim displaces.
close_conn_open :
    (hs : Handlers) (o : Option ℕ) (conn : ℕ) (h : Handler)
    → lookup conn (close_conn hs o) ≡ some h
    → h.closing ≡ false
    → (lookup conn hs ≡ some h) × (o ≢ some conn)
unfolding close_conn close_found
close_conn_open hs none conn h e still = (e, λ x. ground arith)
close_conn_open hs (some other) conn h e still = elim (Option-cases (lookup other hs)) [
  | inl gone ↦
      let same : lookup conn hs ≡ some h = rw (gone, close_found) at e in
      (same, λ (x : some other ≡ some conn). ground arith)
  | inr (old, at) ↦
      let l = lookup-insert conn other (record old { closing = true }) hs in
      let now : lookup conn (insert other (record old { closing = true }) hs) ≡ some h =
        rw (at, close_found) at e in
      (ground arith, λ (x : some other ≡ some conn). ground arith)
]

names_split :
    (k name : Text) (ns : List Text)
    → contains (ns ++ name ∷ []) k ≡ true
    → (k == name) ≡ false
    → contains ns k ≡ true
names_split k name [] has differs = ground arith
names_split k name (n ∷ ns) has differs = ground (arith, names_split k name ns)

displaced_at :
    (r : Registry) (name : Text) (g : Registration) (conn : ℕ)
    → lookup name r ≡ some g
    → g.conn ≢ conn
    → displaced (lookup name r) conn ≡ some g.conn
displaced_at r name g conn e differs = rw e (ground arith)

-- A claim that was granted: the claimed name leads to the claimant, and whoever held it is closed.
pub AllServed-add :
    (r s : Registry) (hs : Handlers) (name : Text) (conn : ℕ) (closed : Option ℕ) (h : Handler)
    (phase : Phase)
    → register r name conn h.ext ≡ added s closed
    → lookup conn hs ≡ some h
    → is_leaving h.phase ≡ false
    → AllServed r hs
    → AllServed s (
        insert conn
          (record h { phase = phase; names = h.names ++ name ∷ [] })
          (close_conn hs closed))
AllServed-add r s hs name conn closed h phase e at stays all other o k (live, active, still) has =
    let proto = proto_of (atoi h.ext.proto) in
    let (shut, l) = add-eq-added r s name conn h.ext.fp proto h.ext.build h.ext.platform closed e in
    let new : Handler = record h { phase = phase; names = h.names ++ name ∷ [] } in
    let put = lookup-insert other conn new (close_conn hs closed) in
    elim (Bool-cases (other == conn)) [
      | inl here ↦
          let it : new ≡ o = ground arith in
          let holds' : contains (h.names ++ name ∷ []) k ≡ true =
            ap (λ x. contains x.names k) it ∙ has in
          elim (Bool-cases (k == name)) [
            | inl same ↦ (
              entry conn h.ext.fp proto h.ext.build h.ext.platform,
              ground (arith, l k),
              ground arith,
            )
            | inr differs ↦
                let (g, found, is) =
                  all conn h k (at, stays, ap (λ x. x.closing) it ∙ still)
                    (names_split k name h.names holds' differs) in
                (g, ground (arith, l k), ground arith)
          ]
      | inr away ↦
          let (was, spared) = close_conn_open hs closed other o (ground (arith, put)) still in
          let (g, found, is) = all other o k (was, active, still) has in
          elim (Bool-cases (k == name)) [
            | inr differs ↦ (g, ground (arith, l k), is)
            | inl same ↦
                let there : lookup name r ≡ some g = ground arith in
                absurd (
                  spared (
                    shut
                    ∙ displaced_at r name g conn there (λ (x : g.conn ≡ conn). ground arith)
                    ∙ ap (λ (n : ℕ). some n) is))
          ]
    ]

-- A name that its connection drops leads to another connection only if it did before.
pub AllServed-remove :
    (r : Registry) (hs : Handlers) (name : Text) (conn : ℕ) (new : Handler)
    → is_leaving new.phase ≡ true
    → AllServed r hs
    → AllServed (remove r name conn) (insert conn new hs)
AllServed-remove r hs name conn new leaves all other o k (live, active, still) has =
    let put = lookup-insert other conn new hs in
    let l = lookup-remove r name k conn in
    elim (Bool-cases (other == conn)) [
      | inl here ↦
          let it : new ≡ o = ground arith in
          absurd (ground (arith, ap (λ x. is_leaving x.phase) it))
      | inr away ↦
          let was : lookup other hs ≡ some o = ground (arith, put) in
          let (g, found, is) = all other o k (was, active, still) has in (g, ground (arith, l), is)
    ]

-- A handler that moves on with the names that it has.
pub AllServed-update :
    (r : Registry) (hs : Handlers) (conn : ℕ) (old new : Handler)
    → lookup conn hs ≡ some old
    → new.names ≡ old.names
    → new.closing ≡ old.closing
    → (is_leaving new.phase ≡ false → is_leaving old.phase ≡ false)
    → AllServed r hs
    → AllServed r (insert conn new hs)
AllServed-update r hs conn old new at names closing stays all other o k (live, active, still) has =
    let put = lookup-insert other conn new hs in
    elim (Bool-cases (other == conn)) [
      | inl here ↦
          let it : new ≡ o = ground arith in
          let (g, found, is) =
            all conn old k
              (
                at,
                stays (ap (λ x. is_leaving x.phase) it ∙ active),
                sym closing ∙ ap (λ x. x.closing) it ∙ still,
              )
              (ap (λ x. contains x k) (sym names) ∙ ap (λ x. contains x.names k) it ∙ has) in
          (g, found, ground arith)
      | inr away ↦ all other o k (ground (arith, put), active, still) has
    ]

pub AllServed-arrive :
    (r : Registry) (hs : Handlers) (conn : ℕ) (new : Handler)
    → new.names ≡ []
    → AllServed r hs
    → AllServed r (insert conn new hs)
AllServed-arrive r hs conn new bare all other o k (live, active, still) has =
    let put = lookup-insert other conn new hs in
    elim (Bool-cases (other == conn)) [
      | inl here ↦
          let it : new ≡ o = ground arith in
          let none' : contains [] k ≡ true =
            ap (λ x. contains x k) (sym bare) ∙ ap (λ x. contains x.names k) it ∙ has in
          absurd (ground arith)
      | inr away ↦ all other o k (ground (arith, put), active, still) has
    ]

pub AllServed-delete :
    (r : Registry) (hs : Handlers) (conn : ℕ) → AllServed r hs → AllServed r (delete conn hs)
AllServed-delete r hs conn all other o k (live, active, still) has =
    all other o k (ground (arith, lookup-delete other conn hs), active, still) has

pub AllServed-report :
    (r : Registry) (hs : Handlers) (conn : ℕ) (fp : Text)
    → AllServed r hs
    → AllServed (set_host_fp r conn fp) hs
AllServed-report r hs conn fp all other o k active has =
    let (g, found, is) = all other o k active has in
    (with_host_fp conn fp g, ground (arith, lookup-set_host_fp r k conn fp), ground arith)
