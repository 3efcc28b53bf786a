-- ===== src/Handlers/Owned.antt =====
-- Who owns the names in the registry at each step of the handlers (cmd/proxy/main.go).
use mathlib.Core.Path.{subst}
use multi_ssh.Base.{
  ℕ, ◌≡◌, ◌≢◌, ◌⊎◌, inl, inr, refl, sym, ap, ◌∙◌, true, List, [], ◌∷◌, ◌++◌, Option, none, some,
  Text, ◌==◌, text_eq, nat_eq, lookup, insert, delete, lookup-insert, lookup-delete, contains, eqb,
  Bool-cases, Option-cases, arith,
}
use multi_ssh.Base.Decimal.{atoi}
use multi_ssh.Names.{PublicKey, Sha256, verify_canonical_name}
use multi_ssh.Registry.{Registration, Registry, added, remove, set_host_fp, with_host_fp}
use multi_ssh.Registry.Claims.{entry, displaced, add-eq-added, lookup-remove, lookup-set_host_fp}
use multi_ssh.Auth.{Checker}
use multi_ssh.Agents.{proto_of, register}
use multi_ssh.Handlers.{Phase, Handler, Handlers, close_found, close_conn}

-- What the listing shows as host key of an entry: nothing, or the fingerprint of a key that gives the
-- canonical name.
abbrev pub IsShownKey : Sha256 → Checker → Text → Text → Type 0
IsShownKey sha c canonical host_fp =
    (host_fp ≡ [])
    ⊎ ((key : PublicKey) × (verify_canonical_name sha canonical key ≡ true)
        × (host_fp ≡ c.fingerprint key))

-- An entry stands under a name that its connection's handler holds, with its agent's fingerprint and
-- with a host key that fits that agent's canonical name.
abbrev pub IsOwned : Sha256 → Checker → Handlers → Text → Registration → Type 0
IsOwned sha c hs name g =
    (h : Handler) × (lookup g.conn hs ≡ some h)
    × (contains h.names name ≡ true)
    × (g.fp ≡ h.ext.fp)
    × IsShownKey sha c h.ext.canonical g.host_fp

abbrev pub AllOwned : Sha256 → Checker → Registry → Handlers → Type 0
AllOwned sha c r hs =
    (name : Text) (g : Registration) → lookup name r ≡ some g → IsOwned sha c hs name g

contains-last :
    (k name : Text) (ns : List Text) → (k == name) ≡ true → contains (ns ++ name ∷ []) k ≡ true
contains-last k name [] same = ground arith
contains-last k name (n ∷ ns) same = ground (arith, contains-last k name ns same)

contains-more :
    (k name : Text) (ns : List Text) → contains ns k ≡ true → contains (ns ++ name ∷ []) k ≡ true
contains-more k name [] has = ground arith
contains-more k name (n ∷ ns) has = ground (arith, contains-more k name ns)

kept_name :
    (k name : Text) (old ns : List Text)
    → old ≡ name ∷ ns
    → contains old k ≡ true
    → k ≢ name
    → contains ns k ≡ true
kept_name k name old ns e has differs = ground arith

displaced_other : (o : Option Registration) (conn : ℕ) → displaced o conn ≢ some conn
displaced_other none conn h = absurd (ground arith)
displaced_other (some old) conn h = absurd (ground arith)

module _ (sha : Sha256) (c : Checker) where
  -- A handler may change what is not its identity, and gain names.
  pub IsOwned-update :
      (hs : Handlers) (conn : ℕ) (old new : Handler) (name : Text) (g : Registration)
      → lookup conn hs ≡ some old
      → new.ext ≡ old.ext
      → (contains old.names name ≡ true → contains new.names name ≡ true)
      → IsOwned sha c hs name g
      → IsOwned sha c (insert conn new hs) name g
  IsOwned-update hs conn old new name g at same more (h, live, has, fp, key) =
      elim (Bool-cases (g.conn == conn)) [
        | inr other ↦ (h, ground (arith, lookup-insert g.conn conn new hs), has, fp, key)
        | inl here ↦
            let it : h ≡ old = ground arith in
            let ext : h.ext ≡ new.ext = ap (λ o. o.ext) it ∙ sym same in
            (
              new,
              ground (arith, lookup-insert g.conn conn new hs),
              more (ap (λ o. contains o.names name) (sym it) ∙ has),
              fp ∙ ap (λ x. x.fp) ext,
              subst (λ x. IsShownKey sha c x.canonical g.host_fp) ext key,
            )
      ]

  pub IsOwned-close_conn :
      (hs : Handlers) (o : Option ℕ) (name : Text) (g : Registration)
      → IsOwned sha c hs name g
      → IsOwned sha c (close_conn hs o) name g
  unfolding close_conn close_found
  IsOwned-close_conn hs none name g i = i
  IsOwned-close_conn hs (some conn) name g i = elim (Option-cases (lookup conn hs)) [
    | inl e ↦ rw (e, close_found) i
    | inr (h, e) ↦
        rw (e, close_found)
          (IsOwned-update hs conn h (record h { closing = true }) name g e refl (λ x. x) i)
  ]

  -- The end of a handler that has no name left, or of another.
  pub IsOwned-delete :
      (hs : Handlers) (conn : ℕ) (old : Handler) (name : Text) (g : Registration)
      → lookup conn hs ≡ some old
      → old.names ≡ []
      → IsOwned sha c hs name g
      → IsOwned sha c (delete conn hs) name g
  IsOwned-delete hs conn old name g at bare (h, live, has, fp, key) =
      (h, ground (arith, lookup-delete g.conn conn hs), has, fp, key)

  -- An entry that its connection has just claimed.
  pub IsOwned-claimed :
      (hs : Handlers) (conn proto : ℕ) (h : Handler) (name : Text) (k : Text)
      → contains h.names k ≡ true
      → IsOwned sha c (insert conn h hs) k (entry conn h.ext.fp proto h.ext.build h.ext.platform)
  IsOwned-claimed hs conn proto h name k has =
      (h, ground (arith, lookup-insert conn conn h hs), has, refl, inl refl)

  close_conn_other :
      (hs : Handlers) (o : Option ℕ) (conn : ℕ)
      → o ≢ some conn
      → lookup conn (close_conn hs o) ≡ lookup conn hs
  unfolding close_conn close_found
  close_conn_other hs none conn differs = refl
  close_conn_other hs (some other) conn differs = elim (Option-cases (lookup other hs)) [
    | inl e ↦ rw (e, close_found)
    | inr (h, e) ↦
        rw (e, close_found)
          (ground (arith, lookup-insert conn other (record h { closing = true }) hs))
  ]

  -- A claim that was granted.
  pub AllOwned-add :
      (r s : Registry) (hs : Handlers) (name : Text) (conn : ℕ) (closed : Option ℕ) (h : Handler)
      (phase : Phase)
      → register r name conn h.ext ≡ added s closed
      → lookup conn hs ≡ some h
      → AllOwned sha c r hs
      → AllOwned sha c s (
          insert conn
            (record h { phase = phase; names = h.names ++ name ∷ [] })
            (close_conn hs closed))
  AllOwned-add r s hs name conn closed h phase e at all k g found =
      let proto = proto_of (atoi h.ext.proto) in
      let (shut, l) =
        add-eq-added r s name conn h.ext.fp proto h.ext.build h.ext.platform closed e in
      let new : Handler = record h { phase = phase; names = h.names ++ name ∷ [] } in
      let still =
        close_conn_other hs closed conn (λ x. displaced_other (lookup name r) conn (sym shut ∙ x))
        ∙ at in
      elim (Bool-cases (k == name)) [
        | inl same ↦
            let it : entry conn h.ext.fp proto h.ext.build h.ext.platform ≡ g =
              ground (arith, l k) in
            subst (IsOwned sha c (insert conn new (close_conn hs closed)) k) it (
              IsOwned-claimed (close_conn hs closed) conn proto new name k
                (contains-last k name h.names same))
        | inr other ↦
            IsOwned-update (close_conn hs closed) conn h new k g still refl
              (contains-more k name h.names)
              (IsOwned-close_conn hs closed k g (all k g (ground (arith, l k))))
      ]

  -- A name that its connection drops.
  pub AllOwned-remove :
      (r : Registry) (hs : Handlers) (name : Text) (conn : ℕ) (h : Handler) (ns : List Text)
      → lookup conn hs ≡ some h
      → h.names ≡ name ∷ ns
      → AllOwned sha c r hs
      → AllOwned sha c (remove r name conn) (insert conn (record h { names = ns }) hs)
  AllOwned-remove r hs name conn h ns at e all k g found =
      let l = lookup-remove r name k conn in
      let old : lookup k r ≡ some g = ground (arith, l) in
      let (o, live, has, fp, key) = all k g old in
      elim (Bool-cases (g.conn == conn)) [
        | inr other ↦ (
          o,
          ground (arith, lookup-insert g.conn conn (record h { names = ns }) hs),
          has,
          fp,
          key,
        )
        | inl here ↦
            let it : o ≡ h = ground arith in
            (
              record h { names = ns },
              ground (arith, lookup-insert g.conn conn (record h { names = ns }) hs),
              kept_name k name h.names ns e (ap (λ x. contains x.names k) (sym it) ∙ has)
                  (λ (same : k ≡ name). ground arith),
              fp ∙ ap (λ x. x.ext.fp) it,
              subst (λ x. IsShownKey sha c x.ext.canonical g.host_fp) it key,
            )
      ]

  -- A host key that was checked against the name of the connection.
  pub AllOwned-report :
      (r : Registry) (hs : Handlers) (conn : ℕ) (h : Handler) (fp : Text) (key : PublicKey)
      → lookup conn hs ≡ some h
      → verify_canonical_name sha h.ext.canonical key ≡ true
      → fp ≡ c.fingerprint key
      → AllOwned sha c r hs
      → AllOwned sha c (set_host_fp r conn fp) hs
  AllOwned-report r hs conn h fp key at v is all k g found = elim (Option-cases (lookup k r)) [
    | inl e ↦ absurd (ground (arith, lookup-set_host_fp r k conn fp))
    | inr (old, e) ↦
        let (o, live, has, same, shown) = all k old e in
        let it : with_host_fp conn fp old ≡ g = ground (arith, lookup-set_host_fp r k conn fp) in
        subst (IsOwned sha c hs k) it (elim (Bool-cases (eqb old.conn conn)) [
          | inr other ↦ rw other (o, live, has, same, shown)
          | inl here ↦
              let ours : h ≡ o = ground arith in
              rw here (
                o,
                live,
                has,
                same,
                inr (
                  key,
                  ap (λ x. verify_canonical_name sha x.ext.canonical key) (sym ours) ∙ v,
                  is,
                ),
              )
        ])
  ]
