-- ===== src/Handlers/Sound.antt =====
-- The steps of the handlers (cmd/proxy/main.go) keep the registry sound.
use multi_ssh.Base.{
  ℕ, ◌≡◌, inl, inr, refl, sym, ap, ◌∙◌, Bool, true, false, List, [], ◌∷◌, ◌++◌, Option, none, some,
  Text, ◌==◌, text_eq, nat_eq, lookup, insert, delete, holds, lookup-insert, lookup-delete,
  contains, Bool-cases, Option-cases, arith,
}
use multi_ssh.Base.Files.{Wrote}
use multi_ssh.Names.{Bytes, PublicKey, Sha256, verify_canonical_name}
use multi_ssh.Protocol.{Wire, parse_host_key_report}
use multi_ssh.Auth.{Checker, Extensions}
use multi_ssh.Ledger.{Ledger}
use multi_ssh.Ledger
use multi_ssh.Registry.{Registry, Added, held_by, added}
use multi_ssh.Agents.{register, checked_key}
use multi_ssh.Handlers.{
  Phase, arriving, named, granted, ready, waiting, leaving, Handler, Handlers, Proxy, close_found,
  close_conn, new_handler, arrive, take_name, add_canonical, claim_friendly, add_friendly,
  drop_name, next, advance_found, advance, set_reported, report_found, report,
}
use multi_ssh.Handlers.Owned.{
  AllOwned, IsOwned-update, IsOwned-delete, AllOwned-add, AllOwned-remove, AllOwned-report,
}
use multi_ssh.Handlers.Served.{
  is_leaving, is_arriving, AllServed, AllServed-add, AllServed-remove, AllServed-update,
  AllServed-arrive, AllServed-delete, AllServed-report,
}

-- A handler that has not claimed its canonical name holds no name.
abbrev pub AllBare : Handlers → Type 0
AllBare hs =
    (conn : ℕ) (h : Handler) → lookup conn hs ≡ some h → is_arriving h.phase ≡ true → h.names ≡ []

AllBare-insert :
    (hs : Handlers) (conn : ℕ) (new : Handler)
    → (is_arriving new.phase ≡ true → new.names ≡ [])
    → AllBare hs
    → AllBare (insert conn new hs)
AllBare-insert hs conn new bare all other o live starts = elim (Bool-cases (other == conn)) [
  | inl here ↦
      let it : new ≡ o = ground (arith, lookup-insert other conn new hs) in
      sym (ap (λ x. x.names) it) ∙ bare (ap (λ x. is_arriving x.phase) it ∙ starts)
  | inr away ↦ all other o (ground (arith, lookup-insert other conn new hs)) starts
]

AllBare-close_conn : (hs : Handlers) (o : Option ℕ) → AllBare hs → AllBare (close_conn hs o)
unfolding close_conn close_found
AllBare-close_conn hs none all = all
AllBare-close_conn hs (some conn) all = elim (Option-cases (lookup conn hs)) [
  | inl e ↦ rw (e, close_found) all
  | inr (h, e) ↦
      rw (e, close_found)
        (AllBare-insert hs conn (record h { closing = true }) (λ starts. all conn h e starts) all)
]

AllBare-delete : (hs : Handlers) (conn : ℕ) → AllBare hs → AllBare (delete conn hs)
AllBare-delete hs conn all other o live starts =
    all other o (ground (arith, lookup-delete other conn hs)) starts

arriving_not_leaving : (p : Phase) → is_arriving p ≡ true → is_leaving p ≡ true → ⊥
arriving_not_leaving arriving a l = cc
arriving_not_leaving leaving a l = cc
arriving_not_leaving named a l = cc
arriving_not_leaving granted a l = cc
arriving_not_leaving ready a l = cc
arriving_not_leaving waiting a l = cc

module _ (sha : Sha256) (c : Checker) where
  pub record IsSound (s : Proxy) : Type 0 where
    pub owned : AllOwned sha c s.registry s.handlers
    pub served : AllServed s.registry s.handlers
    pub bare : AllBare s.handlers

  -- A handler that only moves on.
  moves_on :
      (s : Proxy) (conn : ℕ) (h new : Handler)
      → lookup conn s.handlers ≡ some h
      → new.ext ≡ h.ext
      → new.names ≡ h.names
      → new.closing ≡ h.closing
      → is_arriving new.phase ≡ false
      → (is_leaving new.phase ≡ false → is_leaving h.phase ≡ false)
      → IsSound s
      → IsSound (record s { handlers = insert conn new s.handlers })
  moves_on s conn h new at ext names closing past stays i = record {
    owned = λ k g found.
        IsOwned-update sha c s.handlers conn h new k g at ext
          (λ has. ap (λ x. contains x k) names ∙ has) (i.owned k g found);
    served = AllServed-update s.registry s.handlers conn h new at names closing stays i.served;
    bare = AllBare-insert s.handlers conn new (λ starts. cc) i.bare;
  }

  ends :
      (s : Proxy) (conn : ℕ) (h : Handler)
      → lookup conn s.handlers ≡ some h
      → h.names ≡ []
      → IsSound s
      → IsSound (record s { handlers = delete conn s.handlers })
  ends s conn h at bare i = record {
    owned = λ k g found. IsOwned-delete sha c s.handlers conn h k g at bare (i.owned k g found);
    served = AllServed-delete s.registry s.handlers conn i.served;
    bare = AllBare-delete s.handlers conn i.bare;
  }

  takes :
      (s : Proxy) (conn : ℕ) (h : Handler) (phase : Phase) (name : Text) (r : Registry)
      (closed : Option ℕ)
      → register s.registry name conn h.ext ≡ added r closed
      → lookup conn s.handlers ≡ some h
      → is_leaving h.phase ≡ false
      → is_arriving phase ≡ false
      → IsSound s
      → IsSound (take_name s conn h phase name r closed)
  unfolding take_name
  takes s conn h phase name r closed e at stays past i = record {
    owned = AllOwned-add sha c s.registry r s.handlers name conn closed h phase e at i.owned;
    served = AllServed-add s.registry r s.handlers name conn closed h phase e at stays i.served;
    bare =
        AllBare-insert (close_conn s.handlers closed) conn
          (record h { phase = phase; names = h.names ++ name ∷ [] }) (λ starts. cc)
          (AllBare-close_conn s.handlers closed i.bare);
  }

  add_canonical-IsSound :
      (s : Proxy) (conn : ℕ) (h : Handler) (a : Added)
      → register s.registry h.ext.canonical conn h.ext ≡ a
      → lookup conn s.handlers ≡ some h
      → h.phase ≡ arriving
      → IsSound s
      → IsSound (add_canonical s conn h a)
  unfolding add_canonical
  add_canonical-IsSound s conn h (held_by fp) e at p i =
      ends s conn h at (i.bare conn h at (ap is_arriving p)) i
  add_canonical-IsSound s conn h (added r closed) e at p i =
      takes s conn h named h.ext.canonical r closed e at (ap is_leaving p) refl i

  add_friendly-IsSound :
      (s : Proxy) (conn : ℕ) (h : Handler) (a : Added)
      → register s.registry h.ext.friendly conn h.ext ≡ a
      → lookup conn s.handlers ≡ some h
      → h.phase ≡ granted
      → IsSound s
      → IsSound (add_friendly s conn h a)
  unfolding add_friendly
  add_friendly-IsSound s conn h (held_by fp) e at p i =
      moves_on s conn h (record h { phase = ready }) at refl refl refl refl (λ x. ap is_leaving p) i
  add_friendly-IsSound s conn h (added r closed) e at p i =
      takes s conn h ready h.ext.friendly r closed e at (ap is_leaving p) refl i

  claim_friendly-IsSound :
      (s : Proxy) (conn : ℕ) (h : Handler) (a : Ledger × Bool)
      → lookup conn s.handlers ≡ some h
      → h.phase ≡ named
      → IsSound s
      → IsSound (claim_friendly s conn h a)
  unfolding claim_friendly
  claim_friendly-IsSound s conn h (book, true) at p i =
      let j =
        moves_on s conn h (record h { phase = granted }) at refl refl refl refl
          (λ x. ap is_leaving p) i in
      record { owned = j.owned; served = j.served; bare = j.bare }
  claim_friendly-IsSound s conn h (book, false) at p i =
      let j =
        moves_on s conn h (record h { phase = ready }) at refl refl refl refl (λ x. ap is_leaving p)
          i in
      record { owned = j.owned; served = j.served; bare = j.bare }

  drop_name-IsSound :
      (s : Proxy) (conn : ℕ) (h : Handler) (ns : List Text)
      → h.names ≡ ns
      → lookup conn s.handlers ≡ some h
      → h.phase ≡ leaving
      → IsSound s
      → IsSound (drop_name s conn h ns)
  unfolding drop_name
  drop_name-IsSound s conn h [] e at p i = ends s conn h at e i
  drop_name-IsSound s conn h (n ∷ ns) e at p i = record {
    owned = AllOwned-remove sha c s.registry s.handlers n conn h ns at e i.owned;
    served =
        AllServed-remove s.registry s.handlers n conn (record h { names = ns }) (ap is_leaving p)
          i.served;
    bare =
        AllBare-insert s.handlers conn (record h { names = ns })
          (λ starts. absurd (arriving_not_leaving h.phase starts (ap is_leaving p))) i.bare;
  }

  next-IsSound :
      (s : Proxy) (conn now : ℕ) (w : Wrote) (h : Handler) (p : Phase)
      → h.phase ≡ p
      → lookup conn s.handlers ≡ some h
      → IsSound s
      → IsSound (next s conn now w h p)
  unfolding next
  next-IsSound s conn now w h arriving p at i =
      add_canonical-IsSound s conn h (register s.registry h.ext.canonical conn h.ext) refl at p i
  next-IsSound s conn now w h named p at i = elim (Bool-cases (h.ext.friendly == [])) [
    | inl e ↦ rw e (
        moves_on s conn h (record h { phase = ready }) at refl refl refl refl (λ x. ap is_leaving p)
          i)
    | inr e ↦
        rw e
          (claim_friendly-IsSound s conn h (Ledger.claim s.book h.ext.friendly h.ext.fp w) at p i)
  ]
  next-IsSound s conn now w h granted p at i =
      add_friendly-IsSound s conn h (register s.registry h.ext.friendly conn h.ext) refl at p i
  next-IsSound s conn now w h ready p at i =
      let j =
        moves_on s conn h (record h { phase = waiting }) at refl refl refl refl
          (λ x. ap is_leaving p) i in
      record { owned = j.owned; served = j.served; bare = j.bare }
  next-IsSound s conn now w h waiting p at i =
      let j =
        moves_on s conn h (record h { phase = leaving }) at refl refl refl refl
          (λ x. ap is_leaving p) i in
      record { owned = j.owned; served = j.served; bare = j.bare }
  next-IsSound s conn now w h leaving p at i = drop_name-IsSound s conn h h.names refl at p i

  pub advance-IsSound :
      (s : Proxy) (conn now : ℕ) (w : Wrote) → IsSound s → IsSound (advance s conn now w)
  unfolding advance
  advance-IsSound s conn now w i = elim (Option-cases (lookup conn s.handlers)) [
    | inl e ↦ rw (e, advance_found) i
    | inr (h, e) ↦ rw (e, advance_found) (next-IsSound s conn now w h h.phase refl e i)
  ]

  pub arrive-IsSound :
      (s : Proxy) (conn : ℕ) (ext : Extensions)
      → holds conn s.handlers ≡ false
      → IsSound s
      → IsSound (arrive s conn ext)
  unfolding arrive holds
  arrive-IsSound s conn ext new i = record {
    owned = λ k g found.
        let (h, live, has, fp, key) = i.owned k g found in
        (h, ground (arith, lookup-insert g.conn conn (new_handler ext) s.handlers), has, fp, key);
    served = AllServed-arrive s.registry s.handlers conn (new_handler ext) refl i.served;
    bare = AllBare-insert s.handlers conn (new_handler ext) (λ starts. refl) i.bare;
  }

  reported :
      (s : Proxy) (conn : ℕ) (h : Handler) (o : Option PublicKey)
      → lookup conn s.handlers ≡ some h
      → IsSound s
      → IsSound (record s {
        registry = set_reported s.registry conn (checked_key sha c h.ext.canonical o);
      })
  unfolding checked_key set_reported
  reported s conn h none at i = record { owned = i.owned; served = i.served; bare = i.bare }
  reported s conn h (some key) at i =
      elim (Bool-cases (verify_canonical_name sha h.ext.canonical key)) [
        | inr e ↦ rw e (record { owned = i.owned; served = i.served; bare = i.bare })
        | inl e ↦ rw e (record {
          owned =
              AllOwned-report sha c s.registry s.handlers conn h (c.fingerprint key) key at e refl
                i.owned;
          served = AllServed-report s.registry s.handlers conn (c.fingerprint key) i.served;
          bare = i.bare;
        })
      ]

  pub report-IsSound :
      (wire : Wire) (s : Proxy) (conn : ℕ) (payload : Bytes)
      → IsSound s
      → IsSound (report sha wire c s conn payload)
  unfolding report
  report-IsSound wire s conn payload i = elim (Option-cases (lookup conn s.handlers)) [
    | inl e ↦ rw (e, report_found) i
    | inr (h, e) ↦ rw (e, report_found) (reported s conn h (parse_host_key_report wire payload) e i)
  ]
