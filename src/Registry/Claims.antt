-- ===== src/Registry/Claims.antt =====
-- Who holds a name in the registry of cmd/proxy/main.go, after `add`, `remove` and `setHostFP`.
use multi_ssh.Base.{
  ℕ, sym, ◌∙◌, ◌≡◌, ◌≢◌, ◌⊎◌, inl, inr, [], Option, none, some, Text, ◌==◌, text_eq, lookup, ap,
  Bool-cases, insert, lookup-insert, lookup-delete, lookup-map_values, map_option, NodupKeys,
  insert-NodupKeys, delete-NodupKeys, map_values-NodupKeys, eqb, if◌then◌else◌, arith, Option-cases,
}
use multi_ssh.Registry.{
  Registration, Registry, Added, held_by, added, claim_name, after, add, get, remove, with_host_fp,
  set_host_fp,
}

abbrev pub entry : ℕ → Text → ℕ → Text → Text → Registration
entry conn fp proto build platform = record {
  conn = conn;
  fp = fp;
  proto = proto;
  build = build;
  platform = platform;
  host_fp = [];
}

-- The name is free, or held under this fingerprint.
abbrev pub MayClaim : Registry → Text → Text → Type 0
MayClaim r name fp =
    (lookup name r ≡ none) ⊎ ((old : Registration) × (lookup name r ≡ some old) × (old.fp ≡ fp))

-- The connection that a claim displaces.
abbrev pub displaced : Option Registration → ℕ → Option ℕ
displaced none conn = none
displaced (some old) conn = if eqb old.conn conn then none else some old.conn

-- A name that is free or held under the same fingerprint goes to the new connection, with its data
-- and no host key yet; every other name keeps its entry, and the connection that is closed is the
-- one that stood there, unless it is the same.
pub add_granted :
    (r : Registry) (name : Text) (conn : ℕ) (fp : Text) (proto : ℕ) (build platform : Text)
    → MayClaim r name fp
    → (s : Registry) × (add r name conn fp proto build platform
        ≡ added s (displaced (lookup name r) conn))
      × ((k : Text)
          → lookup k s
            ≡ (if k == name then some (entry conn fp proto build platform) else lookup k r))
unfolding add
add_granted r name conn fp proto build platform (inl free) =
    let new = entry conn fp proto build platform in
    (insert name new r, rw (free, claim_name), λ k. lookup-insert k name new r)
add_granted r name conn fp proto build platform (inr (old, e, same)) =
    let new = entry conn fp proto build platform in
    (insert name new r, rw (e, claim_name) (ground arith), λ k. lookup-insert k name new r)

add_refused :
    (r : Registry) (name : Text) (conn : ℕ) (fp : Text) (proto : ℕ) (build platform : Text)
    (old : Registration)
    → lookup name r ≡ some old
    → old.fp ≢ fp
    → add r name conn fp proto build platform ≡ held_by old.fp
unfolding add
add_refused r name conn fp proto build platform old e differ = rw (e, claim_name) (ground arith)

-- What an operation on the registry ends with when the name is held under another fingerprint: the
-- answer names that one, and the registry is as it was.
abbrev pub IsRefused : Registry → Option Registration → Text → Added → Type 0
IsRefused r old fp out =
    (g : Registration) × (old ≡ some g) × (g.fp ≢ fp) × (out ≡ held_by g.fp) × (after r out ≡ r)

-- What it ends with otherwise: the name stands for the new connection with its data and no host key
-- yet, every other name keeps its entry, and the connection to close is the one that stood there,
-- unless there is none or it is the same.
abbrev pub IsAdded : Registry → Text → Registration → Added → Type 0
IsAdded r name new out =
    MayClaim r name new.fp
    × (out ≡ added (after r out) (displaced (lookup name r) new.conn))
    × ((k : Text) → lookup k (after r out) ≡ (if k == name then some new else lookup k r))

-- A claim either meets a name held under another fingerprint; then it reports that fingerprint, and
-- the registry is unchanged. Or the name is free or held under the same fingerprint; then the name
-- goes to the new connection with its data, every other name keeps its entry, and the connection
-- that stood there is to be closed, unless it is the same.
pub add_lem :
    (r : Registry) (name : Text) (conn : ℕ) (fp : Text) (proto : ℕ) (build platform : Text)
    → IsRefused r (lookup name r) fp (add r name conn fp proto build platform)
      ⊎ IsAdded r name
          (entry conn fp proto build platform)
          (add r name conn fp proto build platform)
add_lem r name conn fp proto build platform = elim (Option-cases (lookup name r)) [
  | inl free ↦ inr (granted (inl free))
  | inr (old, e) ↦ elim (Bool-cases (old.fp == fp)) [
    | inl same ↦ let it : old.fp ≡ fp = ground arith in inr (granted (inr (old, e, it)))
    | inr differ ↦
        let apart : old.fp ≢ fp = λ same. ground arith in
        let out = add_refused r name conn fp proto build platform old e apart in
        inl (old, e, apart, out, ap (after r) out)
  ]
]
  where
    granted :
        MayClaim r name fp
        → IsAdded r name
            (entry conn fp proto build platform)
            (add r name conn fp proto build platform)
    granted may =
        let (s, e, l) = add_granted r name conn fp proto build platform may in
        let it : after r (add r name conn fp proto build platform) ≡ s = ap (after r) e in
        (
          may,
          e ∙ ap (λ (x : Registry). added x (displaced (lookup name r) conn)) (sym it),
          λ k. ap (lookup k) it ∙ l k,
        )

-- What a granted claim does, whatever made it granted.
pub add-eq-added :
    (r s : Registry) (name : Text) (conn : ℕ) (fp : Text) (proto : ℕ) (build platform : Text)
    (closed : Option ℕ)
    → add r name conn fp proto build platform ≡ added s closed
    → (closed ≡ displaced (lookup name r) conn)
      × ((k : Text)
          → lookup k s
            ≡ (if k == name then some (entry conn fp proto build platform) else lookup k r))
unfolding add claim_name
add-eq-added r s name conn fp proto build platform closed e =
    let new = entry conn fp proto build platform in
    (ground (arith, e), λ k. ground (arith, e, lookup-insert k name new r))

-- What `remove` leaves under a name: nothing under the name given, if that connection holds it, and
-- what was there otherwise.
abbrev pub unless_conn : ℕ → Option Registration → Option Registration
unless_conn conn none = none
unless_conn conn (some g) = if eqb g.conn conn then none else some g

pub lookup-remove :
    (r : Registry) (name k : Text) (conn : ℕ)
    → lookup k (remove r name conn)
      ≡ (if k == name then unless_conn conn (lookup k r) else lookup k r)
unfolding remove
lookup-remove r name k conn = ground (arith, lookup-delete k name r)

pub lookup-set_host_fp :
    (r : Registry) (k : Text) (conn : ℕ) (fp : Text)
    → lookup k (set_host_fp r conn fp) ≡ map_option (with_host_fp conn fp) (lookup k r)
unfolding set_host_fp
lookup-set_host_fp r k conn fp = lookup-map_values (with_host_fp conn fp) k r

-- A machine that reconnects keeps its name when the handler of its old connection ends: the late
-- `remove` of the old connection leaves the new one in place.
pub reconnect_survives :
    (r : Registry) (name : Text) (old new : ℕ) (fp : Text) (proto : ℕ) (build platform : Text)
    → MayClaim r name fp
    → old ≢ new
    → (s : Registry) × (add r name new fp proto build platform
        ≡ added s (displaced (lookup name r) new))
      × (get (remove s name old) name ≡ some new)
      × (get (remove s name new) name ≡ none)
unfolding get
reconnect_survives r name old new fp proto build platform may differ =
    let (s, e, l) = add_granted r name new fp proto build platform may in
    (
      s,
      e,
      ground (arith, l name, lookup-remove s name name old),
      ground (arith, l name, lookup-remove s name name new),
    )

pub add-NodupKeys :
    (r : Registry) (name : Text) (conn : ℕ) (fp : Text) (proto : ℕ) (build platform : Text)
    → NodupKeys r
    → NodupKeys (after r (add r name conn fp proto build platform))
unfolding add claim_name
add-NodupKeys r name conn fp proto build platform u =
    let new = entry conn fp proto build platform in ground (arith, insert-NodupKeys name new r u)

pub remove-NodupKeys :
    (r : Registry) (name : Text) (conn : ℕ) → NodupKeys r → NodupKeys (remove r name conn)
unfolding remove
remove-NodupKeys r name conn u = ground (arith, delete-NodupKeys name r u)

pub set_host_fp-NodupKeys :
    (r : Registry) (conn : ℕ) (fp : Text) → NodupKeys r → NodupKeys (set_host_fp r conn fp)
unfolding set_host_fp
set_host_fp-NodupKeys r conn fp u = map_values-NodupKeys (with_host_fp conn fp) r u

-- What a name has after a claim, granted or not.
pub lookup-add :
    (r : Registry) (name k : Text) (conn : ℕ) (fp : Text) (proto : ℕ) (build platform : Text)
    → (lookup k (after r (add r name conn fp proto build platform)) ≡ lookup k r)
      ⊎ ((k ≡ name)
          × (lookup k (after r (add r name conn fp proto build platform))
              ≡ some (entry conn fp proto build platform)))
unfolding add claim_name
lookup-add r name k conn fp proto build platform =
    let new = entry conn fp proto build platform in ground (arith, lookup-insert k name new r)
