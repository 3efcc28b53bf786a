-- ===== src/Registry.antt =====
-- The registry of cmd/proxy/main.go: which agents are connected, by name. A connection is a number,
-- as the program compares connections by identity only. Each operation runs under one lock.
pub mod Claims
pub mod Listing
use multi_ssh.Base.{
  ℕ, ◌≡◌, refl, Bool, true, false, List, [], ◌∷◌, map, Option, none, some, Text, ◌==◌, text_eq,
  nat_eq, Dict, lookup, insert, delete, keys, map_values, eqb, if◌then◌else◌, filter, ℕ_discrete,
}
use multi_ssh.Base.Strings.{codes, cut}
use multi_ssh.Base.Sort.{text_leb, sort}
use multi_ssh.Names.{is_canonical_name}

pub record Registration : Type 0 where
  pub conn : ℕ
  pub fp : Text
  pub proto : ℕ
  pub build : Text
  pub platform : Text
  pub host_fp : Text

-- One row of the listing.
pub record Target : Type 0 where
  pub friendly : Text
  pub canonical : Text
  pub proto : ℕ
  pub fp : Text
  pub build : Text
  pub platform : Text
  pub host_fp : Text

abbrev pub Registry : Type 0
Registry = Dict Text Registration

unfoldable pub new_registry : Registry
new_registry = []

pub data Added : Type 0 where
  -- the name is held by a machine with this fingerprint
  held_by : Text → Added
  -- the new registry, and the stale connection that is closed
  added : Registry → Option ℕ → Added

-- The registry that a claim leaves.
abbrev pub after : Registry → Added → Registry
after r (held_by fp) = r
after r (added s closed) = s

claim_name : Registry → Text → Registration → Option Registration → Added
claim_name r name new none = added (insert name new r) none
claim_name r name new (some old) =
    if old.fp == new.fp
    then added (insert name new r) (if eqb old.conn new.conn then none else some old.conn)
    else held_by old.fp

unfoldable pub add : Registry → Text → ℕ → Text → ℕ → Text → Text → Added
unfolding claim_name
add r name conn fp proto build platform =
    claim_name r name
      (record {
        conn = conn;
        fp = fp;
        proto = proto;
        build = build;
        platform = platform;
        host_fp = [];
      })
      (lookup name r)

-- The connection under a name.
unfoldable pub get : Registry → Text → Option ℕ
get r name = elim (lookup name r) [ none ↦ none | some g ↦ some g.conn ]

-- Drops the name only if it still points at this connection.
unfoldable pub remove : Registry → Text → ℕ → Registry
remove r name conn = elim (lookup name r) [
  | none ↦ r
  | some cur ↦ if eqb cur.conn conn then delete name r else r
]

-- The first loop of `listing`: the friendly name of each connection.
unfoldable pub friendly_names : Dict ℕ Text → Registry → Dict ℕ Text
friendly_names acc [] = acc
friendly_names acc ((name, g) ∷ r) =
    friendly_names (if is_canonical_name name then acc else insert g.conn name acc) r

-- The canonical names, sorted.
unfoldable pub canonical_names : Registry → List Text
canonical_names r = sort text_leb (filter is_canonical_name (keys r))

-- A string from a map: the empty string if the key is missing.
abbrev pub or_empty : Option Text → Text
or_empty none = []
or_empty (some s) = s

pub row : Dict ℕ Text → Text → Option Registration → Target
row friendly c none = record {
  friendly = [];
  canonical = c;
  proto = 0;
  fp = [];
  build = [];
  platform = [];
  host_fp = [];
}
row friendly c (some g) = record {
  friendly = or_empty (lookup g.conn friendly);
  canonical = c;
  proto = g.proto;
  fp = g.fp;
  build = g.build;
  platform = g.platform;
  host_fp = g.host_fp;
}

unfoldable pub listing : Registry → List Target
unfolding row
listing r = map (λ c. row (friendly_names [] r) c (lookup c r)) (canonical_names r)

abbrev pub with_host_fp : ℕ → Text → Registration → Registration
with_host_fp conn fp g = if eqb g.conn conn then record g { host_fp = fp } else g

-- Against every name that the connection holds.
unfoldable pub set_host_fp : Registry → ℕ → Text → Registry
set_host_fp r conn fp = map_values (with_host_fp conn fp) r

fold_connections : Dict ℕ Text → Registry → Dict ℕ Text
fold_connections out [] = out
fold_connections out ((name, g) ∷ r) = fold_connections (insert g.conn g.fp out) r

-- Every distinct connection with its fingerprint.
unfoldable pub connections : Registry → Dict ℕ Text
unfolding fold_connections
connections r = fold_connections [] r

laptop : Registry
laptop = elim (add new_registry (codes "laptop") 7 (codes "fp") 1 [] []) [
  | held_by o ↦ []
  | added r c ↦ r
]

laptop_conn : get laptop (codes "laptop") ≡ some 7
unfolding laptop add new_registry get insert lookup text_eq ℕ_discrete
laptop_conn = refl
