-- ===== src/Door/Bounded.antt =====
-- The connections in flight on a listener of cmd/proxy/main.go, and its limit.
use mathlib.Core.Option.{some-injective, none-ne-some, some-ne-none}
use mathlib.Core.Path.{subst}
use multi_ssh.Base.Int.{pos}
use multi_ssh.Base.{
  ◌-◌, ap, insert, delete, lookup-delete, ℕ, suc, ◌≤◌, ◌≡◌, ◌≢◌, refl, sym, ◌∙◌, ◌⊎◌, inl, inr,
  true, false, List, [], ◌∷◌, Option, none, some, Text, text_eq, nat_eq, Dict, lookup, holds,
  NodupKeys, insert-NodupKeys, delete-NodupKeys, length-insert, length-delete, length, Bool-cases,
  Option-cases, arith,
}
use multi_ssh.Limiter.{Limiter, allow}
use multi_ssh.Door.Semaphore.{Slots, new_slots, take, give, in_use}
use multi_ssh.Door.{
  Phase, taken, shaking, handled, leaving, Door, Event, arrives, judged, fails, succeeds, returns,
  gives, with_slots, judge, enter, exit, fail_from, succeed, return_from, at_phase, step,
}

-- The slots in use are the connections that hold one, and no more than the limit, if there is one.
abbrev pub Fits : Option ℕ → Option Slots → ℕ → Type 0
Fits limit none n = limit ≡ none
Fits limit (some s) n = (limit ≡ some s.cap) × (s.used ≡ n) × (s.used ≤ s.cap)

pub record IsCounted (limit : Option ℕ) (d : Door) : Type 0 where
  pub ids : NodupKeys d.inside
  pub fits : Fits limit d.slots (length d.inside)

-- The step was made, into a state where the slots are counted right.
abbrev pub Made : Option ℕ → Option Door → Type 0
Made limit none = ⊥
Made limit (some d) = IsCounted limit d

length-insert_held :
    (id : ℕ) (p : Phase) (m : Dict ℕ Phase) → holds id m ≡ true → length (insert id p m) ≡ length m
unfolding holds lookup insert
length-insert_held id p [] h = absurd (ground arith)
length-insert_held id p ((k, q) ∷ m) h = ground (arith, length-insert_held id p m)

held : (id : ℕ) (m : Dict ℕ Phase) (p : Phase) → lookup id m ≡ some p → holds id m ≡ true
unfolding holds
held id m p e = ground arith

module _ (limit : Option ℕ) (f : Limiter) (m : Dict ℕ Phase) (id : ℕ) (u : NodupKeys m) where
  door : Option Slots → Door
  door s = record { slots = s; failures = f; inside = m }

  enter-Made :
      (o : Option Slots) (peer : Text)
      → Fits limit o (length m)
      → holds id m ≡ false
      → Made limit (enter (door o) peer id (take o))
  unfolding enter take door
  enter-Made none peer c h =
      ground (arith, insert-NodupKeys id (taken peer) m u, length-insert id (taken peer) m h)
  enter-Made (some s) peer c h =
      ground (arith, insert-NodupKeys id (taken peer) m u, length-insert id (taken peer) m h)

  at_phase-Made :
      (o : Option Slots) (p : Phase)
      → Fits limit o (length m)
      → holds id m ≡ true
      → Made limit (at_phase (door o) id p)
  unfolding at_phase door
  at_phase-Made o p c h = record {
    ids = insert-NodupKeys id p m u;
    fits = rw (length-insert_held id p m h) c;
  }

  -- Giving a slot back never blocks.
  exit-Made :
      (o : Option Slots)
      → Fits limit o (length m)
      → holds id m ≡ true
      → Made limit (exit (door o) id (some leaving))
  unfolding exit with_slots give door
  exit-Made none c h = ground (arith, delete-NodupKeys id m u, length-delete id m u h)
  exit-Made (some s) c h = ground (arith, delete-NodupKeys id m u, length-delete id m u h)

-- Every step keeps the count right.
module _ (limit : Option ℕ) (d : Door) (id : ℕ) (c : IsCounted limit d) where
  moved :
      (g : Limiter) (p q : Phase)
      → lookup id d.inside ≡ some q
      → Made limit (at_phase (record d { failures = g }) id p)
  unfolding door
  moved g p q e = at_phase-Made limit g d.inside id c.ids d.slots p c.fits (held id d.inside q e)

  arrives-IsCounted :
      (peer : Text) → (step d (arrives peer id) ≡ none) ⊎ Made limit (step d (arrives peer id))
  unfolding step door
  arrives-IsCounted peer = elim (Bool-cases (holds id d.inside)) [
    | inl h ↦ inl (rw h refl)
    | inr h ↦ inr (rw h (enter-Made limit d.failures d.inside id c.ids d.slots peer c.fits h))
  ]

  judge-IsCounted :
      (now : ℕ) (o : Option Phase)
      → lookup id d.inside ≡ o
      → (judge d now id o ≡ none) ⊎ Made limit (judge d now id o)
  unfolding judge
  judge-IsCounted now none e = inl refl
  judge-IsCounted now (some (taken peer)) e = inr (moved d.failures _ (taken peer) e)
  judge-IsCounted now (some (shaking peer)) e = inl refl
  judge-IsCounted now (some handled) e = inl refl
  judge-IsCounted now (some leaving) e = inl refl

  fail_from-IsCounted :
      (now : ℕ) (o : Option Phase)
      → lookup id d.inside ≡ o
      → (fail_from d now id o ≡ none) ⊎ Made limit (fail_from d now id o)
  unfolding fail_from
  fail_from-IsCounted now none e = inl refl
  fail_from-IsCounted now (some (taken peer)) e = inl refl
  fail_from-IsCounted now (some (shaking peer)) e =
      inr (moved (allow d.failures now peer).0 leaving (shaking peer) e)
  fail_from-IsCounted now (some handled) e = inl refl
  fail_from-IsCounted now (some leaving) e = inl refl

  succeed-IsCounted :
      (o : Option Phase)
      → lookup id d.inside ≡ o
      → (succeed d id o ≡ none) ⊎ Made limit (succeed d id o)
  unfolding succeed
  succeed-IsCounted none e = inl refl
  succeed-IsCounted (some (taken peer)) e = inl refl
  succeed-IsCounted (some (shaking peer)) e = inr (moved d.failures handled (shaking peer) e)
  succeed-IsCounted (some handled) e = inl refl
  succeed-IsCounted (some leaving) e = inl refl

  return_from-IsCounted :
      (o : Option Phase)
      → lookup id d.inside ≡ o
      → (return_from d id o ≡ none) ⊎ Made limit (return_from d id o)
  unfolding return_from
  return_from-IsCounted none e = inl refl
  return_from-IsCounted (some (taken peer)) e = inl refl
  return_from-IsCounted (some (shaking peer)) e = inl refl
  return_from-IsCounted (some handled) e = inr (moved d.failures leaving handled e)
  return_from-IsCounted (some leaving) e = inl refl

  exit-IsCounted :
      (o : Option Phase) → lookup id d.inside ≡ o → (exit d id o ≡ none) ⊎ Made limit (exit d id o)
  unfolding exit door
  exit-IsCounted none e = inl refl
  exit-IsCounted (some (taken peer)) e = inl refl
  exit-IsCounted (some (shaking peer)) e = inl refl
  exit-IsCounted (some handled) e = inl refl
  exit-IsCounted (some leaving) e =
      inr (exit-Made limit d.failures d.inside id c.ids d.slots c.fits (held id d.inside leaving e))

step-IsCounted :
    (limit : Option ℕ) (d : Door) (e : Event)
    → IsCounted limit d
    → (step d e ≡ none) ⊎ Made limit (step d e)
unfolding step
step-IsCounted limit d (arrives peer id) c = arrives-IsCounted limit d id c peer
step-IsCounted limit d (judged now id) c =
    judge-IsCounted limit d id c now (lookup id d.inside) refl
step-IsCounted limit d (fails now id) c =
    fail_from-IsCounted limit d id c now (lookup id d.inside) refl
step-IsCounted limit d (succeeds id) c = succeed-IsCounted limit d id c (lookup id d.inside) refl
step-IsCounted limit d (returns id) c = return_from-IsCounted limit d id c (lookup id d.inside) refl
step-IsCounted limit d (gives id) c = exit-IsCounted limit d id c (lookup id d.inside) refl

unfoldable pub run : Door → List Event → Option Door
run d [] = some d
run d (e ∷ es) = elim (step d e) [ none ↦ none | some d' ↦ run d' es ]

run-none : (d d' : Door) (e : Event) (es : List Event) → step d e ≡ none → run d (e ∷ es) ≢ some d'
unfolding run
run-none d d' e es h r = cc (rw (h, run) at r)

run-some :
    (d m d' : Door) (e : Event) (es : List Event)
    → step d e ≡ some m
    → run d (e ∷ es) ≡ some d'
    → run m es ≡ some d'
unfolding run
run-some d m d' e es h r = rw (h, run) at r

run-IsCounted :
    (limit : Option ℕ) (d d' : Door) (es : List Event)
    → IsCounted limit d
    → run d es ≡ some d'
    → IsCounted limit d'
run-IsCounted limit d d' [] c r = subst (IsCounted limit) (some-injective d d' (unfold run in r)) c
run-IsCounted limit d d' (e ∷ es) c r = elim (Option-cases (step d e)) [
  | inl h ↦ absurd (run-none d d' e es h r)
  | inr (m, h) ↦ elim (step-IsCounted limit d e c) [
    | inl no_step ↦ absurd (none-ne-some m (sym no_step ∙ h))
    | inr made ↦ run-IsCounted limit m d' es (rw h at made) (run-some d m d' e es h r)
  ]
]

counted_bound : (n : ℕ) (o : Option Slots) (k : ℕ) → Fits (some n) o k → (in_use o ≡ k) × (k ≤ n)
unfolding in_use
counted_bound n none k f = absurd (some-ne-none n f)
counted_bound n (some s) k f = let e = some-injective n s.cap f.0 in (f.1, omega arith)

start-IsCounted :
    (n : ℕ) (kind : Text) (failures : Limiter)
    → IsCounted
        (some (suc n))
        (record { slots = new_slots (pos (suc n)) kind; failures = failures; inside = [] })
unfolding new_slots
start-IsCounted n kind failures = record { ids = tt; fits = (refl, refl, omega arith) }

-- In every history of a listener with a limit of n > 0, the slots in use are the connections in
-- flight, and there are at most n of them.
pub door_bound :
    (n : ℕ) (kind : Text) (failures : Limiter) (es : List Event) (d : Door)
    → run (record { slots = new_slots (pos (suc n)) kind; failures = failures; inside = [] }) es
      ≡ some d
    → (in_use d.slots ≡ length d.inside) × (length d.inside ≤ suc n)
door_bound n kind failures es d r =
    counted_bound (suc n) d.slots (length d.inside)
      (run-IsCounted (some (suc n)) _ d es (start-IsCounted n kind failures) r).fits

slot_back :
    (m : ℕ) (o : Option Slots) (d : Door) (k : ℕ)
    → Fits (some m) o (suc k)
    → (d' : Door) × (with_slots d (give o) ≡ some d')
      × (d'.inside ≡ d.inside)
      × (in_use o ≡ suc (in_use d'.slots))
unfolding with_slots give in_use
slot_back m none d k h = absurd (some-ne-none m h)
slot_back m (some s) d k (a, b, c) =
    (record d { slots = some (record s { used = s.used - 1 }) }, ground arith, refl, ground arith)

-- In every history of a listener with a limit, a connection whose function has returned gives its
-- slot back without blocking: it is not in flight any more, and there is one slot less in use.
pub gives_lem :
    (n : ℕ) (kind : Text) (failures : Limiter) (es : List Event) (d : Door) (id : ℕ)
    → run (record { slots = new_slots (pos (suc n)) kind; failures = failures; inside = [] }) es
      ≡ some d
    → lookup id d.inside ≡ some leaving
    → (d' : Door) × (step d (gives id) ≡ some d')
      × (lookup id d'.inside ≡ none)
      × (in_use d.slots ≡ suc (in_use d'.slots))
unfolding step exit
gives_lem n kind failures es d id r e =
    let c = run-IsCounted (some (suc n)) _ d es (start-IsCounted n kind failures) r in
    let one_less = length-delete id d.inside c.ids (held id d.inside leaving e) in
    let fits = subst (λ (k : ℕ). Fits (some (suc n)) d.slots k) (sym one_less) c.fits in
    let (d', made, kept, used) =
      slot_back (suc n) d.slots (record d { inside = delete id d.inside })
        (length (delete id d.inside)) fits in
    (
      d',
      rw e made,
      ap (λ (m : Dict ℕ Phase). lookup id m) kept ∙ (lookup-delete id id d.inside ∙ ground arith),
      used,
    )
