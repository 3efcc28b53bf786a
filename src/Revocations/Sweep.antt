-- ===== src/Revocations/Sweep.antt =====
-- Which connections a sweep of cmd/proxy/revoke.go closes.
use multi_ssh.Base.{
  ℕ, ◌≡◌, inl, inr, refl, Bool, false, [], ◌∷◌, ◌&&◌, Option, none, some, Text, ◌==◌, text_eq,
  nat_eq, Dict, lookup, NodupKeys, holds, eqb, All, any, length, contains, Bool-cases, arith,
}
use multi_ssh.Registry.{Registry, connections}
use multi_ssh.Registry.Listing.{lookup-connections, connections-NodupKeys}
use multi_ssh.Revocations.{Revocations, revoked, count, sweep_over, sweep}

abbrev is_revoked : Revocations → Option Text → Bool
is_revoked r none = false
is_revoked r (some fp) = holds fp r.m

contains-sweep_over :
    (r : Revocations) (cs : Dict ℕ Text) (c : ℕ)
    → NodupKeys cs
    → contains (sweep_over r cs) c ≡ is_revoked r (lookup c cs)
unfolding sweep_over revoked holds lookup
contains-sweep_over r [] c u = refl
contains-sweep_over r ((d, fp) ∷ cs) c u = ground (arith, contains-sweep_over r cs c u.1)

nothing_held : (m : Dict Text Text) (fp : Text) → length m ≡ 0 → holds fp m ≡ false
unfolding holds lookup
nothing_held [] fp h = refl
nothing_held (e ∷ m) fp h = absurd (omega arith)

-- Where every entry of a connection carries that connection's fingerprint, a sweep closes exactly
-- the registered connections whose fingerprint is barred; an empty set of barred keys, which the
-- sweep passes over at once, is no exception.
pub contains-sweep :
    (fp_of : ℕ → Text) (r : Revocations) (reg : Registry) (c : ℕ)
    → All (λ e. e.1.fp ≡ fp_of e.1.conn) reg
    → contains (sweep r reg) c ≡ (any (λ e. c == e.1.conn) reg && holds (fp_of c) r.m)
unfolding sweep count
contains-sweep fp_of r reg c h = elim (Bool-cases (eqb (length r.m) 0)) [
  | inl empty ↦ rw empty (ground (arith, nothing_held r.m (fp_of c)))
  | inr some' ↦
      rw
        (
          some',
          contains-sweep_over r (connections reg) c (connections-NodupKeys reg),
          lookup-connections fp_of reg c h,
        )
        (ground arith)
]
