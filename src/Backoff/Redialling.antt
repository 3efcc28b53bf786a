-- ===== src/Backoff/Redialling.antt =====
-- How long `maintain` of cmd/agent/main.go waits between two sessions.
use native.Mathlib.Nat.{mod-lt}
use multi_ssh.Base.{
  ℕ, zero, suc, ◌+◌, ◌*◌, ◌/◌, ◌^◌, ◌≡◌, ◌≤◌, ◌<◌, refl, List, [], ◌∷◌, ltb, leb, if◌then◌else◌,
  Bool-cases, inl, inr, arith,
}
use multi_ssh.Backoff.{second, min_backoff, max_backoff, healthy_session, Ended, jitter, maintain}

-- The backoff after `k` sessions in a row that were too short.
abbrev pub delay : ℕ → ℕ
delay k = if ltb k 6 then min_backoff * 2 ^ k else 64 * second

-- How many sessions in a row were too short, one more ended.
abbrev pub short_after : ℕ → Ended → ℕ
short_after k s = if leb healthy_session s.lasted then 0 else k

-- Each wait lies between the backoff and one and a half times it.
abbrev pub Waits : ℕ → List Ended → List ℕ → Type 0
Waits k (s ∷ ss) (d ∷ ds) =
    (delay (short_after k s) ≤ d)
    × (2 * d < 3 * delay (short_after k s))
    × Waits (short_after k s + 1) ss ds
Waits k [] [] = Unit
Waits k ss ds = ⊥

doubled : (k : ℕ) → (if ltb (delay k) max_backoff then delay k * 2 else delay k) ≡ delay (k + 1)
doubled zero = refl
doubled (suc zero) = refl
doubled (suc (suc zero)) = refl
doubled (suc (suc (suc zero))) = refl
doubled (suc (suc (suc (suc zero)))) = refl
doubled (suc (suc (suc (suc (suc zero))))) = refl
doubled (suc (suc (suc (suc (suc (suc k)))))) = ground arith

delay-pos : (k : ℕ) → second ≤ delay k
delay-pos zero = omega arith
delay-pos (suc zero) = omega arith
delay-pos (suc (suc zero)) = omega arith
delay-pos (suc (suc (suc zero))) = omega arith
delay-pos (suc (suc (suc (suc zero)))) = omega arith
delay-pos (suc (suc (suc (suc (suc zero))))) = omega arith
delay-pos (suc (suc (suc (suc (suc (suc k)))))) = grind arith

jitter_bound : (b draw : ℕ) → second ≤ b → 2 * (b + jitter b draw) < 3 * b
jitter_bound b draw h = let half : 0 < b / 2 = omega arith in omega (arith, mod-lt draw half)

delay-short :
    (k : ℕ) (s : Ended)
    → (if leb healthy_session s.lasted then min_backoff else delay k) ≡ delay (short_after k s)
delay-short k s = elim (Bool-cases (leb healthy_session s.lasted)) [
  | inl yes' ↦ rw yes' refl
  | inr no' ↦ rw no' refl
]

maintain-from : (k : ℕ) (ss : List Ended) → Waits k ss (maintain (delay k) ss)
unfolding maintain
maintain-from k [] = tt
maintain-from k (s ∷ ss) =
    rw (delay-short k s, doubled (short_after k s))
      (
        omega arith,
        jitter_bound (delay (short_after k s)) s.draw (delay-pos (short_after k s)),
        maintain-from (short_after k s + 1) ss,
      )

-- The wait after a session lies between the backoff and one and a half times it; the backoff is a
-- second after a session of at least a minute and at the start, and doubles with each shorter
-- session in a row, up to 64 seconds.
pub maintain_lem : (ss : List Ended) → Waits 0 ss (maintain min_backoff ss)
maintain_lem ss = maintain-from 0 ss
