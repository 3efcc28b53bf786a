-- ===== src/Backoff/Accepting.antt =====
-- What the accept loop of cmd/proxy/main.go does over a run.
use mathlib.Core.Bool.{false≢true}
use multi_ssh.Base.{
  ℕ, zero, suc, ◌+◌, ◌*◌, ◌^◌, ◌≡◌, refl, sym, ap, Bool, true, false, List, [], ◌∷◌, ◌++◌, ltb,
  if◌then◌else◌, any, arith,
}
use multi_ssh.Backoff.{
  millisecond, second, Accept, connection, closed, failed, Act, takes, sleeps, returns,
  first_backoff, accept_loop,
}

-- The wait of the failure that `k` others precede without a connection between.
abbrev pub wait : ℕ → ℕ
wait k = if ltb k 8 then first_backoff * 2 ^ k else 1280 * millisecond

-- The loop as it is meant: it counts the failures in a row.
abbrev pub accepting : ℕ → List Accept → List Act
accepting k [] = []
accepting k (closed ∷ es) = returns ∷ []
accepting k (failed ∷ es) = sleeps (wait k) ∷ accepting (k + 1) es
accepting k (connection c ∷ es) = takes c ∷ accepting 0 es

doubled : (k : ℕ) → (if ltb (wait k) second then wait k * 2 else wait k) ≡ wait (k + 1)
doubled zero = refl
doubled (suc zero) = refl
doubled (suc (suc zero)) = refl
doubled (suc (suc (suc zero))) = refl
doubled (suc (suc (suc (suc zero)))) = refl
doubled (suc (suc (suc (suc (suc zero))))) = refl
doubled (suc (suc (suc (suc (suc (suc zero)))))) = refl
doubled (suc (suc (suc (suc (suc (suc (suc zero))))))) = refl
doubled (suc (suc (suc (suc (suc (suc (suc (suc k)))))))) = ground arith

accept_loop-from : (k : ℕ) (es : List Accept) → accept_loop (wait k) es ≡ accepting k es
unfolding accept_loop
accept_loop-from k [] = refl
accept_loop-from k (closed ∷ es) = refl
accept_loop-from k (failed ∷ es) = rw (doubled k, accept_loop-from (k + 1) es) refl
accept_loop-from k (connection c ∷ es) = rw (accept_loop-from 0 es) refl

-- The accept loop waits 5 ms after the first error, twice as long after each further error in a
-- row up to 1.28 s, and starts over with each connection, which it takes; a closed listener ends
-- it.
pub accept_loop_lem : (es : List Accept) → accept_loop first_backoff es ≡ accepting 0 es
accept_loop_lem es = accept_loop-from 0 es

abbrev pub is_closed : Accept → Bool
is_closed closed = true
is_closed e = false

abbrev pub connections_of : List Accept → List ℕ
connections_of [] = []
connections_of (connection c ∷ es) = c ∷ connections_of es
connections_of (e ∷ es) = connections_of es

abbrev pub taken : List Act → List ℕ
taken [] = []
taken (takes c ∷ more) = c ∷ taken more
taken (a ∷ more) = taken more

abbrev pub has_returned : List Act → Bool
has_returned [] = false
has_returned (returns ∷ more) = true
has_returned (a ∷ more) = has_returned more

-- Once the listener is closed the loop returns, whatever errors came before, and it has taken
-- each connection accepted until then, in order, and none after.
pub accept_loop_returns :
    (backoff : ℕ) (es rest : List Accept)
    → any is_closed es ≡ false
    → (has_returned (accept_loop backoff (es ++ closed ∷ rest)) ≡ true)
      × (taken (accept_loop backoff (es ++ closed ∷ rest)) ≡ connections_of es)
unfolding accept_loop
accept_loop_returns b [] rest h = (refl, refl)
accept_loop_returns b (connection c ∷ es) rest h =
    let (r, t) = accept_loop_returns first_backoff es rest h in (r, ap (◌∷◌ c) t)
accept_loop_returns b (closed ∷ es) rest h = absurd (false≢true (sym h))
accept_loop_returns b (failed ∷ es) rest h =
    accept_loop_returns (if ltb b second then b * 2 else b) es rest h
