-- ===== src/Backoff.antt =====
-- The two loops that wait and try again: the accept loop of `serve` (cmd/proxy/main.go) and
-- `maintain` (cmd/agent/main.go). Both run for ever; a run is modelled over the list of what
-- happens to it, and durations are numbers of nanoseconds.
pub mod Accepting
pub mod Redialling
use multi_ssh.Base.{
  ℕ, ◌+◌, ◌*◌, ◌/◌, ◌%◌, ◌^◌, ◌≡◌, refl, Bool, true, false, List, [], ◌∷◌, ltb, leb, if◌then◌else◌,
}

abbrev pub millisecond : ℕ
millisecond = 10 ^ 6

abbrev pub second : ℕ
second = 10 ^ 9

-- What `ln.Accept` returns: a connection, `net.ErrClosed` or another error.
pub data Accept : Type 0 where
  connection : ℕ → Accept
  closed failed : Accept

-- What the accept loop does.
pub data Act : Type 0 where
  takes : ℕ → Act
  sleeps : ℕ → Act
  returns : Act

abbrev pub first_backoff : ℕ
first_backoff = 5 * millisecond

unfoldable pub accept_loop : ℕ → List Accept → List Act
accept_loop backoff [] = []
accept_loop backoff (closed ∷ es) = returns ∷ []
accept_loop backoff (failed ∷ es) =
    sleeps backoff ∷ accept_loop (if ltb backoff second then backoff * 2 else backoff) es
accept_loop backoff (connection c ∷ es) = takes c ∷ accept_loop first_backoff es

abbrev pub min_backoff : ℕ
min_backoff = second

abbrev pub max_backoff : ℕ
max_backoff = 60 * second

abbrev pub healthy_session : ℕ
healthy_session = 60 * second

-- A session that ended: how long it lasted, and the number drawn for the jitter.
pub record Ended : Type 0 where
  pub lasted : ℕ
  pub draw : ℕ

-- `rand.Int63n(backoff / 2)`
abbrev jitter : ℕ → ℕ → ℕ
jitter backoff draw = draw % (backoff / 2)

-- How long `maintain` sleeps after each session.
unfoldable pub maintain : ℕ → List Ended → List ℕ
maintain backoff [] = []
maintain backoff (s ∷ ss) =
    let b = if leb healthy_session s.lasted then min_backoff else backoff in
    (b + jitter b s.draw) ∷ maintain (if ltb b max_backoff then b * 2 else b) ss
