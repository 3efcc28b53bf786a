-- ===== src/Limiter/Window.antt =====
-- The limiter of cmd/proxy/enroll.go against the log of all events that it let through.
use multi_ssh.Base.{
  ℕ, ◌+◌, ◌≤◌, ◌≡◌, refl, sym, Bool, true, false, List, [], ◌∷◌, ◌++◌, inl, inr, none, Text,
  text_eq, Dict, lookup, NodupKeys, lookup-insert, insert-NodupKeys, ltb, leb, if◌then◌else◌,
  length, any, filter, filter-append, append-nil, ◌==◌, Bool-cases, arith,
}
use multi_ssh.Limiter.{Limiter, fresh, times, drop_stale, sweep_locked, admit, allow}

-- What went through, oldest first, each with its key.
abbrev pub Log : Type 0
Log = List (Text × ℕ)

unfoldable pub of_key : Text → Log → List ℕ
of_key k [] = []
of_key k ((j, t) ∷ log) = let rest = of_key k log in if k == j then t ∷ rest else rest

abbrev pub Calls : Type 0
Calls = List (ℕ × Text)

abbrev pub log_if : Bool → Log → Text → ℕ → Log
log_if true log key now = log ++ (key, now) ∷ []
log_if false log key now = log

-- A history of calls of `allow`: the limiter and the log behind it.
unfoldable pub run : Limiter → Log → Calls → Limiter × Log
run l log [] = (l, log)
run l log ((now, key) ∷ cs) = let r = allow l now key in run r.0 (log_if r.1 log key now) cs

-- Time does not run backwards, from `t` on and up to `u`.
abbrev pub InOrder : ℕ → Calls → ℕ → Type 0
InOrder t [] u = t ≤ u
InOrder t ((now, key) ∷ cs) u = (t ≤ now) × InOrder now cs u

filter_again :
    (w now later : ℕ) (ts : List ℕ)
    → now ≤ later
    → filter (fresh w later) (filter (fresh w now) ts) ≡ filter (fresh w later) ts
filter_again w now later [] h = refl
filter_again w now later (t ∷ ts) h = ground (arith, filter_again w now later ts)

stale_later :
    (w now later : ℕ) (ts : List ℕ)
    → now ≤ later
    → any (fresh w now) ts ≡ false
    → filter (fresh w later) ts ≡ []
stale_later w now later [] h s = refl
stale_later w now later (t ∷ ts) h s = ground (arith, stale_later w now later ts)

lookup-drop_stale :
    (w now : ℕ) (k : Text) (m : Dict Text (List ℕ))
    → lookup k m ≡ none
    → lookup k (drop_stale w now m) ≡ none
unfolding drop_stale lookup
lookup-drop_stale w now k [] h = refl
lookup-drop_stale w now k ((j, ts) ∷ m) h = ground (arith, lookup-drop_stale w now k m)

drop_stale-NodupKeys :
    (w now : ℕ) (m : Dict Text (List ℕ)) → NodupKeys m → NodupKeys (drop_stale w now m)
unfolding drop_stale
drop_stale-NodupKeys w now [] h = tt
drop_stale-NodupKeys w now ((j, ts) ∷ m) (fresh_key, h) =
    ground (arith, drop_stale-NodupKeys w now m h, lookup-drop_stale w now j m fresh_key)

-- What a sweep drops would not have counted, then or later.
times-drop_stale :
    (w now later : ℕ) (k : Text) (m : Dict Text (List ℕ))
    → NodupKeys m
    → now ≤ later
    → filter (fresh w later) (times k (drop_stale w now m)) ≡ filter (fresh w later) (times k m)
unfolding drop_stale lookup
times-drop_stale w now later k [] u h = refl
times-drop_stale w now later k ((j, ts) ∷ m) (fresh_key, u) h = ground (
  arith,
  times-drop_stale w now later k m u h,
  stale_later w now later ts h,
  lookup-drop_stale w now k m,
)

pub sweep_locked-NodupKeys :
    (l : Limiter) (now : ℕ) → NodupKeys l.seen → NodupKeys (sweep_locked l now).seen
unfolding sweep_locked
sweep_locked-NodupKeys l now u = ground (arith, drop_stale-NodupKeys l.window now l.seen u)

pub times-sweep_locked :
    (l : Limiter) (now later : ℕ) (k : Text)
    → NodupKeys l.seen
    → now ≤ later
    → filter (fresh l.window later) (times k (sweep_locked l now).seen)
      ≡ filter (fresh l.window later) (times k l.seen)
unfolding sweep_locked
times-sweep_locked l now later k u h = elim (Bool-cases (ltb now (l.last_sweep + l.window))) [
  | inl recent ↦ rw recent
  | inr due ↦ rw due (times-drop_stale l.window now later k l.seen u h)
]

pub sweep_locked_fixed :
    (l : Limiter) (now : ℕ)
    → ((sweep_locked l now).window ≡ l.window) × ((sweep_locked l now).burst ≡ l.burst)
unfolding sweep_locked
sweep_locked_fixed l now = ground arith

-- The answer on the events that still count.
abbrev pub room : ℕ → List ℕ → Bool
room burst ts = if leb burst (length ts) then false else true

pub admit_answer :
    (l : Limiter) (now : ℕ) (key : Text)
    → (admit l now key).1 ≡ room l.burst (filter (fresh l.window now) (times key l.seen))
unfolding admit
admit_answer l now key = ground arith

pub admit_fixed :
    (l : Limiter) (now : ℕ) (key : Text)
    → ((admit l now key).0.window ≡ l.window) × ((admit l now key).0.burst ≡ l.burst)
unfolding admit
admit_fixed l now key = ground arith

pub admit-NodupKeys :
    (l : Limiter) (now : ℕ) (key : Text) → NodupKeys l.seen → NodupKeys (admit l now key).0.seen
unfolding admit
admit-NodupKeys l now key u =
    let kept = filter (fresh l.window now) (times key l.seen) in
    ground
      (arith, insert-NodupKeys key kept l.seen u, insert-NodupKeys key (kept ++ now ∷ []) l.seen u)

-- What the state of `admit` counts from then on.
pub times-admit :
    (l : Limiter) (now later : ℕ) (key k : Text)
    → now ≤ later
    → filter (fresh l.window later) (times k (admit l now key).0.seen)
      ≡ filter
          (fresh l.window later)
          (times k l.seen ++ of_key k (log_if (admit l now key).1 [] key now))
unfolding admit of_key
times-admit l now later key k h =
    let kept = filter (fresh l.window now) (times key l.seen) in
    ground (
      arith,
      lookup-insert k key kept l.seen,
      lookup-insert k key (kept ++ now ∷ []) l.seen,
      filter_again l.window now later (times key l.seen) h,
      filter-append (fresh l.window later) kept (now ∷ []),
      filter-append (fresh l.window later) (times key l.seen) (now ∷ []),
      append-nil (times k l.seen),
    )

pub of_key-append :
    (k : Text) (log more : Log) → of_key k (log ++ more) ≡ of_key k log ++ of_key k more
unfolding of_key
of_key-append k [] more = refl
of_key-append k ((j, t) ∷ log) more = ground (arith, of_key-append k log more)

pub log_if-append :
    (b : Bool) (log : Log) (key : Text) (now : ℕ)
    → log_if b log key now ≡ log ++ log_if b [] key now
log_if-append true log key now = refl
log_if-append false log key now = sym (append-nil log)

pub length-filter_mono :
    (w now later : ℕ) (ts : List ℕ)
    → now ≤ later
    → length (filter (fresh w later) ts) ≤ length (filter (fresh w now) ts)
length-filter_mono w now later [] h = omega arith
length-filter_mono w now later (t ∷ ts) h = ground (arith, length-filter_mono w now later ts h)
