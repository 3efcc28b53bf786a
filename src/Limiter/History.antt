-- ===== src/Limiter/History.antt =====
-- The limiter of cmd/proxy/enroll.go over a history of calls in order of time.
use mathlib.Core.Path.{subst}
use multi_ssh.Base.{
  ℕ, ◌≤◌, ◌<◌, ◌≡◌, refl, sym, ap, ◌∙◌, true, List, [], ◌∷◌, ◌++◌, inl, inr, Text, text_eq, lookup,
  ◌↔◌, NodupKeys, length, filter, filter-append, length-append, append-nil, Bool-cases, arith,
}
use multi_ssh.Limiter.Window.{
  Log, of_key, Calls, log_if, run, InOrder, sweep_locked-NodupKeys, times-sweep_locked,
  sweep_locked_fixed, room, admit_answer, admit_fixed, admit-NodupKeys, times-admit, of_key-append,
  log_if-append, length-filter_mono,
}
use multi_ssh.Limiter.{Limiter, new_limiter, fresh, times, sweep_locked, count, allow}

-- The limiter holds what of the log can still count from `t` on, and no key has had more than the
-- burst in the window that ends at any such instant.
pub record Agrees (w b : ℕ) (l : Limiter) (log : Log) (t : ℕ) : Type 0 where
  pub window : l.window ≡ w
  pub burst : l.burst ≡ b
  pub keys : NodupKeys l.seen
  pub same :
      (k : Text) (now : ℕ)
      → t ≤ now
      → filter (fresh w now) (times k l.seen) ≡ filter (fresh w now) (of_key k log)
  pub bounded : (k : Text) (now : ℕ) → t ≤ now → length (filter (fresh w now) (of_key k log)) ≤ b

module _ (w b : ℕ) (l : Limiter) (log : Log) (t now : ℕ) (key : Text) (h : t ≤ now) where
  counts_same :
      Agrees w b l log t
      → (k : Text) (later : ℕ) → now ≤ later
      → filter (fresh w later) (times k (sweep_locked l now).seen)
        ≡ filter (fresh w later) (of_key k log)
  counts_same a k later n =
      subst
        (λ (v : ℕ).
          filter (fresh v later) (times k (sweep_locked l now).seen)
          ≡ filter (fresh v later) (times k l.seen))
        a.window (times-sweep_locked l now later k a.keys n)
      ∙ a.same k later (omega arith)

  answer_lem :
      Agrees w b l log t → (allow l now key).1 ≡ room b (filter (fresh w now) (of_key key log))
  unfolding allow
  answer_lem a =
      let s = sweep_locked l now in
      let f = sweep_locked_fixed l now in
      admit_answer s now key
      ∙ ap (λ (v : ℕ). room v (filter (fresh s.window now) (times key s.seen))) (f.1 ∙ a.burst)
      ∙ ap (λ (v : ℕ). room b (filter (fresh v now) (times key s.seen))) (f.0 ∙ a.window)
      ∙ ap (room b) (counts_same a key now (omega arith))

  log_after : Log
  log_after = log_if (allow l now key).1 log key now

  same_after :
      Agrees w b l log t
      → (k : Text) (later : ℕ) → now ≤ later
      → filter (fresh w later) (times k (allow l now key).0.seen)
        ≡ filter (fresh w later) (of_key k log_after)
  unfolding allow log_after
  same_after a k later n =
      let s = sweep_locked l now in
      let more = of_key k (log_if (allow l now key).1 [] key now) in
      subst
        (λ (v : ℕ).
          filter (fresh v later) (times k (allow l now key).0.seen)
          ≡ filter (fresh v later) (times k s.seen ++ more))
        ((sweep_locked_fixed l now).0 ∙ a.window) (times-admit s now later key k n)
      ∙ filter-append (fresh w later) (times k s.seen) more
      ∙ ap (λ (ts : List ℕ). ts ++ filter (fresh w later) more) (counts_same a k later n)
      ∙ sym (filter-append (fresh w later) (of_key k log) more)
      ∙ ap (filter (fresh w later)) (
          sym (
            ap (of_key k) (log_if-append (allow l now key).1 log key now)
            ∙ of_key-append k log (log_if (allow l now key).1 [] key now)))

  bounded_after :
      Agrees w b l log t
      → (k : Text) (later : ℕ) → now ≤ later
      → length (filter (fresh w later) (of_key k log_after)) ≤ b
  unfolding log_after of_key
  bounded_after a k later n = elim (Bool-cases (allow l now key).1) [
    | inl granted ↦
        rw
          (
            granted,
            of_key-append k log ((key, now) ∷ []),
            filter-append (fresh w later) (of_key k log) (of_key k ((key, now) ∷ [])),
          )
          (ground (
            arith,
            answer_lem a,
            granted,
            a.bounded k later (omega arith),
            length-filter_mono w now later (of_key key log) n,
            length-append (filter (fresh w later) (of_key k log)) (now ∷ []),
            append-nil (filter (fresh w later) (of_key k log)),
          ))
    | inr refused ↦ rw refused (a.bounded k later (omega arith))
  ]

  allow-Agrees : Agrees w b l log t → Agrees w b (allow l now key).0 log_after now
  allow-Agrees a = record {
    window =
        unfold allow in
        (admit_fixed (sweep_locked l now) now key).0 ∙ (sweep_locked_fixed l now).0 ∙ a.window;
    burst =
        unfold allow in
        (admit_fixed (sweep_locked l now) now key).1 ∙ (sweep_locked_fixed l now).1 ∙ a.burst;
    keys =
        unfold allow in
        admit-NodupKeys (sweep_locked l now) now key (sweep_locked-NodupKeys l now a.keys);
    same = same_after a;
    bounded = bounded_after a;
  }

run-Agrees :
    (w b : ℕ) (l : Limiter) (log : Log) (cs : Calls) (t u : ℕ)
    → InOrder t cs u
    → Agrees w b l log t
    → Agrees w b (run l log cs).0 (run l log cs).1 u
unfolding run log_after
run-Agrees w b l log [] t u o a = record {
  window = a.window;
  burst = a.burst;
  keys = a.keys;
  same = λ k now h. a.same k now (omega arith);
  bounded = λ k now h. a.bounded k now (omega arith);
}
run-Agrees w b l log ((now, key) ∷ cs) t u o a =
    run-Agrees w b (allow l now key).0 (log_if (allow l now key).1 log key now) cs now u o.1
      (allow-Agrees w b l log t now key o.0 a)

new_limiter-Agrees : (w b : ℕ) → Agrees w b (new_limiter w b) [] 0
unfolding new_limiter
new_limiter-Agrees w b = record {
  window = refl;
  burst = refl;
  keys = tt;
  same = λ k now h. unfold lookup of_key in refl;
  bounded = λ k now h. unfold of_key in omega arith;
}

-- After any history of calls in order of time, no key has been let through more often than the
-- burst within the window that ends now, and `count` gives that number.
pub limiter_bound :
    (w b : ℕ) (cs : Calls) (now : ℕ) (key : Text)
    → InOrder 0 cs now
    → (count (run (new_limiter w b) [] cs).0 now key
        ≡ length (filter (fresh w now) (of_key key (run (new_limiter w b) [] cs).1)))
      × (count (run (new_limiter w b) [] cs).0 now key ≤ b)
unfolding count
limiter_bound w b cs now key o =
    let r = run (new_limiter w b) [] cs in
    let a = run-Agrees w b (new_limiter w b) [] cs 0 now o (new_limiter-Agrees w b) in
    let e : count r.0 now key ≡ length (filter (fresh w now) (of_key key r.1)) =
      ap (λ (v : ℕ). length (filter (fresh v now) (times key r.0.seen))) a.window
      ∙ ap length (a.same key now (omega arith)) in
    (e, omega (arith, e, a.bounded key now (omega arith)))

-- After any such history a call is let through exactly if fewer than the burst were let through
-- for its key within the window: forgetting old events changes no answer.
pub limiter_answer :
    (w b : ℕ) (cs : Calls) (now : ℕ) (key : Text)
    → InOrder 0 cs now
    → let r = run (new_limiter w b) [] cs in
      ((allow r.0 now key).1 ≡ true) ↔ (length (filter (fresh w now) (of_key key r.1)) < b)
limiter_answer w b cs now key o =
    let r = run (new_limiter w b) [] cs in
    let a = run-Agrees w b (new_limiter w b) [] cs 0 now o (new_limiter-Agrees w b) in
    rw (answer_lem w b r.0 r.1 now now key (omega arith) a) (ground arith)
