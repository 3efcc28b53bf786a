-- ===== src/Limiter.antt =====
-- The limiter of cmd/proxy/enroll.go: a window of recent events for each source address. An instant
-- is the number of nanoseconds since Go's zero time, and `now` is an argument of each call.
pub mod Window
pub mod History
use multi_ssh.Base.{
  ℕ, ◌+◌, ◌≡◌, refl, Bool, true, false, List, [], ◌∷◌, ◌++◌, Option, none, some, Text, text_eq,
  Dict, lookup, insert, ltb, leb, if◌then◌else◌, length, any, filter, ℕ_discrete,
}
use multi_ssh.Base.Strings.{codes}

pub record Limiter : Type 0 where
  pub seen : Dict Text (List ℕ)
  pub window : ℕ
  pub burst : ℕ
  pub last_sweep : ℕ

unfoldable pub new_limiter : ℕ → ℕ → Limiter
new_limiter window burst = record { seen = []; window = window; burst = burst; last_sweep = 0 }

-- `t.After(now.Add(-window))`
abbrev pub fresh : ℕ → ℕ → ℕ → Bool
fresh window now t = ltb now (t + window)

abbrev pub or_nil : Option (List ℕ) → List ℕ
or_nil none = []
or_nil (some ts) = ts

-- `l.seen[key]`
abbrev pub times : Text → Dict Text (List ℕ) → List ℕ
times key m = or_nil (lookup key m)

-- The loop of `sweepLocked`: it drops the keys whose events have all aged out.
unfoldable pub drop_stale : ℕ → ℕ → Dict Text (List ℕ) → Dict Text (List ℕ)
drop_stale window now [] = []
drop_stale window now ((k, ts) ∷ m) =
    let rest = drop_stale window now m in if any (fresh window now) ts then (k, ts) ∷ rest else rest

unfoldable pub sweep_locked : Limiter → ℕ → Limiter
sweep_locked l now =
    if ltb now (l.last_sweep + l.window)
    then l
    else record l { last_sweep = now; seen = drop_stale l.window now l.seen }

-- Recent events, with none recorded.
unfoldable pub count : Limiter → ℕ → Text → ℕ
count l now key = length (filter (fresh l.window now) (times key l.seen))

-- The rest of `allow` once the sweep is done: the events that still count are kept, and the new
-- one joins them if there is room.
unfoldable pub admit : Limiter → ℕ → Text → Limiter × Bool
admit l now key =
    let kept = filter (fresh l.window now) (times key l.seen) in
    if leb l.burst (length kept)
    then (record l { seen = insert key kept l.seen }, false)
    else (record l { seen = insert key (kept ++ now ∷ []) l.seen }, true)

unfoldable pub allow : Limiter → ℕ → Text → Limiter × Bool
allow l now key = admit (sweep_locked l now) now key

-- Three calls at burst 2 and window 10, then one after the window.
third_refused :
    (let l = (allow (allow (new_limiter 10 2) 100 (codes "a")).0 101 (codes "a")).0 in
      (allow l 102 (codes "a")).1)
    ≡ false
unfolding allow admit sweep_locked drop_stale new_limiter insert lookup text_eq ℕ_discrete
third_refused = refl
