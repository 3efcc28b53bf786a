-- ===== src/Examples/DoorBounded.antt =====
-- Connections in flight on a listener of cmd/proxy/main.go, by example.
use multi_ssh.Base.{
  insert, suc, ◌≤◌, ◌≡◌, refl, [], ◌∷◌, none, some, text_eq, nat_eq, lookup, holds, length,
  ℕ_discrete,
}
use multi_ssh.Base.Int.{pos}
use multi_ssh.Base.Strings.{codes}
use multi_ssh.Door.{shaking, leaving, Door, arrives, judged, fails, gives, step}
use multi_ssh.Door.Bounded.{run, door_bound, gives_lem}
use multi_ssh.Door.Semaphore.{new_slots, take, in_use}
use multi_ssh.Limiter.{allow, sweep_locked, drop_stale, admit, count, new_limiter}

abbrev failed_door : Door
failed_door = record {
  slots = some (record { cap = 2; used = 1; kind = codes "conn" });
  failures = (allow (new_limiter 10 2) 6 (codes "a")).0;
  inside = (1, leaving) ∷ [];
}

abbrev busy_door : Door
busy_door = record {
  slots = some (record { cap = 2; used = 1; kind = codes "conn" });
  failures = new_limiter 10 2;
  inside = (1, shaking (codes "a")) ∷ [];
}

once_failed :
    run
      (record {
        slots = new_slots (pos 2) (codes "conn");
        failures = new_limiter 10 2;
        inside = [];
      })
      (arrives (codes "a") 1 ∷ judged 5 1 ∷ fails 6 1 ∷ [])
    ≡ some failed_door
unfolding run step new_slots take insert holds lookup new_limiter count allow sweep_locked
    drop_stale admit text_eq nat_eq ℕ_discrete
once_failed = refl

gives_lem_example :
    (d' : Door) × (step failed_door (gives 1) ≡ some d')
    × (lookup 1 d'.inside ≡ none)
    × (in_use failed_door.slots ≡ suc (in_use d'.slots))
unfolding lookup nat_eq ℕ_discrete
gives_lem_example =
    gives_lem 1 ((codes "conn")) ((new_limiter 10 2))
      ((arrives (codes "a") 1 ∷ judged 5 1 ∷ fails 6 1 ∷ [])) failed_door 1 once_failed refl

door_bound_example :
    (in_use busy_door.slots ≡ length busy_door.inside) × (length busy_door.inside ≤ suc 1)
unfolding run step new_slots take insert holds lookup new_limiter count text_eq nat_eq ℕ_discrete
door_bound_example =
    door_bound 1 ((codes "conn")) ((new_limiter 10 2)) ((arrives (codes "a") 1 ∷ judged 5 1 ∷ []))
      busy_door refl
