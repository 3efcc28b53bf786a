-- ===== src/Examples/LimiterHistory.antt =====
-- The limiter of cmd/proxy/enroll.go, by example.
use multi_ssh.Base.{◌≤◌, ◌≡◌, [], ◌∷◌, text_eq, length, filter, arith}
use multi_ssh.Base.Strings.{codes}
use multi_ssh.Limiter.{new_limiter, fresh, count}
use multi_ssh.Limiter.History.{limiter_bound}
use multi_ssh.Limiter.Window.{of_key, Calls, run, InOrder}

abbrev calls : Calls
calls = (100, codes "a") ∷ (101, codes "b") ∷ (101, codes "a") ∷ (102, codes "a") ∷ []

calls-InOrder : InOrder 0 calls 103
calls-InOrder = ground arith

limiter_bound_example :
    (count (run (new_limiter 10 2) [] calls).0 103 (codes "a")
      ≡ length (filter (fresh 10 103) (of_key (codes "a") (run (new_limiter 10 2) [] calls).1)))
    × (count (run (new_limiter 10 2) [] calls).0 103 (codes "a") ≤ 2)
limiter_bound_example = limiter_bound 10 2 calls 103 ((codes "a")) calls-InOrder
