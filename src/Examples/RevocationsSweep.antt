-- ===== src/Examples/RevocationsSweep.antt =====
-- The sweep of cmd/proxy/revoke.go, by example.
use multi_ssh.Base.{ℕ, ◌≡◌, refl, [], ◌∷◌, ◌&&◌, Text, ◌==◌, text_eq, nat_eq, holds, any, contains}
use multi_ssh.Base.Strings.{codes}
use multi_ssh.Examples.Data.{laptop, one_revoked}
use multi_ssh.Registry.{Registration}
use multi_ssh.Registry.Claims.{entry}
use multi_ssh.Revocations.{sweep}
use multi_ssh.Revocations.Sweep.{contains-sweep}

abbrev conn : ℕ
conn = 7

abbrev stolen : ℕ → Text
stolen c = codes "stolen"

contains-sweep_example :
    contains (sweep one_revoked ((laptop, entry 7 (codes "stolen") 1 [] []) ∷ [])) conn ≡ (
      any
        (λ (e : Text × Registration). conn == e.1.conn)
        ((laptop, entry 7 (codes "stolen") 1 [] []) ∷ [])
      && holds (stolen conn) one_revoked.m)
contains-sweep_example =
    contains-sweep stolen one_revoked (((laptop, entry 7 (codes "stolen") 1 [] []) ∷ [])) conn
      ((refl, tt))
