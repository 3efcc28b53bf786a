-- ===== src/Examples/RegistryClaims.antt =====
-- Claims of a name in the registry of cmd/proxy/main.go, by example.
use multi_ssh.Base.{◌⊎◌, [], text_eq, lookup, ◌∷◌}
use multi_ssh.Base.Strings.{codes}
use multi_ssh.Examples.Data.{laptop}
use multi_ssh.Registry.{Registry, add}
use multi_ssh.Registry.Claims.{entry, IsRefused, IsAdded, add_lem}

abbrev held : Registry
held = (laptop, entry 7 (codes "fp") 1 [] []) ∷ []

add_lem_example :
    IsRefused held (lookup laptop held) (codes "other") (add held laptop 8 (codes "other") 1 [] [])
    ⊎ IsAdded held laptop
        (entry 8 (codes "other") 1 [] [])
        (add held laptop 8 (codes "other") 1 [] [])
add_lem_example = add_lem held laptop 8 ((codes "other")) 1 [] []
