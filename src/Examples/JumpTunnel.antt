-- ===== src/Examples/JumpTunnel.antt =====
-- A jump to a target (cmd/proxy/main.go), by example.
use multi_ssh.Base.{◌≡◌, true, List, [], ◌∷◌, some, text_eq}
use multi_ssh.Base.Strings.{codes}
use multi_ssh.Examples.Data.{laptop}
use multi_ssh.Jump.{Event, answered, timed_out, serve_jump}
use multi_ssh.Jump.Tunnel.{is_piped, serve_jump_open, by_first, by_target, serve_jump_lem}
use multi_ssh.Registry.{Registry, get}
use multi_ssh.Registry.Claims.{entry}

abbrev held : Registry
held = (laptop, entry 7 (codes "fp") 1 [] []) ∷ []

abbrev in_time : List Event
in_time = answered true ∷ timed_out ∷ []

abbrev too_late : List Event
too_late = timed_out ∷ answered true ∷ []

serve_jump_lem_example :
    (serve_jump held (some laptop) in_time true).0
    ≡ by_target (λ agent. by_first true agent in_time) (get held laptop)
serve_jump_lem_example = serve_jump_lem held laptop in_time true

serve_jump_open_example :
    (serve_jump held (some laptop) too_late true).1
    ≡ is_piped (serve_jump held (some laptop) too_late true).0
serve_jump_open_example = serve_jump_open held ((some laptop)) too_late true
