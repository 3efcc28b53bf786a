-- ===== src/Examples/ShellSingle.antt =====
-- A session channel of cmd/agent/main.go, by example.
use multi_ssh.Base.{◌+◌, ◌≤◌, ◌≡◌, Bool, true, List, [], ◌∷◌, length, some, text_eq}
use multi_ssh.Base.Strings.{codes}
use multi_ssh.Shell.{new_channel, Request, shell, exec, serve}
use multi_ssh.Shell.Single.{one_if, granted, granted_bound, shells_granted, serve_terminates}

abbrev asked : List (Request × Bool)
asked = (shell, true) ∷ (exec (some (codes "ls")), true) ∷ []

granted_bound_example : granted asked (serve new_channel asked).1 + one_if new_channel.started ≤ 1
granted_bound_example = granted_bound new_channel asked

serve_terminates_example :
    length (serve new_channel asked).0.hung_up ≡ shells_granted asked (serve new_channel asked).1
serve_terminates_example = serve_terminates asked
